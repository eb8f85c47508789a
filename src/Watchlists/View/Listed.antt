-- ===== src/Watchlists/View/Listed.antt =====
-- `members` of src/watchlist/modules/watchlist/watchlist_controller.py: which securities it lists.
use ticker_watch_case_study.Base.{
  ℕ, ◌≡◌, refl, ◌∙◌, Bool, false, ◌&&◌, ◌||◌, some, [], ◌∷◌, arith, All, Distinct, contains,
  nat_key, ◌==◌, Option-cases, Bool-cases, inl, inr,
}
use ticker_watch_case_study.Base.Dict.{keys, lookup, has}
use ticker_watch_case_study.Base.Sort.{insert_by, sort_by, All-sort_by}
use ticker_watch_case_study.Base.Text.{text_key}
use ticker_watch_case_study.Securities.{SecurityRow, Securities}
use ticker_watch_case_study.Securities.Unique.{tickers, same_security}
use ticker_watch_case_study.Watchlists.{Items, is_item, has_item, joined}

contains-insert_by :
    (le : ℕ × SecurityRow → ℕ × SecurityRow → Bool) (k : ℕ) (x : ℕ × SecurityRow) (xs : Securities)
    → contains k (keys (insert_by le x xs)) ≡ ((x.0 == k) || contains k (keys xs))
unfolding insert_by contains
contains-insert_by le k x [] = refl
contains-insert_by le k x (y ∷ ys) = ground (arith, contains-insert_by le k x ys)

pub contains-sort_by :
    (le : ℕ × SecurityRow → ℕ × SecurityRow → Bool) (k : ℕ) (xs : Securities)
    → contains k (keys (sort_by le xs)) ≡ contains k (keys xs)
unfolding sort_by contains
contains-sort_by le k [] = refl
contains-sort_by le k (x ∷ xs) =
    ground (arith, contains-insert_by le k x (sort_by le xs), contains-sort_by le k xs)

pub contains-joined :
    (securities : Securities) (w k : ℕ) (items : Items)
    → contains k (keys (joined securities w items)) ≡ (has_item w k items && has k securities)
unfolding joined has_item is_item has contains
contains-joined securities w k [] = refl
contains-joined securities w k ((v, s) ∷ items) =
    ground (arith, contains-joined securities w k items, nat_key.test_iff s k)

-- the primary key of `watchlist_items`
abbrev pub IsKeyed : Items → Type 0
IsKeyed [] = Unit {0}
IsKeyed ((w, s) ∷ items) = (has_item w s items ≡ false) × IsKeyed items

joined-Distinct :
    (securities : Securities) (w : ℕ) (items : Items)
    → IsKeyed items
    → Distinct (keys (joined securities w items))
unfolding joined
joined-Distinct securities w [] keyed = tt
joined-Distinct securities w ((v, s) ∷ items) keyed =
    let rest = joined-Distinct securities w items keyed.1 in
    elim (Bool-cases (v == w)) [
      | inr other ↦ rw (joined, other) rest
      | inl own ↦ elim (Option-cases (lookup s securities)) [
        | inl gone ↦ rw (joined, own, gone) rest
        | inr (row, there) ↦
            let fresh : contains s (keys (joined securities w items)) ≡ false =
              contains-joined securities w s items
              ∙ ground (arith, keyed.0, nat_key.test_iff v w, own) in
            rw (joined, own, there) (fresh, rest)
      ]
    ]

joined-All :
    (securities : Securities) (w : ℕ) (items : Items)
    → All (λ m. lookup m.0 securities ≡ some m.1) (joined securities w items)
unfolding joined
joined-All securities w [] = tt
joined-All securities w ((v, s) ∷ items) =
    let rest = joined-All securities w items in
    elim (Bool-cases (v == w)) [
      | inr other ↦ rw (joined, other) rest
      | inl own ↦ elim (Option-cases (lookup s securities)) [
        | inl gone ↦ rw (joined, own, gone) rest
        | inr (row, there) ↦ rw (joined, own, there) (there, rest)
      ]
    ]

insert_by-Distinct :
    (le : ℕ × SecurityRow → ℕ × SecurityRow → Bool) (x : ℕ × SecurityRow) (xs : Securities)
    → contains x.0 (keys xs) ≡ false
    → Distinct (keys xs)
    → Distinct (keys (insert_by le x xs))
unfolding insert_by contains
insert_by-Distinct le x [] new distinct = (refl, tt)
insert_by-Distinct le x (y ∷ ys) new distinct = elim (Bool-cases (le x y)) [
  | inl first ↦ rw (insert_by, first) (new, distinct)
  | inr later ↦
      rw (insert_by, later)
        (
          contains-insert_by le y.0 x ys
              ∙ ground (arith, new, distinct.0, nat_key.test_iff x.0 y.0, nat_key.test_iff y.0 x.0),
          insert_by-Distinct le x ys (ground (arith, new)) distinct.1,
        )
]

sort_by-Distinct :
    (le : ℕ × SecurityRow → ℕ × SecurityRow → Bool) (xs : Securities)
    → Distinct (keys xs)
    → Distinct (keys (sort_by le xs))
unfolding sort_by
sort_by-Distinct le [] distinct = tt
sort_by-Distinct le (x ∷ xs) distinct =
    insert_by-Distinct le x (sort_by le xs) (contains-sort_by le x.0 xs ∙ distinct.0)
      (sort_by-Distinct le xs distinct.1)

ticker-new :
    (securities : Securities) (m : ℕ × SecurityRow) (ms : Securities)
    → Distinct (tickers securities)
    → lookup m.0 securities ≡ some m.1
    → All (λ x. lookup x.0 securities ≡ some x.1) ms
    → contains m.0 (keys ms) ≡ false
    → contains m.1.ticker (tickers ms) ≡ false
unfolding contains
ticker-new securities m [] distinct here there new = refl
ticker-new securities m (x ∷ ms) distinct here there new = ground (
  arith,
  ticker-new securities m ms distinct here there.1,
  same_security x.0 m.0 x.1 m.1 securities distinct there.0 here,
  text_key.test_iff x.1.ticker m.1.ticker,
  nat_key.test_iff x.0 m.0,
  new,
)

-- listed securities with different ids have different tickers
pub tickers-Distinct :
    (securities ms : Securities)
    → Distinct (tickers securities)
    → All (λ x. lookup x.0 securities ≡ some x.1) ms
    → Distinct (keys ms)
    → Distinct (tickers ms)
tickers-Distinct securities [] distinct there ids = tt
tickers-Distinct securities (m ∷ ms) distinct there ids = (
  ticker-new securities m ms distinct there.0 there.1 ids.0,
  tickers-Distinct securities ms distinct there.1 ids.1,
)

module _ (le : ℕ × SecurityRow → ℕ × SecurityRow → Bool) (securities : Securities) (w : ℕ)
    (items : Items) where
  pub sorted-All :
      All (λ m. lookup m.0 securities ≡ some m.1) (sort_by le (joined securities w items))
  sorted-All =
      All-sort_by le (λ m. lookup m.0 securities ≡ some m.1) (joined securities w items)
        (joined-All securities w items)

  pub sorted-Distinct : IsKeyed items → Distinct (keys (sort_by le (joined securities w items)))
  sorted-Distinct keyed =
      sort_by-Distinct le (joined securities w items) (joined-Distinct securities w items keyed)
