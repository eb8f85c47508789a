-- ===== src/Watchlists/Rows.antt =====
-- What the statements do to the rows of the two tables.
use ticker_watch_case_study.Base.{
  ℕ, ◌≡◌, refl, list_beq, true, false, not, ◌&&◌, ◌||◌, none, some, [], ◌∷◌, ◌++◌, arith, All,
  Distinct, contains, select, nat_key, ◌==◌, if◌then◌else◌, Bool-cases, inl, inr,
}
use ticker_watch_case_study.Base.Dict.{keys, lookup, lookup_absent}
use ticker_watch_case_study.Base.Text.{text, text_key}
use ticker_watch_case_study.Accounts.{WatchlistRow, Watchlists, find_default}
use ticker_watch_case_study.Watchlists.{Items, is_item, has_item, add, remove}

pub has_item-append :
    (w s w' s' : ℕ) (items : Items)
    → has_item w' s' (items ++ (w, s) ∷ []) ≡ (is_item w' s' (w, s) || has_item w' s' items)
unfolding has_item is_item
has_item-append w s w' s' [] = refl
has_item-append w s w' s' ((v, r) ∷ items) = ground (arith, has_item-append w s w' s' items)

pub has_item-item :
    (w s w' s' : ℕ) (items : Items)
    → has_item w s items ≡ true
    → is_item w' s' (w, s) ≡ true
    → has_item w' s' items ≡ true
unfolding is_item
has_item-item w s w' s' items h same = ground (arith, nat_key.test_iff w w', nat_key.test_iff s s')

pub has_item-add :
    (w s w' s' : ℕ) (items : Items)
    → has_item w' s' (add w s items).1 ≡ (is_item w' s' (w, s) || has_item w' s' items)
unfolding add has_item is_item
has_item-add w s w' s' items = elim (Bool-cases (has_item w s items)) [
  | inl old ↦ rw (add, old) (ground (arith, has_item-item w s w' s' items old))
  | inr new ↦ rw (add, new) (has_item-append w s w' s' items)
]

pub has_item-remove :
    (w s w' s' : ℕ) (items : Items)
    → has_item w' s' (remove w s items).1 ≡ (not (is_item w' s' (w, s)) && has_item w' s' items)
unfolding remove has_item is_item select
has_item-remove w s w' s' [] = ground arith
has_item-remove w s w' s' ((v, r) ∷ items) = ground (arith, has_item-remove w s w' s' items)

-- a user's default watchlist is a row of that user
pub find_default-row :
    (user_id id : ℕ) (lists : Watchlists)
    → Distinct (keys lists)
    → find_default user_id lists ≡ some id
    → (row : WatchlistRow) × (lookup id lists ≡ some row) × (row.user_id ≡ user_id)
unfolding find_default lookup
find_default-row user_id id [] h found = cc
find_default-row user_id id ((i, row) ∷ lists) h found =
    elim (Bool-cases (row.user_id == user_id && row.name == text "default")) [
      | inl here ↦
          let e : some i ≡ some id = rw (find_default, here) at found in
          (row, ground (arith, e), ground arith)
      | inr there ↦
          let e : find_default user_id lists ≡ some id = rw (find_default, there) at found in
          let (other, at, owner) = find_default-row user_id id lists h.1 e in
          (other, ground (arith, at, lookup_absent i lists h.0, nat_key.test_iff i id), owner)
    ]

-- two users with the same default watchlist are one
pub find_default-owner :
    (u v id : ℕ) (lists : Watchlists)
    → Distinct (keys lists)
    → find_default u lists ≡ some id
    → find_default v lists ≡ some id
    → u ≡ v
find_default-owner u v id lists h p q =
    let (a, at, owner) = find_default-row u id lists h p in
    let (b, bt, other) = find_default-row v id lists h q in ground (arith, at, owner, bt, other)

pub find_default-known :
    (u id : ℕ) (lists : Watchlists)
    → find_default u lists ≡ some id
    → contains id (keys lists) ≡ true
unfolding find_default contains
find_default-known u id [] h = cc
find_default-known u id ((i, row) ∷ lists) h = ground (arith, find_default-known u id lists)

pub find_default-append :
    (u v id : ℕ) (lists : Watchlists)
    → find_default v (lists ++ (id, record { user_id = u; name = text "default" }) ∷ [])
      ≡ (elim (find_default v lists) [ some i ↦ some i | none ↦ if u == v then some id else none ])
unfolding find_default list_beq
find_default-append u v id [] = ground arith
find_default-append u v id ((i, row) ∷ lists) = ground (arith, find_default-append u v id lists)

-- no item belongs to a watchlist that is not there
pub has_item-unowned :
    (w s : ℕ) (lists : Watchlists) (items : Items)
    → contains w (keys lists) ≡ false
    → All (λ i. contains i.0 (keys lists) ≡ true) items
    → has_item w s items ≡ false
unfolding has_item is_item
has_item-unowned w s lists [] h owned = refl
has_item-unowned w s lists ((v, r) ∷ items) h owned =
    ground (arith, has_item-unowned w s lists items h owned.1, owned.0, nat_key.test_iff v w)
