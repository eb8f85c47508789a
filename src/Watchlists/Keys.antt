-- ===== src/Watchlists/Keys.antt =====
-- The keys of the two tables of watchlists, statement by statement.
use ticker_watch_case_study.Base.{
  ℕ, ◌≡◌, refl, ◌∙◌, Bool, false, [], ◌∷◌, ◌++◌, List, arith, All, select, Distinct, contains,
  nat_key, Bool-cases, inl, inr,
}
use ticker_watch_case_study.Base.Dict.{keys}
use ticker_watch_case_study.Base.Dict.Build.{contains-append_one}
use ticker_watch_case_study.Base.Text.{text_key}
use ticker_watch_case_study.Accounts.{WatchlistRow, Watchlists}
use ticker_watch_case_study.Watchlists.{Items, is_item, has_item, add, remove}
use ticker_watch_case_study.Watchlists.Rows.{has_item-append, has_item-remove}
use ticker_watch_case_study.Watchlists.View.Listed.{IsKeyed}

pub append-Distinct :
    (id : ℕ) (row : WatchlistRow) (lists : Watchlists)
    → Distinct (keys lists)
    → contains id (keys lists) ≡ false
    → Distinct (keys (lists ++ (id, row) ∷ []))
unfolding contains
append-Distinct id row [] distinct new = (refl, tt)
append-Distinct id row ((j, first) ∷ lists) distinct new = (
  contains-append_one j id row lists
      ∙ ground (arith, distinct.0, new, nat_key.test_iff id j, nat_key.test_iff j id),
  append-Distinct id row lists distinct.1 (ground (arith, new)),
)

pub append-All {ℓ κ} :
    {A : Type ℓ} (P : A → Type κ) (xs : List A) (x : A) → All P xs → P x → All P (xs ++ x ∷ [])
append-All P [] x h here = (here, tt)
append-All P (y ∷ xs) x h here = (h.0, append-All P xs x h.1 here)

pub select-All {ℓ κ} :
    {A : Type ℓ} (P : A → Type κ) (keep : A → Bool) (xs : List A)
    → All P xs
    → All P (select keep xs)
unfolding select
select-All P keep [] h = tt
select-All P keep (x ∷ xs) h = elim (Bool-cases (keep x)) [
  | inl kept ↦ rw kept (h.0, select-All P keep xs h.1)
  | inr dropped ↦ rw dropped (select-All P keep xs h.1)
]

append-IsKeyed :
    (w s : ℕ) (items : Items)
    → IsKeyed items
    → has_item w s items ≡ false
    → IsKeyed (items ++ (w, s) ∷ [])
unfolding has_item is_item
append-IsKeyed w s [] keyed new = (refl, tt)
append-IsKeyed w s ((v, r) ∷ items) keyed new = (
  has_item-append w s v r items
      ∙ ground (
        arith,
        keyed.0,
        new,
        nat_key.test_iff w v,
        nat_key.test_iff v w,
        nat_key.test_iff s r,
        nat_key.test_iff r s,
      ),
  append-IsKeyed w s items keyed.1 (ground (arith, new)),
)

pub add-IsKeyed : (w s : ℕ) (items : Items) → IsKeyed items → IsKeyed (add w s items).1
unfolding add
add-IsKeyed w s items keyed = elim (Bool-cases (has_item w s items)) [
  | inl old ↦ rw (add, old) keyed
  | inr new ↦ rw (add, new) (append-IsKeyed w s items keyed new)
]

pub remove-IsKeyed : (w s : ℕ) (items : Items) → IsKeyed items → IsKeyed (remove w s items).1
unfolding remove select
remove-IsKeyed w s [] keyed = tt
remove-IsKeyed w s ((v, r) ∷ items) keyed =
    let rest = remove-IsKeyed w s items keyed.1 in
    elim (Bool-cases (is_item w s (v, r))) [
      | inl gone ↦ rw (gone) rest
      | inr kept ↦ rw (kept) (has_item-remove w s v r items ∙ ground (arith, keyed.0), rest)
    ]
