-- ===== src/Watchlists/Members.antt =====
-- Membership as a set: who watches what, and the list that a request works on.
use ticker_watch_case_study.Base.{
  ℕ, ◌≡◌, refl, Bool, true, false, none, some, [], ◌∷◌, ◌++◌, arith, All, Distinct, contains,
  nat_key, ◌==◌, if◌then◌else◌, Option-cases, Bool-cases, inl, inr,
}
use ticker_watch_case_study.Base.Dict.{Dict, keys, has}
use ticker_watch_case_study.Base.Text.{text, text_key}
use ticker_watch_case_study.Base.Result.{postgres_error, ok, raised}
use ticker_watch_case_study.Accounts.{
  UserRow, Watchlists, find_default, add_default, default_watchlist_id,
}
use ticker_watch_case_study.Watchlists.{has_item, Tables}
use ticker_watch_case_study.Watchlists.Rows.{
  find_default-owner, find_default-known, find_default-append, has_item-unowned,
}

-- what the handlers promise: the set of securities of each user
unfoldable pub watches : ℕ → ℕ → Tables → Bool
unfolding find_default has_item
watches user_id security_id t = elim (find_default user_id t.watchlists) [
  | none ↦ false
  | some watchlist_id ↦ has_item watchlist_id security_id t.items
]

-- Ids are unique, `list_id` has not been handed out, and the foreign keys hold: an item belongs to a
-- watchlist, and a watchlist to a user.
pub record IsValid (list_id : ℕ) (t : Tables) : Type 0 where
  pub ids : Distinct (keys t.watchlists)
  pub fresh : contains list_id (keys t.watchlists) ≡ false
  pub owned : All (λ i. contains i.0 (keys t.watchlists) ≡ true) t.items
  pub references : All (λ l. has l.1.user_id t.users ≡ true) t.watchlists

-- a user who is not there has no list
find_default-missing :
    (u : ℕ) (users : Dict ℕ UserRow) (lists : Watchlists)
    → has u users ≡ false
    → All (λ l. has l.1.user_id users ≡ true) lists
    → find_default u lists ≡ none
unfolding find_default
find_default-missing u users [] missing refs = refl
find_default-missing u users ((id, row) ∷ lists) missing refs = ground (
  arith,
  refs.0,
  missing,
  find_default-missing u users lists missing refs.1,
  nat_key.test_iff row.user_id u,
)

module _ (list_id u : ℕ) (lists : Watchlists) where
  -- the list that a request of `u` works on, and the lists that it leaves
  abbrev pub own_list : ℕ
  own_list = elim (find_default u lists) [ some i ↦ i | none ↦ list_id ]

  abbrev pub lists_after : Watchlists
  lists_after = elim (find_default u lists) [
    | some i ↦ lists
    | none ↦ lists ++ (list_id, record { user_id = u; name = text "default" }) ∷ []
  ]

  pub default_watchlist_id-known :
      (users : Dict ℕ UserRow)
      → has u users ≡ true
      → default_watchlist_id list_id u users lists ≡ ok (own_list, lists_after)
  unfolding default_watchlist_id add_default
  default_watchlist_id-known users known = elim (Option-cases (find_default u lists)) [
    | inl new ↦ ground (arith, new, known)
    | inr (i, old) ↦ ground (arith, old)
  ]

  find_default-after :
      (v : ℕ)
      → find_default v lists_after ≡ (if u == v then some own_list else find_default v lists)
  find_default-after v = ground (arith, find_default-append u v list_id lists, nat_key.test_iff u v)

  other_list :
      (v i : ℕ)
      → Distinct (keys lists)
      → contains list_id (keys lists) ≡ false
      → (u == v) ≡ false
      → find_default v lists ≡ some i
      → (i == own_list) ≡ false
  other_list v i ids fresh other found = elim (Option-cases (find_default u lists)) [
    | inl new ↦ ground (arith, new, find_default-known v i lists found, nat_key.test_iff i list_id)
    | inr (w, old) ↦ ground (
      arith,
      old,
      find_default-owner u v w lists ids old,
      nat_key.test_iff i w,
      nat_key.test_iff u v,
    )
  ]

  pub own_items :
      (s : ℕ) (t : Tables)
      → t.watchlists ≡ lists
      → contains list_id (keys lists) ≡ false
      → All (λ i. contains i.0 (keys lists) ≡ true) t.items
      → has_item own_list s t.items ≡ watches u s t
  unfolding watches
  own_items s t same fresh owned =
      ground (arith, same, has_item-unowned list_id s lists t.items fresh owned)

-- A request that works on the own list of `u` changes what `u` watches, and what nobody else does.
pub watches-update :
    (list_id u v s : ℕ) (t t' : Tables) (now : Bool)
    → IsValid list_id t
    → t'.watchlists ≡ lists_after list_id u t.watchlists
    → has_item (own_list list_id u t.watchlists) s t'.items ≡ now
    → ((i : ℕ)
        → (i == own_list list_id u t.watchlists) ≡ false
        → has_item i s t'.items ≡ has_item i s t.items)
    → watches v s t' ≡ (if u == v then now else watches v s t)
unfolding watches
watches-update list_id u v s t t' now h lists own others = elim (Bool-cases (u == v)) [
  | inl mine ↦ ground (arith, mine, lists, find_default-after list_id u t.watchlists v, own)
  | inr other ↦ elim (Option-cases (find_default v t.watchlists)) [
    | inl new ↦ ground (arith, other, lists, find_default-after list_id u t.watchlists v, new)
    | inr (i, found) ↦
        let apart = other_list list_id u t.watchlists v i h.ids h.fresh other found in
        ground
          (arith, other, lists, find_default-after list_id u t.watchlists v, found, others i apart)
  ]
]

-- the exception of a user who is not there
pub default_watchlist_id-missing :
    (list_id u : ℕ) (t : Tables)
    → IsValid list_id t
    → has u t.users ≡ false
    → (find_default u t.watchlists ≡ none)
      × (default_watchlist_id list_id u t.users t.watchlists ≡ raised postgres_error)
unfolding default_watchlist_id add_default
default_watchlist_id-missing list_id u t h missing =
    let none_found = find_default-missing u t.users t.watchlists missing h.references in
    (none_found, rw (default_watchlist_id, none_found, add_default, none_found, missing) refl)

pub watches-missing :
    (list_id u s : ℕ) (t : Tables)
    → IsValid list_id t
    → has u t.users ≡ false
    → watches u s t ≡ false
unfolding watches
watches-missing list_id u s t h missing =
    rw (watches, (default_watchlist_id-missing list_id u t h missing).0) refl
