-- ===== src/Watchlists.antt =====
-- src/watchlist/modules/watchlist: membership (watchlist_controller.py) and the handlers on it
-- (watchlist_handler.py). The default watchlist of a user is that of auth_controller.py.
pub mod Rows
pub mod Members
pub mod Changes
pub mod Keys
pub mod Kept
pub mod View
use ticker_watch_case_study.Base.{
  ℕ, Bool, true, false, not, ◌&&◌, ◌||◌, Option, none, some, List, [], ◌∷◌, ◌++◌, select, nat_key,
  ◌==◌, if◌then◌else◌,
}
use ticker_watch_case_study.Base.Dict.{Dict, lookup}
use ticker_watch_case_study.Base.Sort.{sort_by}
use ticker_watch_case_study.Base.Text.{Text}
use ticker_watch_case_study.Base.Result.{
  Error, security_not_found, not_on_watchlist, Result, ok, raised, Outcome,
}
use ticker_watch_case_study.Securities.{SecurityRow, Securities, Locale, get, by_ticker_order}
use ticker_watch_case_study.Accounts.{UserRow, Watchlists, default_watchlist_id}

-- a row of `watchlist_items`: (watchlist_id, security_id), which is its key
abbrev pub Items : Type 0
Items = List (ℕ × ℕ)

unfoldable pub is_item : ℕ → ℕ → ℕ × ℕ → Bool
is_item watchlist_id security_id (w, s) = w == watchlist_id && s == security_id

unfoldable pub has_item : ℕ → ℕ → Items → Bool
unfolding is_item
has_item watchlist_id security_id [] = false
has_item watchlist_id security_id (i ∷ items) =
    is_item watchlist_id security_id i || has_item watchlist_id security_id items

-- the join of `members`, one item after the other
unfoldable pub joined : Securities → ℕ → Items → Securities
joined securities watchlist_id [] = []
joined securities watchlist_id ((w, s) ∷ items) =
    let rest = joined securities watchlist_id items in
    if w == watchlist_id
    then (elim (lookup s securities) [ none ↦ rest | some row ↦ (s, row) ∷ rest ])
    else rest

unfoldable pub members : Locale → Securities → ℕ → Items → Securities
unfolding joined by_ticker_order
members locale securities watchlist_id items =
    sort_by (by_ticker_order locale) (joined securities watchlist_id items)

-- `ON CONFLICT DO NOTHING`: whether the row was inserted, and the table
unfoldable pub add : ℕ → ℕ → Items → Bool × Items
unfolding has_item
add watchlist_id security_id items =
    if has_item watchlist_id security_id items
    then (false, items)
    else (true, items ++ (watchlist_id, security_id) ∷ [])

-- whether a row was deleted, and the table
unfoldable pub remove : ℕ → ℕ → Items → Bool × Items
unfolding has_item is_item
remove watchlist_id security_id items = (
  has_item watchlist_id security_id items,
  select (λ i. not (is_item watchlist_id security_id i)) items,
)

-- the tables that a request on a watchlist reads and changes
pub record Tables : Type 0 where
  pub users : Dict ℕ UserRow
  pub securities : Securities
  pub watchlists : Watchlists
  pub items : Items

-- `list_id` is the next id of a watchlist
unfoldable pub add_item : ℕ → ℕ → ℕ → Tables → Outcome × Tables
unfolding get default_watchlist_id add
add_item list_id user_id security_id t = elim (get security_id t.securities) [
  | none ↦ (raised security_not_found, t)
  | some row ↦ elim (default_watchlist_id list_id user_id t.users t.watchlists) [
    | raised e ↦ (raised e, t)
    | ok (watchlist_id, lists) ↦
        (ok tt, record t { watchlists = lists; items = (add watchlist_id security_id t.items).1 })
  ]
]

-- the handler's answer to whether a row was deleted
unfoldable pub removed : Bool → Outcome
removed true = ok tt
removed false = raised not_on_watchlist

unfoldable pub remove_item : ℕ → ℕ → ℕ → Tables → Outcome × Tables
unfolding default_watchlist_id remove removed
remove_item list_id user_id security_id t =
    elim (default_watchlist_id list_id user_id t.users t.watchlists) [
      | raised e ↦ (raised e, t)
      | ok (watchlist_id, lists) ↦
          let (deleted, items) = remove watchlist_id security_id t.items in
          (removed deleted, record t { watchlists = lists; items = items })
    ]
