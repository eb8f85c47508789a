-- ===== src/Watchlists/Changes.antt =====
-- `add_item` and `remove_item` of src/watchlist/modules/watchlist/watchlist_handler.py as changes of
-- the set that a user watches.
use ticker_watch_case_study.Base.{
  ℕ, ◌≡◌, refl, not, ◌&&◌, ◌||◌, some, arith, nat_key, ◌==◌, if◌then◌else◌, Bool-cases, inl, inr,
}
use ticker_watch_case_study.Base.Dict.{has}
use ticker_watch_case_study.Base.Result.{postgres_error, not_on_watchlist, ok, raised}
use ticker_watch_case_study.Securities.{SecurityRow, get}
use ticker_watch_case_study.Watchlists.{
  is_item, add, remove, removed, Tables, add_item, remove_item,
}
use ticker_watch_case_study.Watchlists.Rows.{has_item-add, has_item-remove}
use ticker_watch_case_study.Watchlists.Members.{
  watches, IsValid, own_list, lists_after, own_items, default_watchlist_id-known,
  default_watchlist_id-missing, watches-missing, watches-update,
}

-- In well-formed tables, to add a security that exists succeeds just if its user exists: the token of a user who has been
-- deleted ends in an exception of Postgres. On success the user watches the security; otherwise
-- everyone watches what they watched, also where the request created the user's watchlist.
pub add_item_lem :
    (list_id user_id security_id v s : ℕ) (row : SecurityRow) (t : Tables)
    → IsValid list_id t
    → get security_id t.securities ≡ some row
    → ((add_item list_id user_id security_id t).0
        ≡ (if has user_id t.users then ok tt else raised postgres_error))
      × (watches v s (add_item list_id user_id security_id t).1
          ≡ ((has user_id t.users && (user_id == v && security_id == s)) || watches v s t))
unfolding add_item
add_item_lem list_id u r v s row t h known = elim (Bool-cases (has u t.users)) [
  | inr missing ↦
      let (first, refused) = default_watchlist_id-missing list_id u t h missing in
      rw (add_item, known, refused, missing) (refl, refl)
  | inl here ↦
      let own = own_list list_id u t.watchlists in
      let items = (add own r t.items).1 in
      let after =
        watches-update list_id u v s t
          (record t { watchlists = lists_after list_id u t.watchlists; items = items })
          ((r == s) || watches u s t) h refl
          (unfold is_item in
            ground (
              arith,
              has_item-add own r own s t.items,
              own_items list_id u t.watchlists s t refl h.fresh h.owned,
              nat_key.test_iff own own,
            ))
          (λ i apart.
            unfold is_item in
            ground (arith, has_item-add own r i s t.items, apart, nat_key.test_iff i own)) in
      rw (add_item, known, default_watchlist_id-known list_id u t.watchlists t.users here, here)
        (refl, ground (arith, after, nat_key.test_iff u v))
]

-- In well-formed tables, to remove a security succeeds just if its user exists and watches it; a user who has been deleted
-- gets an exception of Postgres. On success the user does not watch it any more, and otherwise
-- everyone watches what they watched.
pub remove_item_lem :
    (list_id user_id security_id v s : ℕ) (t : Tables)
    → IsValid list_id t
    → ((remove_item list_id user_id security_id t).0 ≡ (
        if has user_id t.users
        then (if watches user_id security_id t then ok tt else raised not_on_watchlist)
        else raised postgres_error))
      × (watches v s (remove_item list_id user_id security_id t).1
          ≡ (not (user_id == v && security_id == s) && watches v s t))
unfolding remove_item removed
remove_item_lem list_id u r v s t h = elim (Bool-cases (has u t.users)) [
  | inr missing ↦
      let (first, refused) = default_watchlist_id-missing list_id u t h missing in
      rw (remove_item, refused, missing)
        (refl, ground (arith, watches-missing list_id u s t h missing, nat_key.test_iff u v))
  | inl here ↦
      let own = own_list list_id u t.watchlists in
      let items = (remove own r t.items).1 in
      let after =
        watches-update list_id u v s t
          (record t { watchlists = lists_after list_id u t.watchlists; items = items })
          (not (r == s) && watches u s t) h refl
          (unfold is_item in
            ground (
              arith,
              has_item-remove own r own s t.items,
              own_items list_id u t.watchlists s t refl h.fresh h.owned,
              nat_key.test_iff own own,
            ))
          (λ i apart.
            unfold is_item in
            ground (arith, has_item-remove own r i s t.items, apart, nat_key.test_iff i own)) in
      rw (remove_item, default_watchlist_id-known list_id u t.watchlists t.users here, here)
        (
          unfold remove in
              ground (arith, own_items list_id u t.watchlists r t refl h.fresh h.owned),
          ground (arith, after, nat_key.test_iff u v),
        )
]
