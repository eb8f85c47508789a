-- ===== src/Watchlists/Kept.antt =====
-- The keys and references of the tables that a request on a watchlist changes.
use ticker_watch_case_study.Base.{
  ℕ, ◌≡◌, refl, ◌∙◌, true, false, not, Option, none, some, [], ◌∷◌, ◌++◌, arith, All, Distinct,
  contains, nat_key, ◌==◌, Option-cases, Bool-cases, inl, inr,
}
use ticker_watch_case_study.Base.Dict.{keys, has}
use ticker_watch_case_study.Base.Dict.Build.{contains-append_one}
use ticker_watch_case_study.Base.Text.{text, text_key}
use ticker_watch_case_study.Securities.{get}
use ticker_watch_case_study.Accounts.{WatchlistRow, Watchlists, find_default}
use ticker_watch_case_study.Watchlists.{
  Items, is_item, has_item, add, remove, Tables, add_item, remove_item,
}
use ticker_watch_case_study.Watchlists.Rows.{find_default-known}
use ticker_watch_case_study.Watchlists.Members.{
  IsValid, own_list, lists_after, default_watchlist_id-known, default_watchlist_id-missing,
}
use ticker_watch_case_study.Watchlists.View.Listed.{IsKeyed}
use ticker_watch_case_study.Watchlists.Keys.{
  append-Distinct, append-All, select-All, add-IsKeyed, remove-IsKeyed,
}

module _ (list_id next u : ℕ) (t : Tables) (valid : IsValid list_id t)
    (other : (next == list_id) ≡ false) (fresh : contains next (keys t.watchlists) ≡ false) where
  -- of the lists that a request of a known user leaves, and the list that it works on
  record Facts (after : Watchlists) (own : ℕ) : Type 0 where
    ids : Distinct (keys after)
    new : contains next (keys after) ≡ false
    references : All (λ l. has l.1.user_id t.users ≡ true) after
    more : (k : ℕ) → contains k (keys t.watchlists) ≡ true → contains k (keys after) ≡ true
    own_there : contains own (keys after) ≡ true

  abbrev row : WatchlistRow
  row = record { user_id = u; name = text "default" }

  lists-Facts :
      has u t.users ≡ true
      → Facts (lists_after list_id u t.watchlists) (own_list list_id u t.watchlists)
  lists-Facts known = go (find_default u t.watchlists) refl
    where
      go :
          (found : Option ℕ)
          → find_default u t.watchlists ≡ found
          → Facts
              (elim found [ some i ↦ t.watchlists | none ↦ t.watchlists ++ (list_id, row) ∷ [] ])
              (elim found [ some i ↦ i | none ↦ list_id ])
      go (some i) old = record {
        ids = valid.ids;
        new = fresh;
        references = valid.references;
        more = λ k here. here;
        own_there = find_default-known u i t.watchlists old;
      }
      go none first = record {
        ids = append-Distinct list_id row t.watchlists valid.ids valid.fresh;
        new =
            contains-append_one next list_id row t.watchlists
            ∙ ground
                (arith, fresh, other, nat_key.test_iff list_id next, nat_key.test_iff next list_id);
        references =
            append-All (λ l. has l.1.user_id t.users ≡ true) t.watchlists (list_id, row)
              valid.references known;
        more = λ k here. contains-append_one k list_id row t.watchlists ∙ ground (arith, here);
        own_there =
            contains-append_one list_id list_id row t.watchlists
            ∙ ground (arith, nat_key.test_iff list_id list_id);
      }

  moved_on : IsValid next t
  moved_on = record {
    ids = valid.ids;
    fresh = fresh;
    owned = valid.owned;
    references = valid.references;
  }

  owned_still :
      (items : Items)
      → has u t.users ≡ true
      → All (λ i. contains i.0 (keys t.watchlists) ≡ true) items
      → All (λ i. contains i.0 (keys (lists_after list_id u t.watchlists)) ≡ true) items
  owned_still [] known h = tt
  owned_still (i ∷ items) known h = ((lists-Facts known).more i.0 h.0, owned_still items known h.1)

  owned-add :
      (s : ℕ)
      → has u t.users ≡ true
      → All
          (λ i. contains i.0 (keys (lists_after list_id u t.watchlists)) ≡ true)
          (add (own_list list_id u t.watchlists) s t.items).1
  unfolding add
  owned-add s known =
      let still = owned_still t.items known valid.owned in
      elim (Bool-cases (has_item (own_list list_id u t.watchlists) s t.items)) [
        | inl there ↦ rw (add, there) still
        | inr absent ↦
            rw (add, absent)
              (append-All
                (λ (i : ℕ × ℕ). contains i.0 (keys (lists_after list_id u t.watchlists)) ≡ true)
                t.items (own_list list_id u t.watchlists, s) still (lists-Facts known).own_there)
      ]

  owned-remove :
      (s : ℕ)
      → has u t.users ≡ true
      → All
          (λ i. contains i.0 (keys (lists_after list_id u t.watchlists)) ≡ true)
          (remove (own_list list_id u t.watchlists) s t.items).1
  unfolding remove
  owned-remove s known =
      select-All (λ (i : ℕ × ℕ). contains i.0 (keys (lists_after list_id u t.watchlists)) ≡ true)
        (λ i. not (is_item (own_list list_id u t.watchlists) s i)) t.items
        (owned_still t.items known valid.owned)

  with_items :
      (items : Items)
      → has u t.users ≡ true
      → All (λ i. contains i.0 (keys (lists_after list_id u t.watchlists)) ≡ true) items
      → IsValid next (record t { watchlists = lists_after list_id u t.watchlists; items = items })
  with_items items known owned =
      let facts = lists-Facts known in
      record { ids = facts.ids; fresh = facts.new; owned = owned; references = facts.references }

  -- Adding and removing an item, whatever comes of them, keep well-formed tables well formed: ids are unique,
  -- no item is stored twice, every item belongs to a watchlist and every watchlist to a user. `next`
  -- is an id that neither a list has nor the request is given.
  pub requests-IsValid :
      (s : ℕ)
      → IsKeyed t.items
      → IsValid next (add_item list_id u s t).1
        × IsKeyed (add_item list_id u s t).1.items
        × IsValid next (remove_item list_id u s t).1
        × IsKeyed (remove_item list_id u s t).1.items
  unfolding add_item remove_item
  requests-IsValid s keyed = elim (Bool-cases (has u t.users)) [
    | inr missing ↦
        let (first, refused) = default_watchlist_id-missing list_id u t valid missing in
        elim (Option-cases (get s t.securities)) [
          | inl unknown ↦
              rw (add_item, unknown, remove_item, refused) (moved_on, keyed, moved_on, keyed)
          | inr (row, listed) ↦
              rw (add_item, listed, remove_item, refused) (moved_on, keyed, moved_on, keyed)
        ]
    | inl known ↦
        let found = default_watchlist_id-known list_id u t.watchlists t.users known in
        let own = own_list list_id u t.watchlists in
        let after_remove = with_items (remove own s t.items).1 known (owned-remove s known) in
        let after_add = with_items (add own s t.items).1 known (owned-add s known) in
        elim (Option-cases (get s t.securities)) [
          | inl unknown ↦
              rw (add_item, unknown, remove_item, found)
                (moved_on, keyed, after_remove, remove-IsKeyed own s t.items keyed)
          | inr (row, listed) ↦
              rw (add_item, listed, remove_item, found)
                (
                  after_add,
                  add-IsKeyed own s t.items keyed,
                  after_remove,
                  remove-IsKeyed own s t.items keyed,
                )
        ]
  ]
