-- ===== src/Seed/Batch/Fills.antt =====
-- One batch of `seed`: the new users, a watchlist for each of them, and its rows.
use mathlib.Core.Path.{subst}
use ticker_watch_case_study.Base.{
  ℕ, zero, suc, ◌+◌, ◌<◌, ◌≡◌, refl, ap, sym, ◌∙◌, true, false, some, List, [], ◌∷◌, ◌++◌, map,
  select, contains, length, length-map, All, leb, ltb, arith, nat_key, ◌&&◌, Option-cases, inl, inr,
}
use ticker_watch_case_study.Base.Dict.{keys}
use ticker_watch_case_study.Base.Sort.{sort_by}
use ticker_watch_case_study.Base.Text.{Text, starts_with}
use ticker_watch_case_study.Base.Result.{ok}
use ticker_watch_case_study.Accounts.{UserRow, WatchlistRow, Watchlists}
use ticker_watch_case_study.Seed.{user_records, load_user, item_records}
use ticker_watch_case_study.Seed.Batch.{
  SeedTables, user_row, copy_users, new_user_ids, copy_watchlists, default_list, lists_of,
  copy_items, seed_batch, id_desc,
}
use ticker_watch_case_study.Seed.Batch.Rows.{
  numbered, copy_users_rows, copy_watchlists_rows, copy_items_rows, AreLoadUsers,
  new_user_ids-append, contains-new_ids, select-append,
}

select_old_lists :
    (next : ℕ) (ids : List ℕ) (lists : Watchlists)
    → ((i : ℕ) → i < next → contains i ids ≡ false)
    → All (λ l. l.1.user_id < next) lists
    → select (λ l. contains l.1.user_id ids) lists ≡ []
unfolding select
select_old_lists next ids [] new old = refl
select_old_lists next ids (l ∷ lists) new old =
    rw (new l.1.user_id old.0) (select_old_lists next ids lists new old.1)

select_new_lists :
    (next : ℕ) (ids us : List ℕ)
    → ((i : ℕ) → contains i us ≡ true → contains i ids ≡ true)
    → select (λ l. contains l.1.user_id ids) (numbered next (map default_list us))
      ≡ numbered next (map default_list us)
unfolding select contains
select_new_lists next ids [] sub = refl
select_new_lists next ids (u ∷ us) sub =
    let here : contains u ids ≡ true = sub u (ground (arith, nat_key.test_iff u u)) in
    rw here (
      ap (◌∷◌ (next, default_list u))
        (select_new_lists (suc next) ids us (λ i h. sub i (ground (arith, h)))))

-- the query finds just the watchlists of the batch
lists_of-append :
    (next_user next : ℕ) (ids : List ℕ) (lists : Watchlists)
    → ((i : ℕ) → i < next_user → contains i ids ≡ false)
    → All (λ l. l.1.user_id < next_user) lists
    → lists_of ids (lists ++ numbered next (map default_list ids))
      ≡ keys (numbered next (map default_list ids))
unfolding lists_of
lists_of-append next_user next ids lists new old =
    rw
      (
        select-append (λ (l : ℕ × WatchlistRow). contains l.1.user_id ids) lists
            (numbered next (map default_list ids)),
        select_old_lists next_user ids lists new old,
        select_new_lists next ids ids (λ i h. h),
      )
      refl

records-AreLoadUsers :
    (count : ℕ) (hash : Text) (offset : ℕ)
    → AreLoadUsers (map user_row (user_records count hash offset))
unfolding user_records load_user starts_with
records-AreLoadUsers zero hash offset = tt
records-AreLoadUsers (suc count) hash offset = (refl, records-AreLoadUsers count hash (suc offset))

length-user_records :
    (count : ℕ) (hash : Text) (offset : ℕ) → length (user_records count hash offset) ≡ count
unfolding user_records
length-user_records zero hash offset = refl
length-user_records (suc count) hash offset = ap suc (length-user_records count hash (suc offset))

module _ {G : Type 0} (choices : ℕ → G → List ℕ × G) (hash : Text)
    (batch offset next_user next_list : ℕ) (rng : G) (t after : SeedTables) where
  abbrev rows : List UserRow
  rows = map user_row (user_records batch hash offset)

  -- what the three COPYs of a batch that succeeds leave
  committed :
      seed_batch choices hash batch offset next_user next_list rng t ≡ (ok tt, after)
      → (copy_users next_user rows t.users ≡ some after.users)
        × (copy_watchlists next_list (new_user_ids batch after.users) t.watchlists
            ≡ some after.watchlists)
        × (copy_items
              (item_records choices
                (lists_of (new_user_ids batch after.users) after.watchlists)
                rng)
              t.items
            ≡ some after.items)
  unfolding seed_batch
  committed h = elim (Option-cases (copy_users next_user rows t.users)) [
    | inl gone ↦ absurd (ground (arith, h, gone))
    | inr (users, a) ↦
        elim (Option-cases (copy_watchlists next_list (new_user_ids batch users) t.watchlists)) [
          | inl gone ↦ absurd (ground (arith, h, a, gone))
          | inr (lists, b) ↦
              elim (Option-cases (
                copy_items (item_records choices (lists_of (new_user_ids batch users) lists) rng)
                  t.items)) [
                    | inl gone ↦ absurd (ground (arith, h, a, b, gone))
                    | inr (items, c) ↦
                        let e : record { users = users; watchlists = lists; items = items }
                            ≡ after =
                          ground (arith, h, a, b, c) in
                        subst
                          (λ (x : SeedTables).
                            (copy_users next_user rows t.users ≡ some x.users)
                            × (copy_watchlists next_list (new_user_ids batch x.users) t.watchlists
                                ≡ some x.watchlists)
                            × (copy_items
                                  (item_records choices
                                    (lists_of (new_user_ids batch x.users) x.watchlists) rng)
                                  t.items
                                ≡ some x.items))
                          e (a, b, c)
                  ]
        ]
  ]

  -- A batch that is committed adds its users under the next ids of the sequence, one watchlist named
  -- default for each of these users and for nobody else, and the drawn rows for just these watchlists.
  -- Before it every id of a user, and every user that a watchlist refers to, is below the sequence's
  -- next value.
  pub seed_batch_fills :
      seed_batch choices hash batch offset next_user next_list rng t ≡ (ok tt, after)
      → All (λ u. u.0 < next_user) t.users
      → All (λ l. l.1.user_id < next_user) t.watchlists
      → (ids : List ℕ) × ((i : ℕ) → contains i ids ≡ (leb next_user i && ltb i (next_user + batch)))
        × (after.users ≡ t.users ++ numbered next_user rows)
        × (after.watchlists ≡ t.watchlists ++ numbered next_list (map default_list ids))
        × (after.items
            ≡ t.items
              ++ item_records choices (keys (numbered next_list (map default_list ids))) rng)
  seed_batch_fills h old_users old_lists =
      let (a, b, c) = committed h in
      let size : length rows ≡ batch =
        length-map user_row (user_records batch hash offset)
        ∙ length-user_records batch hash offset in
      let ids = map (λ u. u.0) (sort_by id_desc (numbered next_user rows)) in
      let users = copy_users_rows next_user rows t.users after.users a in
      let found : new_user_ids batch after.users ≡ ids =
        ap (new_user_ids batch) users
        ∙ ap (λ n. new_user_ids n (t.users ++ numbered next_user rows)) (sym size)
        ∙ new_user_ids-append next_user rows t.users old_users
            (records-AreLoadUsers batch hash offset) in
      let range : (i : ℕ) → contains i ids ≡ (leb next_user i && ltb i (next_user + batch)) = λ i.
        contains-new_ids i next_user rows
        ∙ ap (λ n. leb next_user i && ltb i (next_user + n)) size in
      let lists =
        copy_watchlists_rows next_list ids t.watchlists after.watchlists (
          subst (λ us. copy_watchlists next_list us t.watchlists ≡ some after.watchlists) found
            b) in
      let mine : lists_of ids after.watchlists ≡ keys (numbered next_list (map default_list ids)) =
        rw lists (
          lists_of-append next_user next_list ids t.watchlists
            (λ i older. ground (arith, range i, older)) old_lists) in
      (
        ids,
        range,
        users,
        lists,
        copy_items_rows _ t.items after.items c
            ∙ ap (λ ls. t.items ++ item_records choices ls rng)
                (ap (λ us. lists_of us after.watchlists) found ∙ mine),
      )
