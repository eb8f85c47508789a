-- ===== src/Seed/Batch.antt =====
-- tools/seed/seed_users.py: the transaction of one batch in the loop of `seed`. The rows that COPY
-- brings are checked against the unique indexes one after the other; a duplicate undoes the whole.
pub mod Rows
pub mod Fills
use ticker_watch_case_study.Base.{
  ℕ, suc, Bool, Option, none, some, List, [], ◌∷◌, ◌++◌, map, take, select, contains, leb, nat_key,
  if◌then◌else◌,
}
use ticker_watch_case_study.Base.Dict.{Dict}
use ticker_watch_case_study.Base.Sort.{sort_by}
use ticker_watch_case_study.Base.Text.{Text, text, starts_with}
use ticker_watch_case_study.Base.Result.{Result, ok, raised, postgres_error, Outcome}
use ticker_watch_case_study.Accounts.{
  UserRow, WatchlistRow, Watchlists, get_by_username, find_default,
}
use ticker_watch_case_study.Watchlists.{Items, has_item}
use ticker_watch_case_study.Seed.{UserRecord, user_records, item_records}

pub record SeedTables : Type 0 where
  pub users : Dict ℕ UserRow
  pub watchlists : Watchlists
  pub items : Items

abbrev pub user_row : UserRecord → UserRow
user_row r = record {
  username = r.username;
  email = some r.email;
  first_name = r.first_name;
  last_name = r.last_name;
  password_hash = r.password_hash;
}

-- COPY into `users`; `next` is the sequence's next value
unfoldable pub copy_users : ℕ → List UserRow → Dict ℕ UserRow → Option (Dict ℕ UserRow)
unfolding get_by_username
copy_users next [] users = some users
copy_users next (row ∷ rows) users = elim (get_by_username row.username users) [
  | some taken ↦ none
  | none ↦ copy_users (suc next) rows (users ++ (next, row) ∷ [])
]

-- `LIKE 'load\_user\_%'`
unfoldable pub is_load_user : ℕ × UserRow → Bool
unfolding starts_with
is_load_user u = starts_with (text "load_user_") u.1.username

-- `ORDER BY id DESC`
abbrev pub id_desc : ℕ × UserRow → ℕ × UserRow → Bool
id_desc a b = leb b.0 a.0

-- `new_user_ids`
unfoldable pub new_user_ids : ℕ → Dict ℕ UserRow → List ℕ
unfolding is_load_user sort_by select
new_user_ids batch users = map (λ u. u.0) (take batch (sort_by id_desc (select is_load_user users)))

abbrev pub default_list : ℕ → WatchlistRow
default_list user_id = record { user_id = user_id; name = text "default" }

-- COPY into `watchlists`
unfoldable pub copy_watchlists : ℕ → List ℕ → Watchlists → Option Watchlists
unfolding find_default
copy_watchlists next [] lists = some lists
copy_watchlists next (user_id ∷ ids) lists = elim (find_default user_id lists) [
  | some taken ↦ none
  | none ↦ copy_watchlists (suc next) ids (lists ++ (next, default_list user_id) ∷ [])
]

-- `SELECT id FROM watchlists WHERE user_id = ANY($1)`
unfoldable pub lists_of : List ℕ → Watchlists → List ℕ
unfolding contains select
lists_of ids lists = map (λ l. l.0) (select (λ l. contains l.1.user_id ids) lists)

-- COPY into `watchlist_items`
unfoldable pub copy_items : Items → Items → Option Items
unfolding has_item
copy_items [] items = some items
copy_items (i ∷ rows) items =
    let rest = copy_items rows (items ++ i ∷ []) in if has_item i.0 i.1 items then none else rest

-- the transaction; `next_user` and `next_list` are the next values of the two sequences
unfoldable pub seed_batch :
    {G : Type 0}
    → (ℕ → G → List ℕ × G)
    → Text
    → ℕ
    → ℕ
    → ℕ
    → ℕ
    → G
    → SeedTables
    → Outcome × SeedTables
unfolding copy_users new_user_ids copy_watchlists lists_of copy_items user_records item_records
seed_batch choices hash batch offset next_user next_list rng t =
    elim (copy_users next_user (map user_row (user_records batch hash offset)) t.users) [
      | none ↦ (raised postgres_error, t)
      | some users ↦
          let ids = new_user_ids batch users in
          elim (copy_watchlists next_list ids t.watchlists) [
            | none ↦ (raised postgres_error, t)
            | some lists ↦
                elim (copy_items (item_records choices (lists_of ids lists) rng) t.items) [
                  | none ↦ (raised postgres_error, t)
                  | some items ↦
                      (ok tt, record { users = users; watchlists = lists; items = items })
                ]
          ]
    ]
