-- ===== src/Tests/Seed.antt =====
-- Padding, batches and picks on small inputs.
use ticker_watch_case_study.Base.{
  ℕ, ◌≤◌, ◌≡◌, refl, some, List, [], ◌∷◌, All, Distinct, contains, count_if, length, arith,
  list_beq, nat_key, none, ◌++◌, ◌+◌, map, leb, ltb, ◌&&◌, select,
}
use ticker_watch_case_study.Base.Dict.{insert, keys}
use ticker_watch_case_study.Base.Decimal.{decimal, zero_padded, digits}
use ticker_watch_case_study.Base.Text.{text, text_key, starts_with}
use ticker_watch_case_study.Base.Result.{ok, raised, postgres_error}
use ticker_watch_case_study.Securities.{find_ticker}
use ticker_watch_case_study.Watchlists.{Items, is_item, has_item}
use ticker_watch_case_study.Seed.{
  UserRecord, synthetic_ticker, pad_catalog, user_records, user_batches, copy_batch, item_records,
  picks, items_per_user,
}
use ticker_watch_case_study.Seed.Padding.{IsFree, pad_catalog_again}
use ticker_watch_case_study.Seed.Users.{concat, usernames, user_batches_lem}
use ticker_watch_case_study.Seed.Picks.{on_list, item_records-counts}
use ticker_watch_case_study.Seed.Batch.{
  SeedTables, user_row, default_list, seed_batch, copy_users, new_user_ids, is_load_user,
  copy_watchlists, lists_of, copy_items,
}
use ticker_watch_case_study.Seed.Batch.Rows.{numbered}
use ticker_watch_case_study.Seed.Batch.Fills.{seed_batch_fills}
use ticker_watch_case_study.Accounts.{get_by_username, find_default}
use ticker_watch_case_study.Base.Sort.{sort_by, insert_by}
use ticker_watch_case_study.Tests.Securities.{catalog}

ticker_seven : synthetic_ticker 7 ≡ text "SYN00007"
unfolding synthetic_ticker zero_padded decimal digits
ticker_seven = refl

-- three rows that are no synthetic ones
catalog-IsFree : IsFree 1 catalog
unfolding find_ticker synthetic_ticker list_beq
catalog-IsFree j h = refl

pad_catalog_again_example :
    pad_catalog 20 6 (pad_catalog 10 5 catalog).1
    ≡ (raised postgres_error, (pad_catalog 10 5 catalog).1)
pad_catalog_again_example =
    pad_catalog_again 10 5 20 6 catalog catalog-IsFree (omega arith) (omega arith)

user_batches_lem_example :
    (batches : List (List UserRecord)) × (user_batches 2 (text "h") 1 0 2 ≡ some batches)
    × (concat batches ≡ user_records 2 (text "h") 1)
    × All (λ b. length b ≤ copy_batch) batches
    × Distinct (usernames (concat batches))
user_batches_lem_example = user_batches_lem (text "h") 1 3

-- a generator that draws three values, one of them twice
abbrev three : ℕ → ℕ → List ℕ × ℕ
three k rng = (rng ∷ 5 ∷ rng ∷ [], 7)

abbrev items : Items
items = (1, 3) ∷ (1, 5) ∷ (2, 7) ∷ (2, 5) ∷ []

items-drawn : item_records three (1 ∷ 2 ∷ []) 3 ≡ items
unfolding item_records picks insert
items-drawn = refl

item_records-counts_example :
    (count_if (is_item 1 3) (item_records three (1 ∷ 2 ∷ []) 3) ≤ 1)
    × (count_if (on_list 1) (item_records three (1 ∷ 2 ∷ []) 3) ≤ items_per_user)
unfolding contains
item_records-counts_example = item_records-counts three 1 3 (1 ∷ 2 ∷ []) 3 (refl, (refl, tt))

-- one user is there already, with a watchlist
abbrev seeded : SeedTables
seeded = record {
  users =
      (
        8,
        record {
          username = text "ada";
          email = none;
          first_name = [];
          last_name = [];
          password_hash = text "h";
        },
      )
      ∷ [];
  watchlists = (19, default_list 8) ∷ [];
  items = (19, 3) ∷ [];
}

abbrev filled : SeedTables
filled = record {
  users = seeded.users ++ numbered 9 (map user_row (user_records 2 (text "h") 0));
  watchlists = (19, default_list 8) ∷ (20, default_list 10) ∷ (21, default_list 9) ∷ [];
  items = (19, 3) ∷ (20, 3) ∷ (20, 5) ∷ (21, 7) ∷ (21, 5) ∷ [];
}

batch_run : seed_batch three (text "h") 2 0 9 20 3 seeded ≡ (ok tt, filled)
unfolding seed_batch copy_users new_user_ids is_load_user copy_watchlists lists_of copy_items
    user_records item_records picks insert get_by_username find_default has_item sort_by insert_by
    select contains starts_with decimal digits list_beq
batch_run = refl

seed_batch_fills_example :
    (ids : List ℕ) × ((i : ℕ) → contains i ids ≡ (leb 9 i && ltb i (9 + 2)))
    × (filled.users ≡ seeded.users ++ numbered 9 (map user_row (user_records 2 (text "h") 0)))
    × (filled.watchlists ≡ seeded.watchlists ++ numbered 20 (map default_list ids))
    × (filled.items
        ≡ seeded.items ++ item_records three (keys (numbered 20 (map default_list ids))) 3)
seed_batch_fills_example =
    seed_batch_fills three (text "h") 2 0 9 20 3 seeded filled batch_run (omega arith, tt)
      (omega arith, tt)
