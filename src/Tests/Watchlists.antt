-- ===== src/Tests/Watchlists.antt =====
-- Two users and their lists.
use ticker_watch_case_study.Base.{
  ℕ, ◌≡◌, refl, not, none, some, All, Distinct, inl, inr, ◌&&◌, ◌||◌, [], ◌∷◌, contains, list_beq,
  map, nat_key, nat_beq, if◌then◌else◌,
}
use ticker_watch_case_study.Base.Dict.{keys, lookup, has}
use ticker_watch_case_study.Base.Sort.{IsOrdered}
use ticker_watch_case_study.Base.Text.{text}
use ticker_watch_case_study.Base.Result.{
  postgres_error, security_not_found, not_on_watchlist, ok, raised, done,
}
use ticker_watch_case_study.Settings.{redis}
use ticker_watch_case_study.Cache.{up, Document, document, Redis, price_key, get as get_key}
use ticker_watch_case_study.Securities.{Securities, by_ticker_order, get}
use ticker_watch_case_study.Accounts.{default_watchlist_id, find_default, add_default}
use ticker_watch_case_study.Prices.{LatestPrices}
use ticker_watch_case_study.Prices.Snapshot.Hits.{IsReadable}
use ticker_watch_case_study.Tests.Accounts.{alice}
use ticker_watch_case_study.Watchlists.{
  Tables, add_item, remove_item, has_item, is_item, remove, removed,
}
use ticker_watch_case_study.Watchlists.Members.{IsValid, watches}
use ticker_watch_case_study.Watchlists.Changes.{add_item_lem, remove_item_lem}
use ticker_watch_case_study.Watchlists.Kept.{requests-IsValid}
use ticker_watch_case_study.Watchlists.View.Listed.{IsKeyed}
use ticker_watch_case_study.Watchlists.View.{Watchlist, get_watchlist, pairs_of, priced_item}
use ticker_watch_case_study.Watchlists.View.Prices.{price_of, get_watchlist_lem}
use ticker_watch_case_study.Tests.Securities.{ascii, ascii_total, ascii_trans, catalog}

-- user 7 has list 1 with security 2 on it; user 8 has no list yet; user 9 has been deleted
abbrev tables : Tables
tables = record {
  users = (7, alice) ∷ (8, record alice { username = text "bob" }) ∷ [];
  securities = catalog;
  watchlists = (1, record { user_id = 7; name = text "default" }) ∷ [];
  items = (1, 2) ∷ [];
}

tables-IsValid : IsValid 2 tables
unfolding contains has lookup
tables-IsValid = record {
  ids = (refl, tt);
  fresh = refl;
  owned = (refl, tt);
  references = (refl, tt);
}

add_item-unknown : (add_item 2 8 99 tables).0 ≡ raised security_not_found
unfolding add_item get lookup
add_item-unknown = refl

remove_item-other : (remove_item 2 8 2 tables).0 ≡ raised not_on_watchlist
unfolding remove_item default_watchlist_id find_default add_default has lookup remove removed
    has_item is_item list_beq
remove_item-other = refl

-- the token of a user who has been deleted
add_item-deleted : add_item 2 9 3 tables ≡ (raised postgres_error, tables)
unfolding add_item get default_watchlist_id find_default add_default has lookup list_beq
add_item-deleted = refl

add_item_lem_example :
    ((add_item 2 8 3 tables).0 ≡ (if has 8 tables.users then ok tt else raised postgres_error))
    × (watches 7 3 (add_item 2 8 3 tables).1
        ≡ ((has 8 tables.users && (nat_beq 8 7 && nat_beq 3 3)) || watches 7 3 tables))
unfolding get lookup
add_item_lem_example = add_item_lem 2 8 3 7 3 _ tables tables-IsValid refl

remove_item_lem_example :
    ((remove_item 2 7 2 tables).0 ≡ (
      if has 7 tables.users
      then (if watches 7 2 tables then ok tt else raised not_on_watchlist)
      else raised postgres_error))
    × (watches 7 2 (remove_item 2 7 2 tables).1
        ≡ (not (nat_beq 7 7 && nat_beq 2 2) && watches 7 2 tables))
remove_item_lem_example = remove_item_lem 2 7 2 7 2 tables tables-IsValid

tables-IsKeyed : IsKeyed tables.items
unfolding has_item
tables-IsKeyed = (refl, tt)

requests-IsValid_example :
    IsValid 3 (add_item 2 8 3 tables).1
    × IsKeyed (add_item 2 8 3 tables).1.items
    × IsValid 3 (remove_item 2 8 3 tables).1
    × IsKeyed (remove_item 2 8 3 tables).1.items
unfolding contains
requests-IsValid_example = requests-IsValid 2 3 8 tables tables-IsValid refl refl 3 tables-IsKeyed

abbrev table : LatestPrices ℕ
table = (2, record { price = 11; effective_at = 5; source = text "api"; updated_at = 6 }) ∷ []

-- Redis has a price of the first security and of none else
abbrev cached_document : Document ℕ
cached_document = record {
  security_id = some 2;
  price = some 12;
  effective_at = some (text "later");
  source = none;
}

abbrev cache : Redis ℕ
cache = (text "price:F", record { value = document cached_document; expires = 60 }) ∷ []

catalog-IsReadable : All (IsReadable 10 cache) (pairs_of catalog)
unfolding pairs_of get_key lookup price_key list_beq
catalog-IsReadable =
    (inl refl, (inr (cached_document, 12, text "later", refl, refl, refl), (inl refl, tt)))

get_watchlist_lem_example :
    (v : Watchlist ℕ) × (ms : Securities) × ((get_watchlist ascii redis up 10 cache done table 0 2 7
        tables).0
      ≡ ok v)
    × (v.items ≡ map (λ m. priced_item m (price_of redis 10 cache table m)) ms)
    × IsOrdered (by_ticker_order ascii) ms
    × All (λ m. lookup m.0 catalog ≡ some m.1) ms
    × Distinct (keys ms)
    × ((k : ℕ) → contains k (keys ms) ≡ (watches 7 k tables && has k catalog))
unfolding contains has lookup list_beq
get_watchlist_lem_example =
    get_watchlist_lem redis 10 cache table ascii ascii_total ascii_trans 0 2 7 tables tables-IsValid
      refl tables-IsKeyed (refl, (refl, (refl, tt))) (refl, tt) catalog-IsReadable
