-- ===== src/Watchlists/View.antt =====
-- `WatchlistView` of src/watchlist/modules/watchlist/watchlist_handler.py: a user's watchlist with
-- current prices, for GET /watchlist.
pub mod Listed
pub mod Prices
use ticker_watch_case_study.Base.{ℕ, Option, none, some, List, [], ◌∷◌, map, nat_key}
use ticker_watch_case_study.Base.Dict.{lookup}
use ticker_watch_case_study.Base.Text.{Text}
use ticker_watch_case_study.Base.Result.{Result, ok, raised, ◌>>=◌, Fate}
use ticker_watch_case_study.Settings.{ReadSource}
use ticker_watch_case_study.Time.{Instant, to_iso}
use ticker_watch_case_study.Cache.{Redis, Link}
use ticker_watch_case_study.Securities.{SecurityRow, Securities, Locale}
use ticker_watch_case_study.Accounts.{default_watchlist_id}
use ticker_watch_case_study.Prices.{LatestPrices}
use ticker_watch_case_study.Prices.Snapshot.{Price, PriceSnapshot, read}
use ticker_watch_case_study.Watchlists.{Tables, members}

pub record WatchlistItem (F : Type 0) : Type 0 where
  pub id : ℕ
  pub ticker : Text
  pub name : Text
  pub exchange : Option Text
  pub price : Option F
  pub effective_at : Option Text
  pub source : Option Text

pub record Watchlist (F : Type 0) : Type 0 where
  pub items : List (WatchlistItem F)
  pub read_path : Text
  pub cache_hits : ℕ
  pub cache_misses : ℕ
  pub as_of : Text

-- the pairs that `_load_prices` asks for
unfoldable pub pairs_of : Securities → List (ℕ × Text)
pairs_of = map (λ m. (m.0, m.1.ticker))

module _ {F : Type 0} where
  -- a member with its price, or with none
  unfoldable pub priced_item : ℕ × SecurityRow → Option (Price F) → WatchlistItem F
  priced_item (i, row) none = record {
    id = i;
    ticker = row.ticker;
    name = row.name;
    exchange = row.exchange;
    price = none;
    effective_at = none;
    source = none;
  }
  priced_item (i, row) (some p) = record {
    id = i;
    ticker = row.ticker;
    name = row.name;
    exchange = row.exchange;
    price = some p.price;
    effective_at = some p.effective_at;
    source = some p.source;
  }

  -- `_to_item`
  unfoldable pub to_item : PriceSnapshot F → ℕ × SecurityRow → WatchlistItem F
  unfolding priced_item
  to_item snapshot member = priced_item member (lookup member.0 snapshot.prices)

  -- `build`, and the tables that `_resolve_watchlist` leaves
  unfoldable pub get_watchlist :
      Locale
      → ReadSource
      → Link
      → ℕ
      → Redis F
      → Fate
      → LatestPrices F
      → Instant
      → ℕ
      → ℕ
      → Tables
      → Result (Watchlist F) × Tables
  unfolding members pairs_of to_item
  get_watchlist locale source link clock r fate table now list_id user_id t =
      elim (default_watchlist_id list_id user_id t.users t.watchlists) [
        | raised e ↦ (raised e, t)
        | ok (watchlist_id, lists) ↦
            let found = members locale t.securities watchlist_id t.items in
            (
              do
                snapshot ← read source link clock r fate table (pairs_of found)
                ok (record {
                  items = map (to_item snapshot) found;
                  read_path = snapshot.read_path;
                  cache_hits = snapshot.cache_hits;
                  cache_misses = snapshot.cache_misses;
                  as_of = to_iso now;
                }),
              record t { watchlists = lists },
            )
      ]
