-- ===== src/Prices/Snapshot.antt =====
-- `SnapshotReader` of src/watchlist/modules/prices/prices_handler.py: Redis first, `latest_prices`
-- behind it.
pub mod Fallback
pub mod Hits
pub mod Cached
use ticker_watch_case_study.Base.{
  ℕ, Bool, true, false, not, Option, none, some, List, [], ◌∷◌, length, select, map, nat_key,
  Option-cases, if◌then◌else◌,
}
use ticker_watch_case_study.Base.Dict.{Dict, keys, lookup, insert, has}
use ticker_watch_case_study.Base.Text.{Text, text, text_key}
use ticker_watch_case_study.Base.Result.{
  Error, redis_error, os_error, key_error, Result, ok, raised, ◌>>=◌, Fate, answer,
}
use ticker_watch_case_study.Settings.{Settings, ReadSource, redis, postgres}
use ticker_watch_case_study.Time.{to_iso}
use ticker_watch_case_study.Cache.{Document, Redis, Link, get_prices}
use ticker_watch_case_study.Prices.{PriceRow, LatestPrices, get_many}

pub record Price (F : Type 0) : Type 0 where
  pub security_id : ℕ
  pub price : F
  pub effective_at : Text
  pub source : Text

pub record PriceSnapshot (F : Type 0) : Type 0 where
  pub prices : Dict ℕ (Price F)
  pub cache_hits : ℕ
  pub cache_misses : ℕ
  pub read_path : Text

-- what one instance carries between its steps
pub record Reader (F : Type 0) : Type 0 where
  pub found : Dict ℕ (Price F)
  pub cache_hits : ℕ
  pub read_path : Text

unfoldable pub path_text : ReadSource → Text
path_text redis = text "redis"
path_text postgres = text "postgres"

abbrev pub unavailable : Text
unavailable = text "postgres (redis unavailable)"

-- `except (redis.exceptions.RedisError, OSError)`
unfoldable pub is_outage : Error → Bool
is_outage redis_error = true
is_outage os_error = true
is_outage _ = false

-- `d[k]`
unfoldable pub require {ℓ} : {A : Type ℓ} → Option A → Result A
require none = raised key_error
require (some a) = ok a

-- `{ticker: sid for sid, ticker in securities}`
unfoldable pub by_ticker : List (ℕ × Text) → Dict Text ℕ → Dict Text ℕ
by_ticker [] d = d
by_ticker ((sid, ticker) ∷ pairs) d = by_ticker pairs (insert ticker sid d)

-- `payload.get("source", "unknown")`
unfoldable pub source_of : Option Text → Text
source_of none = text "unknown"
source_of (some s) = s

module _ {F : Type 0} where
  unfoldable pub cached_price : ℕ → Document F → Result (Price F)
  unfolding require source_of
  cached_price sid d = do
    price ← require d.price
    effective_at ← require d.effective_at
    ok (record {
      security_id = sid;
      price = price;
      effective_at = effective_at;
      source = source_of d.source;
    })

  -- the loop over `cached.items()`
  unfoldable pub collect :
      Dict Text ℕ → Dict Text (Document F) → Dict ℕ (Price F) → Result (Dict ℕ (Price F))
  unfolding cached_price
  collect ids [] found = ok found
  collect ids ((ticker, d) ∷ cached) found = do
    sid ← require (lookup ticker ids)
    p ← cached_price sid d
    collect ids cached (insert sid p found)

  unfoldable pub from_cache : Link → ℕ → Redis F → List (ℕ × Text) → Reader F → Result (Reader F)
  unfolding is_outage
  from_cache link clock r pairs self =
      let ids = by_ticker pairs [] in
      elim (get_prices link clock (keys ids) r) [
        | ok cached ↦ do
          found ← collect ids cached self.found
          ok (record self { found = found; cache_hits = length found })
        | raised e ↦ if is_outage e then ok (record self { read_path = unavailable }) else raised e
      ]

  unfoldable pub row_price : ℕ → PriceRow F → Price F
  row_price sid row = record {
    security_id = sid;
    price = row.price;
    effective_at = to_iso row.effective_at;
    source = row.source;
  }

  unfoldable pub add_rows : LatestPrices F → Dict ℕ (Price F) → Dict ℕ (Price F)
  add_rows [] found = found
  add_rows ((sid, row) ∷ rows) found = add_rows rows (insert sid (row_price sid row) found)

  -- the securities that are not found yet
  unfoldable pub missing_ids : Dict ℕ (Price F) → List (ℕ × Text) → List ℕ
  missing_ids found [] = []
  missing_ids found ((sid, ticker) ∷ pairs) =
      let rest = missing_ids found pairs in if has sid found then rest else sid ∷ rest

  unfoldable pub from_database :
      Fate → LatestPrices F → List ℕ → Dict ℕ (Price F) → Result (Dict ℕ (Price F))
  from_database fate table [] found = ok found
  from_database fate table (sid ∷ ids) found = do
    rows ← answer fate (get_many (sid ∷ ids) table)
    ok (add_rows rows found)

  -- the `if` on the setting
  unfoldable pub first_step :
      ReadSource → Link → ℕ → Redis F → List (ℕ × Text) → Reader F → Result (Reader F)
  first_step redis link clock r pairs self = from_cache link clock r pairs self
  first_step postgres link clock r pairs self = ok self

  unfoldable pub finish :
      Fate → LatestPrices F → List (ℕ × Text) → Reader F → Result (PriceSnapshot F)
  finish fate table pairs self = do
    let missing = missing_ids self.found pairs
    found ← from_database fate table missing self.found
    ok (record {
      prices = found;
      cache_hits = self.cache_hits;
      cache_misses = length missing;
      read_path = self.read_path;
    })

  -- `__init__`
  unfoldable pub new_reader : ReadSource → Reader F
  new_reader source = record { found = []; cache_hits = 0; read_path = path_text source }

  -- `SnapshotReader(conn).read(securities)`
  unfoldable pub read :
      ReadSource
      → Link
      → ℕ
      → Redis F
      → Fate
      → LatestPrices F
      → List (ℕ × Text)
      → Result (PriceSnapshot F)
  read source link clock r fate table [] =
      ok (record { prices = []; cache_hits = 0; cache_misses = 0; read_path = path_text source })
  read source link clock r fate table (p ∷ pairs) = do
    self ← first_step source link clock r (p ∷ pairs) (new_reader source)
    finish fate table (p ∷ pairs) self
