-- ===== src/Service/Startup.antt =====
-- `start` of src/watchlist/price_service/service.py, step by step: the schema, the source of the stored
-- prices, the catalog, the starting prices and the cache. But for the statements that have a fate
-- here, Postgres answers.
pub mod Warm
pub mod Listing
pub mod Kept
pub mod Restart
pub mod Ready
pub mod Traced
pub mod InStep
pub mod Lifetime
use ticker_watch_case_study.Base.{
  ℕ, ◌+◌, Bool, true, false, not, Option, none, some, List, [], ◌∷◌, map, ltb, if◌then◌else◌,
}
use ticker_watch_case_study.Base.Dict.{Dict, keys, insert, dict_of}
use ticker_watch_case_study.Base.Sort.{sort_by}
use ticker_watch_case_study.Base.Text.{Text, text_key, text_lt}
use ticker_watch_case_study.Base.Result.{
  Error, http_error, runtime_error, os_error, Result, ok, raised, Outcome, Fate,
}
use ticker_watch_case_study.Settings.{Settings, SourceName, api, simulated}
use ticker_watch_case_study.Time.{Instant, to_iso}
use ticker_watch_case_study.Cache.{Payload, Redis, Link, flush_prices, set_price_if_newer}
use ticker_watch_case_study.Securities.{SecurityRow, Securities, Locale, all_tickers, upsert_many}
use ticker_watch_case_study.Prices.{PriceRow, LatestPrices, TickerRow, all_with_tickers}
use ticker_watch_case_study.Prices.Reconcile.{
  Action, clean, wiped_simulated, adopted_api, SourceReconciliation, reconcile_source,
}
use ticker_watch_case_study.Service.{Stats, Service, World}

-- What one start meets: the answer to the vendor's catalog call, the rows of the two seed files (none
-- for a file that is not there), the next id of a security, and the connections. `links` is the
-- connection to Redis of the call for a ticker.
pub record StartEnv (F : Type 0) : Type 0 where
  pub catalog_reply : Result (Dict Text Text)
  pub seed_catalog : Option (List (Text × Text))
  pub seed_prices : Option (List (Text × F))
  pub next_id : ℕ
  pub query : Fate
  pub write : Fate
  pub postgres_now : Instant
  pub redis_clock : ℕ
  pub flush_link : Link
  pub links : Text → Link

-- `_wait_for_schema`: each reading is whether the table was there and the clock after it. None is for
-- a wait that is not over.
unfoldable pub wait_for_schema : ℕ → List (Bool × ℕ) → Option Outcome
wait_for_schema deadline [] = none
wait_for_schema deadline ((true, now) ∷ readings) = some (ok tt)
wait_for_schema deadline ((false, now) ∷ readings) =
    let later = wait_for_schema deadline readings in
    if ltb deadline now then some (raised runtime_error) else later

-- `except (httpx.HTTPError, RuntimeError, OSError)`
unfoldable pub is_catalog_failure : Error → Bool
is_catalog_failure http_error = true
is_catalog_failure runtime_error = true
is_catalog_failure os_error = true
is_catalog_failure _ = false

-- the order of `sorted(catalog.items())`, whose keys differ
item_order : Text × Text → Text × Text → Bool
item_order a b = not (text_lt b.0 a.0)

-- the rows that the vendor gives, and the calls that are counted
unfoldable pub vendor_rows : SourceName → Result (Dict Text Text) → Result (List (Text × Text) × ℕ)
unfolding is_catalog_failure item_order
vendor_rows simulated reply = ok ([], 0)
vendor_rows api (ok catalog) = ok (sort_by item_order catalog, 1)
vendor_rows api (raised e) = if is_catalog_failure e then ok ([], 0) else raised e

-- `_catalog_from_seed`, and `if not rows`
unfoldable pub or_seed : Option (List (Text × Text)) → List (Text × Text) → List (Text × Text)
or_seed seed (r ∷ rows) = r ∷ rows
or_seed none [] = []
or_seed (some seed) [] = seed

unfoldable pub include_synthetic : SourceName → Bool
include_synthetic api = false
include_synthetic simulated = true

-- `if not self._ticker_to_id`
unfoldable pub some_listed : Dict Text ℕ → Outcome
some_listed [] = raised runtime_error
some_listed (i ∷ ids) = ok tt

-- `{r["ticker"]: r["id"] for r in priced}`
unfoldable pub ids_of : Securities → Dict Text ℕ
ids_of priced = dict_of (map (λ s. (s.1.ticker, s.0)) priced) []

unfoldable pub row_payload : {F : Type 0} → TickerRow F → Payload F
row_payload r = record {
  security_id = r.security_id;
  price = r.row.price;
  effective_at = to_iso r.row.effective_at;
  source = r.row.source;
}

module _ {F S : Type 0} (locale : Locale) (settings : Settings) where
  unfoldable pub load_catalog :
      StartEnv F → List (Text × Text) × ℕ → World F S → Outcome × World F S
  unfolding or_seed some_listed ids_of include_synthetic upsert_many all_tickers
  load_catalog env (rows, calls) w =
      let securities = upsert_many env.next_id (or_seed env.seed_catalog rows) w.securities in
      let ids = ids_of (all_tickers locale (include_synthetic settings.price_source) securities) in
      let w' = record w {
        securities = securities;
        service = record w.service {
          ticker_to_id = ids;
          stats = record w.service.stats {
            upstream_calls = w.service.stats.upstream_calls + calls;
          };
        };
      } in
      (some_listed ids, w')

  unfoldable pub sync_catalog : StartEnv F → World F S → Outcome × World F S
  unfolding vendor_rows load_catalog
  sync_catalog env w = elim (vendor_rows settings.price_source env.catalog_reply) [
    | raised e ↦ (raised e, w)
    | ok found ↦ load_catalog env found w
  ]

  -- what the flush of the cache comes to
  unfoldable pub note_flush : Result ℕ × Redis F → World F S → Result Action × World F S
  note_flush (ok n, redis) w = (ok wiped_simulated, record w { redis = redis })
  note_flush (raised e, redis) w = (raised e, record w { redis = redis })

  -- the `if` on the action
  unfoldable pub flush_after : StartEnv F → Action → World F S → Result Action × World F S
  unfolding note_flush
  flush_after env clean w = (ok clean, w)
  flush_after env adopted_api w = (ok adopted_api, w)
  flush_after env wiped_simulated w =
      note_flush (flush_prices env.flush_link env.redis_clock w.redis) w

  unfoldable pub after_reconcile :
      StartEnv F → Result SourceReconciliation → World F S → Result Action × World F S
  unfolding flush_after
  after_reconcile env (raised e) w = (raised e, w)
  after_reconcile env (ok outcome) w = flush_after env outcome.action w

  -- `_reconcile_source`, with the action that it notes in the statistics
  unfoldable pub reconcile : StartEnv F → World F S → Result Action × World F S
  unfolding after_reconcile
  reconcile env w =
      let (outcome, table) =
        reconcile_source settings.price_source env.query env.write env.postgres_now
          w.latest_prices in
      after_reconcile env outcome (record w { latest_prices = table })

  -- `_starting_prices`; `hundred` is 100.00
  unfoldable pub starting_prices : F → StartEnv F → World F S → Dict Text F
  unfolding all_with_tickers dict_of
  starting_prices hundred env w = elim (all_with_tickers w.securities w.latest_prices) [
    | r ∷ rows ↦ dict_of (map (λ (x : TickerRow F). (x.ticker, x.row.price)) (r ∷ rows)) []
    | [] ↦ elim env.seed_prices [
      | some rows ↦ dict_of rows []
      | none ↦ dict_of (map (λ (t : Text). (t, hundred)) (keys w.service.ticker_to_id)) []
    ]
  ]

  -- the service notes the row, once the cache has answered
  unfoldable pub note_row : TickerRow F → Result Bool × Redis F → World F S → Outcome × World F S
  note_row r (raised e, redis) w = (raised e, record w { redis = redis })
  note_row r (ok written, redis) w = (
    ok tt,
    record w {
      redis = redis;
      service = record w.service {
        last_published = insert r.ticker r.row.price w.service.last_published;
        effective_at = insert r.ticker r.row.effective_at w.service.effective_at;
      };
    },
  )

  unfoldable pub warm_row : StartEnv F → TickerRow F → World F S → Outcome × World F S
  unfolding row_payload note_row
  warm_row env r w =
      let payload = row_payload r in
      note_row r
        (set_price_if_newer (env.links r.ticker) env.redis_clock r.ticker payload
          payload.effective_at settings.price_cache_ttl_seconds w.redis)
        w

  -- the loop; an exception of the cache ends it
  unfoldable pub warm_rows : StartEnv F → List (TickerRow F) → World F S → Outcome × World F S
  unfolding warm_row
  warm_rows env [] w = (ok tt, w)
  warm_rows env (r ∷ rows) w =
      let (outcome, w') = warm_row env r w in
      elim outcome [ raised e ↦ (raised e, w') | ok u ↦ warm_rows env rows w' ]

  -- `_warm_cache_from_postgres`
  unfoldable pub warm_cache : StartEnv F → World F S → Outcome × World F S
  unfolding warm_rows all_with_tickers
  warm_cache env w = warm_rows env (all_with_tickers w.securities w.latest_prices) w

  -- `start`, from the schema on; `build` is `_build_source`, with the starting prices that only the
  -- simulator looks at
  unfoldable pub start : F → (Dict Text F → Result S) → StartEnv F → World F S → Outcome × World F S
  unfolding reconcile sync_catalog starting_prices warm_cache
  start hundred build env w =
      let (action, w1) = reconcile env w in
      elim action [
        | raised e ↦ (raised e, w1)
        | ok a ↦
            let (synced, w2) = sync_catalog env w1 in
            elim synced [
              | raised e ↦ (raised e, w2)
              | ok u ↦ elim (build (starting_prices hundred env w2)) [
                | raised e ↦ (raised e, w2)
                | ok source_state ↦ warm_cache env (record w2 { source_state = source_state })
              ]
            ]
      ]
