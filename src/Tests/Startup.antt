-- ===== src/Tests/Startup.antt =====
-- A start of the price service on one stored price.
use ticker_watch_case_study.Base.{
  ℕ, ◌≡◌, refl, arith, true, false, none, some, [], ◌∷◌, contains, list_beq, select, nat_beq, inl,
}
use ticker_watch_case_study.Base.Dict.{lookup, insert, dict_of, erase}
use ticker_watch_case_study.Base.Sort.{sort_by, insert_by}
use ticker_watch_case_study.Base.Text.{text, text_key, starts_with}
use ticker_watch_case_study.Base.Result.{ok, raised, http_error, runtime_error, done}
use ticker_watch_case_study.Settings.{defaults, source_text}
use ticker_watch_case_study.Cache.{
  up, malformed, price_key, price_keys, flush_prices, delete_keys, set_price_if_newer,
}
use ticker_watch_case_study.Securities.{all_tickers, upsert_many, upsert_one}
use ticker_watch_case_study.Securities.Catalog.{IsTable}
use ticker_watch_case_study.Prices.{all_with_tickers, distinct_sources, delete_by_source}
use ticker_watch_case_study.Prices.Reconcile.{
  wiped_simulated, reconcile_source, foreign_sources, replace_foreign,
}
use ticker_watch_case_study.Base.Result.{answer, execute}
use ticker_watch_case_study.Service.{World}
use ticker_watch_case_study.Service.Tick.{handle_prices}
use ticker_watch_case_study.Service.Startup.{
  StartEnv, wait_for_schema, sync_catalog, vendor_rows, is_catalog_failure, load_catalog, or_seed,
  some_listed, ids_of, include_synthetic, reconcile, after_reconcile, flush_after, note_flush,
  warm_cache, warm_rows, warm_row, note_row, starting_prices, start,
}
use ticker_watch_case_study.Service.Startup.Warm.{reconcile_flushed}
use ticker_watch_case_study.Service.Startup.Ready.{IsReady, start-IsReady}
use ticker_watch_case_study.Service.Startup.Restart.{restart_quiet}
use ticker_watch_case_study.Tests.Securities.{ascii}
use ticker_watch_case_study.Tests.Service.{world, service, nvda, source, env}

-- the vendor is away, and the seed file names one more ticker
abbrev pub start_env : StartEnv ℕ
start_env = record {
  catalog_reply = raised http_error;
  seed_catalog = some ((text "T", text "AT&T") ∷ []);
  seed_prices = none;
  next_id = 2;
  query = done;
  write = done;
  postgres_now = 9;
  redis_clock = 10;
  flush_link = up;
  links = λ t. up;
}

wait_late :
    wait_for_schema 60 ((false, 59) ∷ (false, 61) ∷ (true, 63) ∷ []) ≡ some (raised runtime_error)
unfolding wait_for_schema
wait_late = refl

pub world-IsTable : IsTable 2 world.securities
unfolding contains
world-IsTable = record { distinct = (refl, tt); handed_out = (omega arith, tt); ids = (refl, tt) }

synced : (sync_catalog ascii defaults start_env world).0 ≡ ok tt
unfolding sync_catalog vendor_rows is_catalog_failure load_catalog or_seed some_listed ids_of
    dict_of insert include_synthetic all_tickers sort_by insert_by select upsert_many upsert_one
    list_beq
synced = refl

-- a simulated price is stored and cached, and the vendor is the source now
abbrev simulated_world : World ℕ ℕ
simulated_world = record world {
  redis = (price_key nvda, record { value = malformed; expires = 99 }) ∷ [];
  latest_prices =
      (1, record { price = 170; effective_at = 5; source = text "simulated"; updated_at = 5 }) ∷ [];
}

wiped : (reconcile ascii defaults start_env simulated_world).0 ≡ ok wiped_simulated
unfolding reconcile reconcile_source answer execute foreign_sources replace_foreign distinct_sources
    delete_by_source source_text select contains list_beq after_reconcile flush_after note_flush
    flush_prices price_keys price_key starts_with delete_keys erase
wiped = refl

reconcile_flushed_example :
    lookup (price_key nvda) (reconcile ascii defaults start_env simulated_world).1.redis ≡ none
reconcile_flushed_example = reconcile_flushed ascii defaults start_env simulated_world nvda wiped

-- the service comes up with nothing in its memory
abbrev pub restarted : World ℕ ℕ
restarted = record world {
  service = record service { last_published = []; effective_at = []; upstream_prices = [] };
}

restart_quiet_example :
    ((handle_prices nat_beq source defaults env
        (ok ((nvda, 170) ∷ []), (warm_cache ascii defaults start_env restarted).1)).1.latest_prices
      ≡ restarted.latest_prices)
    × ((handle_prices nat_beq source defaults env
          (ok ((nvda, 170) ∷ []), (warm_cache ascii defaults start_env restarted).1)).1.sent
        ≡ restarted.sent)
unfolding all_with_tickers lookup contains list_beq
restart_quiet_example =
    restart_quiet ascii defaults nat_beq source start_env env ((nvda, 170) ∷ []) restarted
      (refl, tt) (refl, tt) ((170, refl, refl), tt)

started : (start ascii defaults 100 (λ p. ok 0) start_env world).0 ≡ ok tt
unfolding start reconcile reconcile_source answer execute foreign_sources replace_foreign
    distinct_sources select contains list_beq after_reconcile flush_after source_text sync_catalog
    vendor_rows is_catalog_failure load_catalog or_seed some_listed ids_of dict_of insert
    include_synthetic all_tickers sort_by insert_by upsert_many upsert_one starting_prices
    warm_cache warm_rows warm_row note_row all_with_tickers lookup set_price_if_newer
started = refl

start-IsReady_example :
    IsReady ascii defaults (start ascii defaults 100 (λ p. ok 0) start_env world).1
unfolding source_text
start-IsReady_example =
    start-IsReady ascii defaults 100 (λ p. ok 0) start_env world refl refl world-IsTable
      (inl refl, tt) started
