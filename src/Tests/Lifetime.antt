-- ===== src/Tests/Lifetime.antt =====
-- A start and two ticks, with the stand-in for the vendor and with the simulator.
use mathlib.Core.Path.{subst}
use ticker_watch_case_study.Base.{
  ℕ, ◌+◌, ◌≡◌, ◌≤◌, refl, ap, sym, ◌∙◌, true, false, none, some, [], ◌∷◌, arith, nat_beq, nat_key,
  contains, list_beq, select,
}
use ticker_watch_case_study.Base.Dict.{Dict, lookup, insert, dict_of, set_default, update}
use ticker_watch_case_study.Base.Dict.Members.{lookup-All}
use ticker_watch_case_study.Base.Sort.{sort_by, insert_by}
use ticker_watch_case_study.Base.Text.{Text, text, text_key}
use ticker_watch_case_study.Base.Result.{Result, ok}
use ticker_watch_case_study.Base.Result.{answer, execute}
use ticker_watch_case_study.Settings.{defaults, source_text}
use ticker_watch_case_study.Time.{to_iso}
use ticker_watch_case_study.Time.Calendar.{date_of}
use ticker_watch_case_study.Time.Order.{InRange}
use ticker_watch_case_study.Cache.{
  set_price_if_newer, set_prices_if_newer, pipeline, cas, get, is_newer, dumps, Slot, Document,
  document, price_key,
}
use ticker_watch_case_study.Service.Tick.Coherent.Run.{IsAgreeing, run_agrees}
use ticker_watch_case_study.Sources
use ticker_watch_case_study.Sources.{Walk, vendor_fetch, simulated_source}
use ticker_watch_case_study.Securities.{SecurityRow, all_tickers, upsert_many, upsert_one}
use ticker_watch_case_study.Prices.{
  PriceRow, upsert_rows, row_of, all_with_tickers, distinct_sources,
}
use ticker_watch_case_study.Prices.Reconcile.{reconcile_source, foreign_sources, replace_foreign}
use ticker_watch_case_study.Prices.Reconcile.Rows.{AreRows}
use ticker_watch_case_study.Service.{World, Env}
use ticker_watch_case_study.Service.Tick.{
  run, tick, handle_prices, current_prices, is_due, is_empty, changed_prices, differs, note_changes,
  stamp_all, stamp_new, gather, first_raised, remember,
}
use ticker_watch_case_study.Service.Writers
use ticker_watch_case_study.Service.Writers.{
  write_cache, cache_step, entries, count_cache, write_postgres, postgres_plan, postgres_step,
  send_upsert, count_postgres, publish, publish_plan, publish_step, commands, count_published,
}
use ticker_watch_case_study.Prices
use ticker_watch_case_study.Service.Tick.InStep.{IsInStep, IsStored, AreQuotes}
use ticker_watch_case_study.Service.Tick.Runs.{IsServed, IsQuoting}
use ticker_watch_case_study.Service.Tick.InStep.Run.{IsSteady, run_in_step}
use ticker_watch_case_study.Service.Startup.{
  sync_catalog, vendor_rows, is_catalog_failure, load_catalog, or_seed, some_listed, ids_of,
  include_synthetic, reconcile, after_reconcile, flush_after, warm_cache, warm_rows, warm_row,
  note_row, starting_prices, start,
}
use ticker_watch_case_study.Service.Startup.InStep.{IsPast}
use ticker_watch_case_study.Service.Startup.Lifetime.{simulator-IsInStep}
use ticker_watch_case_study.Tests.Securities.{ascii}
use ticker_watch_case_study.Tests.Service.{world, nvda, source, env, cents, book}
use ticker_watch_case_study.Tests.Startup.{start_env, restarted, world-IsTable}

abbrev later : Env ℕ
later = record env { monotonic = 20_000_000; now = 20_000_000 }

env-IsServed : IsServed env
env-IsServed = (refl, record { link = tt; fate = tt; broker = tt })

later-IsServed : IsServed later
later-IsServed = (refl, record { link = tt; fate = tt; broker = tt })

nat_beq_trans : (a b c : ℕ) → nat_beq a b ≡ true → nat_beq b c ≡ true → nat_beq a c ≡ true
nat_beq_trans a b c h k =
    ground (arith, nat_key.test_iff a b, nat_key.test_iff b c, nat_key.test_iff a c, h, k)

nat_beq_refl : (a : ℕ) → nat_beq a a ≡ true
nat_beq_refl a = ground (arith, nat_key.test_iff a a)

source-IsQuoting : IsQuoting nat_beq source defaults world.service.ticker_to_id
unfolding vendor_fetch Sources.priced insert lookup list_beq contains
source-IsQuoting st st' prices h =
    let e : (nvda, 171) ∷ [] ≡ prices =
      ground (arith, ap (λ (r : Result (Dict Text ℕ) × ℕ). r.0) h) in
    subst (AreQuotes nat_beq source defaults world.service.ticker_to_id) e
      (record { distinct = (refl, tt); numbers = (refl, tt); listed = ((1, refl), tt) })

world-listed :
    (t : Text) (id : ℕ) → lookup t world.service.ticker_to_id ≡ some id → (nvda ≡ t) × (1 ≡ id)
world-listed t id h =
    lookup-All (λ (e : Text × ℕ). (nvda ≡ e.0) × (1 ≡ e.1)) t id world.service.ticker_to_id h
      ((refl, refl), tt)

world-IsStored : (price : ℕ) → 170 ≡ price → IsStored nat_beq source defaults world nvda 1 price
unfolding lookup list_beq
world-IsStored price h = subst (IsStored nat_beq source defaults world nvda 1) h (
  record { price = 170; effective_at = 5; source = text "api"; updated_at = 5 },
  refl,
  refl,
  refl,
)

world-IsSteady : IsSteady nat_beq source defaults 5 world
unfolding lookup contains list_beq
world-IsSteady = (
  record {
    stored = λ t id price here published.
        let (t_nvda, id_1) = world-listed t id here in
        let (again, price_170) =
          lookup-All (λ (e : Text × ℕ). (nvda ≡ e.0) × (170 ≡ e.1)) t price
            world.service.last_published published ((refl, refl), tt) in
        subst (λ i. IsStored nat_beq source defaults world t i price) id_1
          (subst (λ u. IsStored nat_beq source defaults world u 1 price) t_nvda
            (world-IsStored price price_170));
    past = λ t id row here there.
        lookup-All (λ (e : ℕ × PriceRow ℕ). e.1.effective_at ≤ 5) id row world.latest_prices there
          (omega arith, tt);
    apart = λ t u id a b. sym (world-listed t id a).0 ∙ (world-listed u id b).0;
    known = λ t id here.
        subst (λ i. (s : SecurityRow) × (lookup i world.securities ≡ some s))
          (world-listed t id here).1
          (record { ticker = nvda; name = nvda; exchange = none; is_synthetic = false }, refl);
  },
  record { distinct = (refl, tt); numbers = (refl, tt); listed = ((1, refl), tt) },
)

run_in_step_example :
    IsSteady nat_beq source defaults 20_000_000
      (run nat_beq source defaults (env ∷ later ∷ []) world)
run_in_step_example =
    run_in_step nat_beq source defaults nat_beq_trans (env ∷ later ∷ []) world 5
      (env-IsServed, (later-IsServed, tt)) (omega arith, (omega arith, tt)) source-IsQuoting
      world-IsSteady

started : (start ascii defaults 100 (λ p. ok 0) start_env restarted).0 ≡ ok tt
unfolding start reconcile reconcile_source answer execute foreign_sources replace_foreign
    distinct_sources select contains list_beq after_reconcile flush_after source_text sync_catalog
    vendor_rows is_catalog_failure load_catalog or_seed some_listed ids_of dict_of insert
    include_synthetic all_tickers sort_by insert_by upsert_many upsert_one starting_prices
    warm_cache warm_rows warm_row note_row all_with_tickers lookup set_price_if_newer
started = refl

restarted-AreRows : AreRows (IsPast nat_beq source defaults 5) restarted.latest_prices
unfolding contains
restarted-AreRows = record { distinct = (refl, tt); all = ((refl, omega arith), tt) }

-- the same tables before a start of the simulator
abbrev book_world : World ℕ (Walk ℕ ℕ)
book_world = record {
  service = restarted.service;
  source_state = book;
  redis = [];
  securities = restarted.securities;
  latest_prices = restarted.latest_prices;
  sent = [];
}

book_started : (start ascii defaults 100 (λ p. ok book) start_env book_world).0 ≡ ok tt
unfolding start reconcile reconcile_source answer execute foreign_sources replace_foreign
    distinct_sources select contains list_beq after_reconcile flush_after source_text sync_catalog
    vendor_rows is_catalog_failure load_catalog or_seed some_listed ids_of dict_of insert
    include_synthetic all_tickers sort_by insert_by upsert_many upsert_one starting_prices
    warm_cache warm_rows warm_row note_row all_with_tickers lookup set_price_if_newer
book_started = refl

book-AreRows :
    AreRows (IsPast nat_beq (simulated_source cents 5 5) defaults 5) book_world.latest_prices
unfolding contains
book-AreRows = record { distinct = (refl, tt); all = ((refl, omega arith), tt) }

simulator-IsInStep_example : IsInStep nat_beq (simulated_source cents 5 5) defaults 20_000_000 (
    run nat_beq
      (simulated_source cents 5 5)
      defaults
      (env ∷ later ∷ [])
      (start ascii defaults 100 (λ p. ok book) start_env book_world).1)
simulator-IsInStep_example =
    simulator-IsInStep nat_beq nat_beq_refl cents 5 5 defaults nat_beq_trans ascii 100
      (λ p. ok book) start_env (env ∷ later ∷ []) book_world 5 world-IsTable book-AreRows
      (refl, refl) book_started (env-IsServed, (later-IsServed, tt))
      (omega arith, (omega arith, tt))

world-IsAgreeing : IsAgreeing nat_beq source defaults 5 world
unfolding lookup date_of
world-IsAgreeing = (
  world-IsSteady.0,
  record {
    stamps = λ t at h.
        lookup-All (λ (e : Text × ℕ). (e.1 ≤ 5) × InRange e.1) t at world.service.effective_at h
          ((omega arith, record { year_lt = omega arith }), tt);
    slots = λ t id slot here there. cc;
  },
)

-- what Redis holds after the two ticks
abbrev cached_document : Document ℕ
cached_document = record {
  security_id = some 1;
  price = some 171;
  effective_at = some (to_iso 10_000_000);
  source = some (text "api");
}

abbrev cached_slot : Slot ℕ
cached_slot = record {
  value = document cached_document;
  expires = 10 + defaults.price_cache_ttl_seconds;
}

abbrev stored_row : PriceRow ℕ
stored_row = record {
  price = 171;
  effective_at = 10_000_000;
  source = text "api";
  updated_at = 10_000_000;
}

abbrev after_run : World ℕ ℕ
after_run = run nat_beq source defaults (env ∷ []) world

run_state :
    (after_run.service.last_published ≡ (nvda, 171) ∷ [])
    × (after_run.redis ≡ (price_key nvda, cached_slot) ∷ [])
    × (after_run.latest_prices ≡ (1, stored_row) ∷ [])
    × (after_run.service.ticker_to_id ≡ (nvda, 1) ∷ [])
unfolding run tick handle_prices current_prices is_due is_empty vendor_fetch Sources.priced
    changed_prices differs note_changes stamp_all stamp_new set_default update gather first_raised
    remember select lookup insert list_beq write_cache cache_step entries set_prices_if_newer
    pipeline cas get is_newer dumps price_key count_cache write_postgres postgres_plan postgres_step
    send_upsert Writers.rows Prices.upsert_many upsert_rows row_of count_postgres publish
    publish_plan publish_step commands count_published contains
run_state = (refl, refl, refl, refl)

run_agrees_example :
    (cached_document.security_id ≡ some 1)
    × ((q : ℕ) × (cached_document.price ≡ some q)
        × (nat_beq q 171 ≡ true)
        × (nat_beq stored_row.price 171 ≡ true))
unfolding lookup list_beq date_of price_key
run_agrees_example =
    run_agrees nat_beq source defaults nat_beq_trans (env ∷ []) world 5 nvda 1 171 cached_slot
      cached_document stored_row ((env-IsServed, record { year_lt = omega arith }), tt)
      (omega arith, tt) source-IsQuoting world-IsAgreeing world-IsSteady.1
      (ap (lookup nvda) run_state.3) (ap (lookup nvda) run_state.0)
      (ap (lookup (price_key nvda)) run_state.1) refl (ap (lookup 1) run_state.2) refl
