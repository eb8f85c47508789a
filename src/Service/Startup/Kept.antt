-- ===== src/Service/Startup/Kept.antt =====
-- What the steps of a start leave alone.
use ticker_watch_case_study.Base.{ℕ, ◌≡◌, refl, ◌∙◌, Bool, List, [], ◌∷◌, inl, inr}
use ticker_watch_case_study.Base.Text.{text_key}
use ticker_watch_case_study.Base.Result.{Result, ok, raised, Result-cases}
use ticker_watch_case_study.Settings.{Settings}
use ticker_watch_case_study.Cache.{Redis}
use ticker_watch_case_study.Securities.{Locale}
use ticker_watch_case_study.Prices.{TickerRow, all_with_tickers}
use ticker_watch_case_study.Prices.Reconcile.{
  Action, clean, wiped_simulated, adopted_api, SourceReconciliation,
}
use ticker_watch_case_study.Service.{World}
use ticker_watch_case_study.Service.Startup.{
  StartEnv, note_row, warm_row, warm_rows, warm_cache, note_flush, flush_after, after_reconcile,
  sync_catalog, load_catalog, vendor_rows,
}

module _ {F S : Type 0} (locale : Locale) (settings : Settings) where
  -- what the warm-up leaves alone
  abbrev pub Kept : World F S → World F S → Type 0
  Kept before after =
      (after.latest_prices ≡ before.latest_prices)
      × (after.securities ≡ before.securities)
      × (after.sent ≡ before.sent)
      × (after.service.ticker_to_id ≡ before.service.ticker_to_id)

  note_row-keeps :
      (r : TickerRow F) (answer : Result Bool × Redis F) (w : World F S)
      → Kept w (note_row locale settings r answer w).1
  unfolding note_row
  note_row-keeps r (raised e, redis) w = (refl, refl, refl, refl)
  note_row-keeps r (ok written, redis) w = (refl, refl, refl, refl)

  warm_row-keeps :
      (env : StartEnv F) (r : TickerRow F) (w : World F S)
      → Kept w (warm_row locale settings env r w).1
  unfolding warm_row
  warm_row-keeps env r w = note_row-keeps r _ w

  warm_rows-keeps :
      (env : StartEnv F) (rows : List (TickerRow F)) (w : World F S)
      → Kept w (warm_rows locale settings env rows w).1
  unfolding warm_rows
  warm_rows-keeps env [] w = (refl, refl, refl, refl)
  warm_rows-keeps env (r ∷ rows) w =
      let (outcome, w') = warm_row locale settings env r w in
      let one = warm_row-keeps env r w in
      elim (Result-cases outcome) [
        | inr (e, failed) ↦ rw (warm_rows, failed) one
        | inl (u, good) ↦
            let more = warm_rows-keeps env rows w' in
            rw (warm_rows, good) (more.0 ∙ one.0, more.1 ∙ one.1, more.2 ∙ one.2, more.3 ∙ one.3)
      ]

  pub warm_cache-keeps :
      (env : StartEnv F) (w : World F S) → Kept w (warm_cache locale settings env w).1
  unfolding warm_cache
  warm_cache-keeps env w = warm_rows-keeps env (all_with_tickers w.securities w.latest_prices) w

  note_row-upstream_prices :
      (r : TickerRow F) (answer : Result Bool × Redis F) (w : World F S)
      → (note_row locale settings r answer w).1.service.upstream_prices ≡ w.service.upstream_prices
  unfolding note_row
  note_row-upstream_prices r (raised e, redis) w = refl
  note_row-upstream_prices r (ok written, redis) w = refl

  warm_rows-upstream_prices :
      (env : StartEnv F) (rows : List (TickerRow F)) (w : World F S)
      → (warm_rows locale settings env rows w).1.service.upstream_prices ≡ w.service.upstream_prices
  unfolding warm_rows warm_row
  warm_rows-upstream_prices env [] w = refl
  warm_rows-upstream_prices env (r ∷ rows) w =
      let (outcome, w') = warm_row locale settings env r w in
      let one = note_row-upstream_prices r _ w in
      elim (Result-cases outcome) [
        | inr (e, failed) ↦ rw (warm_rows, failed) one
        | inl (u, good) ↦ rw (warm_rows, good) (warm_rows-upstream_prices env rows w' ∙ one)
      ]

  pub warm_cache-upstream_prices :
      (env : StartEnv F) (w : World F S)
      → (warm_cache locale settings env w).1.service.upstream_prices ≡ w.service.upstream_prices
  unfolding warm_cache
  warm_cache-upstream_prices env w =
      warm_rows-upstream_prices env (all_with_tickers w.securities w.latest_prices) w

  -- the tables are as they were
  abbrev pub SameTables : World F S → World F S → Type 0
  SameTables before after =
      (after.securities ≡ before.securities) × (after.latest_prices ≡ before.latest_prices)

  note_flush-tables :
      (answer : Result ℕ × Redis F) (w : World F S)
      → SameTables w (note_flush locale settings answer w).1
  unfolding note_flush
  note_flush-tables (ok n, redis) w = (refl, refl)
  note_flush-tables (raised e, redis) w = (refl, refl)

  flush_after-tables :
      (env : StartEnv F) (action : Action) (w : World F S)
      → SameTables w (flush_after locale settings env action w).1
  unfolding flush_after
  flush_after-tables env clean w = (refl, refl)
  flush_after-tables env adopted_api w = (refl, refl)
  flush_after-tables env wiped_simulated w = note_flush-tables _ w

  pub after_reconcile-tables :
      (env : StartEnv F) (outcome : Result SourceReconciliation) (w : World F S)
      → SameTables w (after_reconcile locale settings env outcome w).1
  unfolding after_reconcile
  after_reconcile-tables env (raised e) w = (refl, refl)
  after_reconcile-tables env (ok outcome) w = flush_after-tables env outcome.action w

  note_flush-service :
      (answer : Result ℕ × Redis F) (w : World F S)
      → (note_flush locale settings answer w).1.service ≡ w.service
  unfolding note_flush
  note_flush-service (ok n, redis) w = refl
  note_flush-service (raised e, redis) w = refl

  flush_after-service :
      (env : StartEnv F) (action : Action) (w : World F S)
      → (flush_after locale settings env action w).1.service ≡ w.service
  unfolding flush_after
  flush_after-service env clean w = refl
  flush_after-service env adopted_api w = refl
  flush_after-service env wiped_simulated w = note_flush-service _ w

  pub after_reconcile-service :
      (env : StartEnv F) (outcome : Result SourceReconciliation) (w : World F S)
      → (after_reconcile locale settings env outcome w).1.service ≡ w.service
  unfolding after_reconcile
  after_reconcile-service env (raised e) w = refl
  after_reconcile-service env (ok outcome) w = flush_after-service env outcome.action w

  pub sync_catalog-prices :
      (env : StartEnv F) (w : World F S)
      → (sync_catalog locale settings env w).1.latest_prices ≡ w.latest_prices
  unfolding sync_catalog load_catalog
  sync_catalog-prices env w =
      elim (Result-cases (vendor_rows settings.price_source env.catalog_reply)) [
        | inl (found, e) ↦ rw (sync_catalog, e) refl
        | inr (e, failed) ↦ rw (sync_catalog, failed) refl
      ]
