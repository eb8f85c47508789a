-- ===== src/Service/Startup/Warm.antt =====
-- What the service knows after the stored prices have warmed the cache, and what the first tick makes
-- of it.
use mathlib.Core.Path.{subst}
use ticker_watch_case_study.Base.{
  ℕ, ◌≡◌, refl, ◌∙◌, false, none, some, List, [], ◌∷◌, arith, map, All, Distinct, contains,
}
use ticker_watch_case_study.Base.Dict.{lookup, insert, lookup-insert}
use ticker_watch_case_study.Base.Text.{Text, text_key}
use ticker_watch_case_study.Base.Result.{Result, ok, raised, Outcome}
use ticker_watch_case_study.Settings.{Settings}
use ticker_watch_case_study.Cache.{Link, up, cut, set_price_if_newer, price_key, flush_prices}
use ticker_watch_case_study.Cache.Flush.{lookup-flush}
use ticker_watch_case_study.Securities.{Locale}
use ticker_watch_case_study.Prices.{TickerRow, all_with_tickers}
use ticker_watch_case_study.Prices.Reconcile.{
  Action, clean, wiped_simulated, adopted_api, SourceReconciliation, reconcile_source,
}
use ticker_watch_case_study.Service.{Service, World}
use ticker_watch_case_study.Service.Startup.{
  StartEnv, warm_row, warm_rows, warm_cache, reconcile, note_flush, flush_after, after_reconcile,
}

-- the row's price and time are what the service holds for its ticker
abbrev pub IsNoted : {F : Type 0} → Service F → TickerRow F → Type 0
IsNoted self r =
    (lookup r.ticker self.last_published ≡ some r.row.price)
    × (lookup r.ticker self.effective_at ≡ some r.row.effective_at)

abbrev pub tickers_of : {F : Type 0} → List (TickerRow F) → List Text
tickers_of = map (λ r. r.ticker)

-- a ticker that is not among the rows keeps what the service holds for it
abbrev Keeps : {F : Type 0} → Service F → Service F → Text → Type 0
Keeps before after t =
    (lookup t after.last_published ≡ lookup t before.last_published)
    × (lookup t after.effective_at ≡ lookup t before.effective_at)

module _ {F S : Type 0} (locale : Locale) (settings : Settings) where
  warm_row-up :
      (env : StartEnv F) (r : TickerRow F) (w : World F S)
      → env.links r.ticker ≡ up
      → ((warm_row locale settings env r w).0 ≡ ok tt)
        × ((warm_row locale settings env r w).1.service.last_published
            ≡ insert r.ticker r.row.price w.service.last_published)
        × ((warm_row locale settings env r w).1.service.effective_at
            ≡ insert r.ticker r.row.effective_at w.service.effective_at)
  unfolding warm_row set_price_if_newer
  warm_row-up env r w h = rw h (refl, refl, refl)

  -- the loop has ended, and all rows are noted
  abbrev Warmed : List (TickerRow F) → World F S → Outcome × World F S → Type 0
  Warmed rows w result =
      (result.0 ≡ ok tt)
      × All (IsNoted result.1.service) rows
      × ((t : Text) → contains t (tickers_of rows) ≡ false → Keeps w.service result.1.service t)

  warm_rows-cons :
      (env : StartEnv F) (r : TickerRow F) (rows : List (TickerRow F)) (w : World F S)
      → (warm_row locale settings env r w).0 ≡ ok tt
      → warm_rows locale settings env rows (warm_row locale settings env r w).1
        ≡ warm_rows locale settings env (r ∷ rows) w
  unfolding warm_rows
  warm_rows-cons env r rows w good = rw (warm_rows, good) refl

  warm_rows-up :
      (env : StartEnv F) (rows : List (TickerRow F)) (w : World F S)
      → All (λ r. env.links r.ticker ≡ up) rows
      → Distinct (tickers_of rows)
      → Warmed rows w (warm_rows locale settings env rows w)
  unfolding warm_rows contains
  warm_rows-up env [] w h d = (refl, tt, λ t absent. (refl, refl))
  warm_rows-up env (r ∷ rows) w h d =
      let (good, published, stamped) = warm_row-up env r w h.0 in
      let (ends, noted, kept) =
        warm_rows-up env rows (warm_row locale settings env r w).1 h.1 d.1 in
      let (p, q) = kept r.ticker d.0 in
      subst (Warmed (r ∷ rows) w) (warm_rows-cons env r rows w good) (
        ends,
        (
          (
            p
                ∙ ground (
                  arith,
                  published,
                  lookup-insert r.ticker r.ticker r.row.price w.service.last_published,
                  text_key.test_iff r.ticker r.ticker,
                ),
            q
                ∙ ground (
                  arith,
                  stamped,
                  lookup-insert r.ticker r.ticker r.row.effective_at w.service.effective_at,
                  text_key.test_iff r.ticker r.ticker,
                ),
          ),
          noted,
        ),
        λ t absent.
            let (a, b) = kept t (ground arith) in
            (
              a
                  ∙ ground (
                    arith,
                    published,
                    lookup-insert r.ticker t r.row.price w.service.last_published,
                  ),
              b
                  ∙ ground (
                    arith,
                    stamped,
                    lookup-insert r.ticker t r.row.effective_at w.service.effective_at,
                  ),
            ),
      )

  -- While Redis answers, the warm-up ends without an exception, and the service then holds for each
  -- stored price of a security its value and its time, so that the first tick compares with them. The
  -- securities have different tickers.
  pub warm_cache_lem :
      (env : StartEnv F) (w : World F S)
      → All (λ r. env.links r.ticker ≡ up) (all_with_tickers w.securities w.latest_prices)
      → Distinct (tickers_of (all_with_tickers w.securities w.latest_prices))
      → ((warm_cache locale settings env w).0 ≡ ok tt)
        × All
            (IsNoted (warm_cache locale settings env w).1.service)
            (all_with_tickers w.securities w.latest_prices)
  unfolding warm_cache
  warm_cache_lem env w h d =
      let (ends, noted, kept) =
        warm_rows-up env (all_with_tickers w.securities w.latest_prices) w h d in
      (ends, noted)

  note_flush-cleared :
      (link : Link) (clock : ℕ) (w : World F S) (t : Text)
      → (note_flush locale settings (flush_prices link clock w.redis) w).0 ≡ ok wiped_simulated
      → lookup
          (price_key t)
          (note_flush locale settings (flush_prices link clock w.redis) w).1.redis
        ≡ none
  unfolding note_flush flush_prices
  note_flush-cleared up clock w t h = lookup-flush clock t w.redis
  note_flush-cleared (cut n e) clock w t h = cc

  flush_after-cleared :
      (env : StartEnv F) (action : Action) (w : World F S) (t : Text)
      → (flush_after locale settings env action w).0 ≡ ok wiped_simulated
      → lookup (price_key t) (flush_after locale settings env action w).1.redis ≡ none
  unfolding flush_after
  flush_after-cleared env clean w t h = cc
  flush_after-cleared env adopted_api w t h = cc
  flush_after-cleared env wiped_simulated w t h =
      note_flush-cleared env.flush_link env.redis_clock w t h

  after_reconcile-cleared :
      (env : StartEnv F) (outcome : Result SourceReconciliation) (w : World F S) (t : Text)
      → (after_reconcile locale settings env outcome w).0 ≡ ok wiped_simulated
      → lookup (price_key t) (after_reconcile locale settings env outcome w).1.redis ≡ none
  unfolding after_reconcile
  after_reconcile-cleared env (raised e) w t h = cc
  after_reconcile-cleared env (ok outcome) w t h = flush_after-cleared env outcome.action w t h

  -- When the start has wiped simulated prices and goes on, no price is left in the cache.
  pub reconcile_flushed :
      (env : StartEnv F) (w : World F S) (t : Text)
      → (reconcile locale settings env w).0 ≡ ok wiped_simulated
      → lookup (price_key t) (reconcile locale settings env w).1.redis ≡ none
  unfolding reconcile
  reconcile_flushed env w t h =
      let (outcome, table) =
        reconcile_source settings.price_source env.query env.write env.postgres_now
          w.latest_prices in
      after_reconcile-cleared env outcome (record w { latest_prices = table }) t h
