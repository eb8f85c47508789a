-- ===== src/Service/Startup/Restart.antt =====
-- The first tick behind a restart.
use ticker_watch_case_study.Base.{
  ◌≡◌, ◌∙◌, Bool, true, some, List, [], ◌∷◌, arith, map, All, Distinct,
}
use ticker_watch_case_study.Base.Dict.{Dict, lookup}
use ticker_watch_case_study.Base.Text.{Text, text_key}
use ticker_watch_case_study.Base.Result.{ok}
use ticker_watch_case_study.Settings.{Settings}
use ticker_watch_case_study.Cache.{up}
use ticker_watch_case_study.Securities.{Locale}
use ticker_watch_case_study.Prices.{TickerRow, all_with_tickers}
use ticker_watch_case_study.Sources.{PriceSource}
use ticker_watch_case_study.Service.{Service, World, Env}
use ticker_watch_case_study.Service.Tick.{handle_prices, differs}
use ticker_watch_case_study.Service.Tick.Staleness.{IsQuiet, handle_prices_quiet}
use ticker_watch_case_study.Service.Startup.{StartEnv, warm_cache}
use ticker_watch_case_study.Service.Startup.Warm.{IsNoted, tickers_of, warm_cache_lem}
use ticker_watch_case_study.Service.Startup.Kept.{warm_cache-keeps}

-- the price that is stored for a ticker
abbrev pub stored_prices : {F : Type 0} → List (TickerRow F) → Dict Text F
stored_prices = map (λ r. (r.ticker, r.row.price))

-- the price is the stored one, as `==` has it
abbrev pub IsStored : {F : Type 0} → (F → F → Bool) → List (TickerRow F) → Text × F → Type 0
IsStored {F = F} feq rows e =
    (p : F) × (lookup e.0 (stored_prices rows) ≡ some p) × (feq p e.1 ≡ true)

noted_price :
    {F : Type 0} (self : Service F) (t : Text) (p : F) (rows : List (TickerRow F))
    → All (IsNoted self) rows
    → lookup t (stored_prices rows) ≡ some p
    → lookup t self.last_published ≡ some p
unfolding lookup
noted_price self t p [] noted h = cc
noted_price self t p (r ∷ rows) noted h =
    ground (arith, noted.0.0, noted_price self t p rows noted.1, h, text_key.test_iff r.ticker t)

module _ {F S : Type 0} (locale : Locale) (settings : Settings) where
  module _ (feq : F → F → Bool) (source : PriceSource F S) where
    stored-IsQuiet :
        (self : Service F) (rows : List (TickerRow F)) (prices : Dict Text F)
        → All (IsNoted self) rows
        → All (IsStored feq rows) prices
        → All (IsQuiet feq source settings self.last_published) prices
    unfolding differs
    stored-IsQuiet self rows [] noted h = tt
    stored-IsQuiet self rows ((t, p) ∷ prices) noted h =
        let (q, here, same) = h.0 in
        (
          rw (differs, noted_price self t q rows noted here) (ground (arith, same)),
          stored-IsQuiet self rows prices noted h.1,
        )

    pub restart_quiet :
        (start_env : StartEnv F) (env : Env F) (prices : Dict Text F) (w : World F S)
        → All (λ r. start_env.links r.ticker ≡ up) (all_with_tickers w.securities w.latest_prices)
        → Distinct (tickers_of (all_with_tickers w.securities w.latest_prices))
        → All (IsStored feq (all_with_tickers w.securities w.latest_prices)) prices
        → let warm = (warm_cache locale settings start_env w).1 in
          ((handle_prices feq source settings env (ok prices, warm)).1.latest_prices
            ≡ w.latest_prices)
          × ((handle_prices feq source settings env (ok prices, warm)).1.sent ≡ w.sent)
    restart_quiet start_env env prices w answers distinct stored =
        let (ends, noted) = warm_cache_lem locale settings start_env w answers distinct in
        let warm = (warm_cache locale settings start_env w).1 in
        let (table, securities, sent, ids) = warm_cache-keeps locale settings start_env w in
        let rows = all_with_tickers w.securities w.latest_prices in
        let (a, b) =
          handle_prices_quiet feq source settings env prices warm
            (stored-IsQuiet warm.service rows prices noted stored) in
        (a ∙ table, b ∙ sent)
