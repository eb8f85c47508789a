-- ===== src/Service/Startup/Lifetime.antt =====
-- From a start over all ticks that follow, with the simulator as the source.
use mathlib.Core.Path.{subst}
use ticker_watch_case_study.Base.{◌≡◌, ap, Bool, true, List, [], ◌∷◌, All, arith, ℕ}
use ticker_watch_case_study.Base.Dict.{Dict, keys}
use ticker_watch_case_study.Base.Text.{Text, text_key}
use ticker_watch_case_study.Base.Result.{Result, ok}
use ticker_watch_case_study.Settings.{Settings}
use ticker_watch_case_study.Time.{Instant}
use ticker_watch_case_study.Sources.{PriceSource, Numbers, Walk, walk, simulated_source}
use ticker_watch_case_study.Sources.Quotes.{walk_quotes}
use ticker_watch_case_study.Securities.{Locale}
use ticker_watch_case_study.Securities.Catalog.{IsTable}
use ticker_watch_case_study.Prices.Reconcile.Rows.{AreRows}
use ticker_watch_case_study.Service.{World, Env}
use ticker_watch_case_study.Service.Tick.{run}
use ticker_watch_case_study.Service.Tick.InStep.{IsInStep, AreQuotes}
use ticker_watch_case_study.Service.Tick.Runs.{IsQuoting, IsServed, IsAdvancing, clock_after}
use ticker_watch_case_study.Service.Tick.InStep.Run.{run_in_step}
use ticker_watch_case_study.Service.Startup.{StartEnv, start}
use ticker_watch_case_study.Service.Startup.InStep.{IsPast, IsFresh, start-IsSteady}

module _ {F G : Type 0} (feq : F → F → Bool) (reflexive : (a : F) → feq a a ≡ true)
    (n : Numbers F G) (volatility change_ratio : F) (settings : Settings) where
  abbrev simulator : PriceSource F (Walk F G)
  simulator = simulated_source n volatility change_ratio

  all_numbers : (prices : Dict Text F) → All (λ e. feq e.1 e.1 ≡ true) prices
  all_numbers [] = tt
  all_numbers (e ∷ prices) = (reflexive e.1, all_numbers prices)

  -- the simulator answers with quotes
  simulated-IsQuoting : (ids : Dict Text ℕ) → IsQuoting feq simulator settings ids
  simulated-IsQuoting ids st st' prices h =
      let (distinct, listed) = walk_quotes n volatility change_ratio ids st in
      let e : (walk n volatility change_ratio (keys ids) [] st).0 ≡ prices =
        ground (arith, ap (λ (r : Result (Dict Text F) × Walk F G). r.0) h) in
      subst (AreQuotes feq simulator settings ids) e
        (record { distinct = distinct; numbers = all_numbers _; listed = listed })

  -- From the start of a new service over any run of its ticks, with the simulator as the source, what
  -- the service remembers never disagrees with `latest_prices`: each price that it remembers of a
  -- ticker is, as `==` has it, the stored price of its security, with the time at which the service
  -- first saw it. This holds when the start succeeds on tables with unique tickers and ids, with no id
  -- past the sequence and no stored price past the clock, each tick comes later than the one before,
  -- the upserts are answered, and Redis and the broker fail only in the ways that the service foresees.
  -- `==` is an equivalence on the prices.
  pub simulator-IsInStep :
      ((a b c : F) → feq a b ≡ true → feq b c ≡ true → feq a c ≡ true)
      → (locale : Locale) (hundred : F) (build : Dict Text F → Result (Walk F G))
        (start_env : StartEnv F) (envs : List (Env F)) (w : World F (Walk F G)) (clock : Instant)
      → IsTable start_env.next_id w.securities
      → AreRows (IsPast feq simulator settings clock) w.latest_prices
      → IsFresh w.service
      → (start locale settings hundred build start_env w).0 ≡ ok tt
      → All IsServed envs
      → IsAdvancing clock envs
      → IsInStep feq simulator settings
          (clock_after clock envs)
          (run feq simulator settings envs (start locale settings hundred build start_env w).1)
  simulator-IsInStep transitive locale hundred build start_env envs w clock table rows fresh good
        served advancing =
      let after = (start locale settings hundred build start_env w).1 in
      (run_in_step feq simulator settings transitive envs after clock served advancing
        (simulated-IsQuoting after.service.ticker_to_id)
        (start-IsSteady locale settings feq simulator clock hundred build start_env w table rows
          fresh good)).0
