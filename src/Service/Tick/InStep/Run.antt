-- ===== src/Service/Tick/InStep/Run.antt =====
-- Over whole runs, what the service remembers stays in step with `latest_prices`.
use ticker_watch_case_study.Base.{◌≡◌, ◌≤◌, ◌<◌, Bool, true, List, ◌∷◌, All, arith}
use ticker_watch_case_study.Base.Dict.{Dict}
use ticker_watch_case_study.Base.Text.{Text, text_key}
use ticker_watch_case_study.Base.Result.{ok}
use ticker_watch_case_study.Settings.{Settings}
use ticker_watch_case_study.Time.{Instant}
use ticker_watch_case_study.Sources.{PriceSource}
use ticker_watch_case_study.Service.{World, Env}
use ticker_watch_case_study.Service.Tick.{handle_prices, run}
use ticker_watch_case_study.Service.Tick.InStep.{IsInStep, AreQuotes}
use ticker_watch_case_study.Service.Tick.InStep.Effect.{handle_prices-Effect}
use ticker_watch_case_study.Service.Tick.InStep.Kept.{effect-IsInStep}
use ticker_watch_case_study.Service.Tick.Runs.{
  IsAdvancing, clock_after, IsServed, IsQuoting, Same, IsInvariant, HasQuotes, run_keeps,
}

module _ {F S : Type 0} (feq : F → F → Bool) (source : PriceSource F S) (settings : Settings) where
  -- the service is in step, and the prices of the last fetch are quotes
  abbrev pub IsSteady : Instant → World F S → Type 0
  IsSteady clock w = IsInStep feq source settings clock w × HasQuotes feq source settings w

  pub Same-IsInStep :
      (clock now : Instant) (w v : World F S)
      → clock ≤ now
      → Same feq source settings w v
      → IsInStep feq source settings clock w
      → IsInStep feq source settings now v
  Same-IsInStep clock now w v later (ids, published, stamps, table, catalog, redis) good = record {
    stored = λ t id price. rw (ids, published, stamps, table) (good.stored t id price);
    past = λ t id row.
        rw (ids, table) (λ a b. let old = good.past t id row a b in omega (arith, old, later));
    apart = rw ids good.apart;
    known = rw (ids, catalog) good.known;
  }

  module _ (transitive : (a b c : F) → feq a b ≡ true → feq b c ≡ true → feq a c ≡ true) where
    handle_prices-IsInStep :
        (env : Env F) (p : Text × F) (rest : Dict Text F) (w : World F S) (clock : Instant)
        → IsServed env
        → clock < env.now
        → AreQuotes feq source settings w.service.ticker_to_id (p ∷ rest)
        → IsInStep feq source settings clock w
        → let after = (handle_prices feq source settings env (ok (p ∷ rest), w)).1 in
          (after.service.ticker_to_id ≡ w.service.ticker_to_id)
          × (after.service.upstream_prices ≡ w.service.upstream_prices)
          × IsInStep feq source settings env.now after
    handle_prices-IsInStep env p rest w clock (answered, foreseen) later quotes good =
        let effect =
          handle_prices-Effect feq source settings env answered foreseen p rest w clock good
            quotes in
        (
          effect.ids,
          effect.upstream,
          effect-IsInStep feq source settings env (p ∷ rest) w
              (handle_prices feq source settings env (ok (p ∷ rest), w)).1 clock later good quotes
              effect transitive,
        )

    IsInStep-IsInvariant : IsInvariant feq source settings IsServed (IsInStep feq source settings)
    IsInStep-IsInvariant = record { same = Same-IsInStep; handled = handle_prices-IsInStep }

    -- What the service remembers never disagrees with `latest_prices`: over any run of ticks, each
    -- remembered price is, as `==` has it, the stored price of its security, and it is stored with the
    -- time at which the service first saw it. This holds from any state in which it does, when the
    -- source answers with quotes, each tick comes later than the one before, the upserts are answered,
    -- and Redis and the broker fail only in the ways that the service foresees. `==` is transitive.
    pub run_in_step :
        (envs : List (Env F)) (w : World F S) (clock : Instant)
        → All IsServed envs
        → IsAdvancing clock envs
        → IsQuoting feq source settings w.service.ticker_to_id
        → IsSteady clock w
        → IsSteady (clock_after clock envs) (run feq source settings envs w)
    run_in_step envs w clock served advancing quoting (good, quotes) =
        run_keeps feq source settings IsServed (IsInStep feq source settings) IsInStep-IsInvariant
          envs w clock served advancing quoting good quotes
