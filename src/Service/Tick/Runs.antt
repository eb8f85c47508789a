-- ===== src/Service/Tick/Runs.antt =====
-- An invariant of the ticks holds over whole runs.
use mathlib.Core.Path.{subst}
use ticker_watch_case_study.Base.{
  ℕ, ◌≡◌, ◌≤◌, ◌<◌, refl, ap, ◌∙◌, Bool, List, [], ◌∷◌, All, arith, Bool-cases, inl, inr, not, ◌&&◌,
  ◌+◌,
}
use ticker_watch_case_study.Base.Dict.{Dict, keys}
use ticker_watch_case_study.Base.Text.{Text, text_key}
use ticker_watch_case_study.Base.Result.{Result, ok, raised, done}
use ticker_watch_case_study.Settings.{Settings}
use ticker_watch_case_study.Time.{Instant}
use ticker_watch_case_study.Sources.{PriceSource}
use ticker_watch_case_study.Service.{World, Env}
use ticker_watch_case_study.Service.Writers.Totals.{IsForeseen}
use ticker_watch_case_study.Service.Tick.{
  fetched, is_fetch_failure, is_due, is_empty, current_prices, handle_prices, tick, run,
}
use ticker_watch_case_study.Service.Tick.InStep.{AreQuotes}

-- each tick comes later than the one before it
abbrev pub IsAdvancing : {F : Type 0} → Instant → List (Env F) → Type 0
IsAdvancing clock [] = Unit
IsAdvancing clock (env ∷ envs) = (clock < env.now) × IsAdvancing env.now envs

-- the time of the last tick
abbrev pub clock_after : {F : Type 0} → Instant → List (Env F) → Instant
clock_after clock [] = clock
clock_after clock (env ∷ envs) = clock_after env.now envs

-- the upsert is answered, and Redis and the broker fail only in ways that the writers catch
abbrev pub IsServed : {F : Type 0} → Env F → Type 0
IsServed env = (env.fate ≡ done) × IsForeseen env

module _ {F S : Type 0} (feq : F → F → Bool) (source : PriceSource F S) (settings : Settings) where
  -- the source answers with quotes of the securities that it is asked for
  abbrev pub IsQuoting : Dict Text ℕ → Type 0
  IsQuoting ids =
      (st st' : S) (prices : Dict Text F)
      → source.fetch (keys ids) st ≡ (ok prices, st')
      → AreQuotes feq source settings ids prices

  -- the parts of the world that reading the prices leaves alone
  abbrev pub Same : World F S → World F S → Type 0
  Same w v =
      (v.service.ticker_to_id ≡ w.service.ticker_to_id)
      × (v.service.last_published ≡ w.service.last_published)
      × (v.service.effective_at ≡ w.service.effective_at)
      × (v.latest_prices ≡ w.latest_prices)
      × (v.securities ≡ w.securities)
      × (v.redis ≡ w.redis)

  fetched_prices :
      (env : Env F) (answer : Result (Dict Text F) × S) (w : World F S) (ids : Dict Text ℕ)
      → ((prices : Dict Text F) → answer.0 ≡ ok prices → AreQuotes feq source settings ids prices)
      → AreQuotes feq source settings ids w.service.upstream_prices
      → Same w (fetched feq source settings env answer w).1
        × AreQuotes feq source settings ids
            (fetched feq source settings env answer w).1.service.upstream_prices
        × ((prices : Dict Text F)
            → (fetched feq source settings env answer w).0 ≡ ok prices
            → AreQuotes feq source settings ids prices)
  unfolding fetched
  fetched_prices env (ok found, st) w ids quoting old =
      ((refl, refl, refl, refl, refl, refl), quoting found refl, quoting)
  fetched_prices env (raised e, st) w ids quoting old = elim (Bool-cases (is_fetch_failure e)) [
    | inl caught ↦ rw caught (
      (refl, refl, refl, refl, refl, refl),
      old,
      λ prices h.
          let e : w.service.upstream_prices ≡ prices = ground (arith, h) in
          subst (AreQuotes feq source settings ids) e old,
    )
    | inr other ↦ rw other ((refl, refl, refl, refl, refl, refl), old, λ prices h. cc)
  ]

  -- reading the prices leaves what being in step is about alone, and gives quotes
  read_prices :
      (env : Env F) (w : World F S)
      → IsQuoting w.service.ticker_to_id
      → AreQuotes feq source settings w.service.ticker_to_id w.service.upstream_prices
      → let r = current_prices feq source settings env (keys w.service.ticker_to_id) w in
        Same w r.1
        × AreQuotes feq source settings w.service.ticker_to_id r.1.service.upstream_prices
        × ((prices : Dict Text F)
            → r.0 ≡ ok prices
            → AreQuotes feq source settings w.service.ticker_to_id prices)
  unfolding current_prices
  read_prices env w quoting old =
      elim (Bool-cases (
        not (is_due feq source settings env w.service)
        && not (is_empty w.service.upstream_prices))) [
          | inl waits ↦ rw waits (
            (refl, refl, refl, refl, refl, refl),
            old,
            λ prices h.
                let e : w.service.upstream_prices ≡ prices = ground (arith, h) in
                subst (AreQuotes feq source settings w.service.ticker_to_id) e old,
          )
          | inr due ↦
              let answer = source.fetch (keys w.service.ticker_to_id) w.source_state in
              rw due (
                fetched_prices env answer w w.service.ticker_to_id
                  (λ prices h.
                    quoting w.source_state answer.1 prices
                      (ap (λ (r : Result (Dict Text F)). (r, answer.1)) h))
                  old)
        ]

  -- An invariant of the world at a clock, and what a tick must meet for it: reading the prices keeps
  -- the invariant, and so does handling quotes, which also keeps the names and the prices that were
  -- fetched.
  pub record IsInvariant (IsMet : Env F → Type 0) (Inv : Instant → World F S → Type 0)
      : Type 0 where
    pub same :
        (clock now : Instant) (w v : World F S) → clock ≤ now → Same w v → Inv clock w → Inv now v
    pub handled :
        (env : Env F) (p : Text × F) (rest : Dict Text F) (w : World F S) (clock : Instant)
        → IsMet env
        → clock < env.now
        → AreQuotes feq source settings w.service.ticker_to_id (p ∷ rest)
        → Inv clock w
        → let after = (handle_prices feq source settings env (ok (p ∷ rest), w)).1 in
          (after.service.ticker_to_id ≡ w.service.ticker_to_id)
          × (after.service.upstream_prices ≡ w.service.upstream_prices)
          × Inv env.now after

  -- the prices of the last fetch are quotes
  abbrev pub HasQuotes : World F S → Type 0
  HasQuotes w = AreQuotes feq source settings w.service.ticker_to_id w.service.upstream_prices

  module _ (IsMet : Env F → Type 0) (Inv : Instant → World F S → Type 0)
      (rule : IsInvariant IsMet Inv) where
    -- what a tick keeps
    abbrev Keeps : Instant → World F S → World F S → Type 0
    Keeps now w after =
        (after.service.ticker_to_id ≡ w.service.ticker_to_id) × (Inv now after × HasQuotes after)

    handle_prices-Keeps :
        (env : Env F) (prices : Dict Text F) (w : World F S) (clock : Instant)
        → IsMet env
        → clock < env.now
        → AreQuotes feq source settings w.service.ticker_to_id prices
        → Inv clock w
        → HasQuotes w
        → Keeps env.now w (handle_prices feq source settings env (ok prices, w)).1
    handle_prices-Keeps env [] w clock met later quotes good old =
        unfold handle_prices in
        (
          refl,
          (
            rule.same clock env.now w w (omega (arith, later)) (refl, refl, refl, refl, refl, refl)
                good,
            old,
          ),
        )
    handle_prices-Keeps env (p ∷ rest) w clock met later quotes good old =
        let (ids, upstream, next) = rule.handled env p rest w clock met later quotes good in
        (ids, (next, rw (ids, upstream) old))

    after_read :
        (env : Env F) (r : Result (Dict Text F) × World F S) (w : World F S) (clock : Instant)
        → IsMet env
        → clock < env.now
        → Inv clock w
        → Same w r.1
        → AreQuotes feq source settings w.service.ticker_to_id r.1.service.upstream_prices
        → ((prices : Dict Text F)
            → r.0 ≡ ok prices
            → AreQuotes feq source settings w.service.ticker_to_id prices)
        → Keeps env.now w (handle_prices feq source settings env r).1
    after_read env (raised e, v) w clock met later good same upstream quotes =
        unfold handle_prices in
        (
          same.0,
          (rule.same clock env.now w v (omega (arith, later)) same good, rw (same.0) upstream),
        )
    after_read env (ok prices, v) w clock met later good same upstream quotes =
        let (ids, after) =
          handle_prices-Keeps env prices v clock met later (rw (same.0) (quotes prices refl))
            (rule.same clock clock w v (omega arith) same good) (rw (same.0) upstream) in
        (ids ∙ same.0, after)

    tick-Keeps :
        (env : Env F) (w : World F S) (clock : Instant)
        → IsMet env
        → clock < env.now
        → IsQuoting w.service.ticker_to_id
        → Inv clock w
        → HasQuotes w
        → Keeps env.now w (tick feq source settings env w).1
    unfolding tick
    tick-Keeps env w clock met later quoting good old =
        let counted = record w {
          service = record w.service {
            stats = record w.service.stats { ticks = w.service.stats.ticks + 1 };
          };
        } in
        let (same, upstream, quotes) = read_prices env counted quoting old in
        after_read env
          (current_prices feq source settings env (keys w.service.ticker_to_id) counted) w clock met
          later good same upstream quotes

    -- an invariant of ticks holds over any run
    pub run_keeps :
        (envs : List (Env F)) (w : World F S) (clock : Instant)
        → All IsMet envs
        → IsAdvancing clock envs
        → IsQuoting w.service.ticker_to_id
        → Inv clock w
        → HasQuotes w
        → Inv (clock_after clock envs) (run feq source settings envs w)
          × HasQuotes (run feq source settings envs w)
    unfolding run
    run_keeps [] w clock met advancing quoting good old = (good, old)
    run_keeps (env ∷ envs) w clock met advancing quoting good old =
        let (ids, (next, quotes)) = tick-Keeps env w clock met.0 advancing.0 quoting good old in
        run_keeps envs (tick feq source settings env w).1 env.now met.1 advancing.1 (rw ids quoting)
          next quotes
