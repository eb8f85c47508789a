-- ===== src/Service/Tick/Coherent/Run.antt =====
-- Over whole runs, the cache and `latest_prices` do not disagree about the price at a time.
use mathlib.Core.Path.{subst}
use ticker_watch_case_study.Base.{
  ℕ, ◌≡◌, ◌≤◌, ◌<◌, sym, ap, ◌∙◌, Bool, true, some, List, ◌∷◌, All, arith, ltb, nat_key,
}
use ticker_watch_case_study.Base.Dict.{Dict, lookup}
use ticker_watch_case_study.Base.Text.{Text, text_key, text_lt}
use ticker_watch_case_study.Base.Result.{ok}
use ticker_watch_case_study.Settings.{Settings}
use ticker_watch_case_study.Time.{Instant, to_iso}
use ticker_watch_case_study.Time.Order.{InRange, text_lt-to_iso}
use ticker_watch_case_study.Sources.{PriceSource}
use ticker_watch_case_study.Cache.{Document, document, Slot, price_key}
use ticker_watch_case_study.Prices.{PriceRow}
use ticker_watch_case_study.Service.{World, Env}
use ticker_watch_case_study.Service.Tick.{handle_prices, run}
use ticker_watch_case_study.Service.Tick.Runs.{
  IsAdvancing, clock_after, IsServed, IsQuoting, Same, IsInvariant, HasQuotes, run_keeps,
}
use ticker_watch_case_study.Service.Tick.InStep.{IsInStep, AreQuotes}
use ticker_watch_case_study.Service.Tick.InStep.Effect.{handle_prices-Effect}
use ticker_watch_case_study.Service.Tick.InStep.Kept.{effect-IsInStep}
use ticker_watch_case_study.Service.Tick.InStep.Run.{Same-IsInStep}
use ticker_watch_case_study.Service.Tick.Coherent.{IsCurrent, IsCoherent}
use ticker_watch_case_study.Service.Tick.Coherent.Effect.{handle_prices-IsCached}
use ticker_watch_case_study.Service.Tick.Coherent.Kept.{effect-IsCoherent}

-- the tick is served, at a time that a datetime has
abbrev pub IsDated : {F : Type 0} → Env F → Type 0
IsDated env = IsServed env × InRange env.now

-- times that `to_iso` writes alike are the same
to_iso-injective : (a b : Instant) → InRange a → InRange b → to_iso a ≡ to_iso b → a ≡ b
to_iso-injective a b ra rb h =
    let forth : ltb a b ≡ ltb b b =
      sym (text_lt-to_iso a b ra rb)
      ∙ ap (λ x. text_lt x (to_iso b)) h
      ∙ text_lt-to_iso b b rb rb in
    let back : ltb b a ≡ ltb a a =
      sym (text_lt-to_iso b a rb ra)
      ∙ ap (λ x. text_lt x (to_iso a)) (sym h)
      ∙ text_lt-to_iso a a ra ra in
    ground (arith, forth, back)

module _ {F S : Type 0} (feq : F → F → Bool) (source : PriceSource F S) (settings : Settings) where
  -- what is remembered is stored, and what is cached is current
  abbrev pub IsAgreeing : Instant → World F S → Type 0
  IsAgreeing clock w = IsInStep feq source settings clock w × IsCoherent feq source settings clock w

  Same-IsCurrent :
      (clock now : Instant) (w v : World F S) (t : Text) (id : ℕ) (slot : Slot F)
      → clock ≤ now
      → Same feq source settings w v
      → IsCurrent feq source settings clock w t id slot
      → IsCurrent feq source settings now v t id slot
  Same-IsCurrent clock now w v t id slot later (ids, published, stamps, table, catalog, redis)
        (d, b, value, stamp, past, in_range, agrees) =
      (d, b, value, stamp, omega (arith, past, later), in_range, rw (published, stamps) agrees)

  Same-IsAgreeing :
      (clock now : Instant) (w v : World F S)
      → clock ≤ now
      → Same feq source settings w v
      → IsAgreeing clock w
      → IsAgreeing now v
  Same-IsAgreeing clock now w v later same (good, coherent) =
      let (ids, published, stamps, table, catalog, redis) = same in
      (
        Same-IsInStep feq source settings clock now w v later same good,
        record {
          stamps = λ t at. rw stamps (λ h.
              let (past, in_range) = coherent.stamps t at h in
              (omega (arith, past, later), in_range));
          slots = λ t id slot.
              rw (ids, redis)
                (λ here there.
                  Same-IsCurrent clock now w v t id slot later same
                    (coherent.slots t id slot here there));
        },
      )

  module _ (transitive : (a b c : F) → feq a b ≡ true → feq b c ≡ true → feq a c ≡ true) where
    handle_prices-IsAgreeing :
        (env : Env F) (p : Text × F) (rest : Dict Text F) (w : World F S) (clock : Instant)
        → IsDated env
        → clock < env.now
        → AreQuotes feq source settings w.service.ticker_to_id (p ∷ rest)
        → IsAgreeing clock w
        → let after = (handle_prices feq source settings env (ok (p ∷ rest), w)).1 in
          (after.service.ticker_to_id ≡ w.service.ticker_to_id)
          × (after.service.upstream_prices ≡ w.service.upstream_prices)
          × IsAgreeing env.now after
    handle_prices-IsAgreeing env p rest w clock ((answered, foreseen), dated) later quotes
          (good, coherent) =
        let after = (handle_prices feq source settings env (ok (p ∷ rest), w)).1 in
        let effect =
          handle_prices-Effect feq source settings env answered foreseen p rest w clock good
            quotes in
        let cached = handle_prices-IsCached feq source settings env p rest w quotes.distinct in
        (
          effect.ids,
          effect.upstream,
          (
            effect-IsInStep feq source settings env (p ∷ rest) w after clock later good quotes
                effect transitive,
            effect-IsCoherent feq source settings transitive env (p ∷ rest) w after clock later
                dated coherent quotes effect cached,
          ),
        )

    IsAgreeing-IsInvariant : IsInvariant feq source settings IsDated IsAgreeing
    IsAgreeing-IsInvariant = record { same = Same-IsAgreeing; handled = handle_prices-IsAgreeing }

  -- a cached and a stored price of one time
  agree :
      (clock : Instant) (w : World F S) (t : Text) (id : ℕ) (price : F) (slot : Slot F)
      (d : Document F) (row : PriceRow F)
      → IsAgreeing clock w
      → lookup t w.service.ticker_to_id ≡ some id
      → lookup t w.service.last_published ≡ some price
      → lookup (price_key t) w.redis ≡ some slot
      → slot.value ≡ document d
      → lookup id w.latest_prices ≡ some row
      → d.effective_at ≡ some (to_iso row.effective_at)
      → (d.security_id ≡ some id)
        × ((q : F) × (d.price ≡ some q) × (feq q price ≡ true) × (feq row.price price ≡ true))
  agree clock w t id price slot d row (good, coherent) here published cached decoded stored stamp =
      let (row', there, equal, at) = good.stored t id price here published in
      let same_row : row' ≡ row = ground (arith, there, stored) in
      let (d', b, value, written, past, in_range, agrees) = coherent.slots t id slot here cached in
      let same_document : d' ≡ d = ground (arith, value, decoded) in
      let at_row : lookup t w.service.effective_at ≡ some row.effective_at =
        at ∙ ap (λ (r : PriceRow F). some r.effective_at) same_row in
      let (row_past, row_in_range) = coherent.stamps t row.effective_at at_row in
      let same_text : to_iso b ≡ to_iso row.effective_at =
        ground
          (arith, sym written ∙ ap (λ (x : Document F). x.effective_at) same_document ∙ stamp) in
      let b_row = to_iso-injective b row.effective_at in_range row_in_range same_text in
      let (of_id, (q, is, close)) = agrees price published (at_row ∙ ap some (sym b_row)) in
      (
        sym (ap (λ (x : Document F). x.security_id) same_document) ∙ of_id,
        (
          q,
          sym (ap (λ (x : Document F). x.price) same_document) ∙ is,
          close,
          subst (λ (r : PriceRow F). feq r.price price ≡ true) same_row equal,
        ),
      )

  module _ (transitive : (a b c : F) → feq a b ≡ true → feq b c ≡ true → feq a c ≡ true) where
    -- The cache and `latest_prices` never disagree about the price at a time: after any run of ticks,
    -- when the cache holds a document for a ticker whose price is remembered, and the document has the
    -- time of the stored row, then it is of the same security, and its price and the stored one are
    -- both the remembered one, as `==` has it. Redis may fail before or within the writes of any
    -- tick. This holds from any state in which what is remembered, stored and cached agrees so, when
    -- the source answers with quotes, each tick comes later than the one before and before the year
    -- 10000, the upserts are answered, and Redis and the broker fail only in the ways that the service
    -- foresees. `==` is transitive.
    pub run_agrees :
        (envs : List (Env F)) (w : World F S) (clock : Instant) (t : Text) (id : ℕ) (price : F)
        (slot : Slot F) (d : Document F) (row : PriceRow F)
        → All IsDated envs
        → IsAdvancing clock envs
        → IsQuoting feq source settings w.service.ticker_to_id
        → IsAgreeing clock w
        → HasQuotes feq source settings w
        → lookup t (run feq source settings envs w).service.ticker_to_id ≡ some id
        → lookup t (run feq source settings envs w).service.last_published ≡ some price
        → lookup (price_key t) (run feq source settings envs w).redis ≡ some slot
        → slot.value ≡ document d
        → lookup id (run feq source settings envs w).latest_prices ≡ some row
        → d.effective_at ≡ some (to_iso row.effective_at)
        → (d.security_id ≡ some id)
          × ((q : F) × (d.price ≡ some q) × (feq q price ≡ true) × (feq row.price price ≡ true))
    run_agrees envs w clock t id price slot d row dated advancing quoting good quotes =
        agree (clock_after clock envs) (run feq source settings envs w) t id price slot d row
          (run_keeps feq source settings IsDated IsAgreeing (IsAgreeing-IsInvariant transitive) envs
            w clock dated advancing quoting good quotes).0
