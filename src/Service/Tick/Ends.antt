-- ===== src/Service/Tick/Ends.antt =====
-- A tick survives every failure that its writers foresee.
use ticker_watch_case_study.Base.{
  ℕ, Bool, true, ◌≡◌, refl, [], ◌∷◌, All, arith, some, contains, select, nat_key, inl, inr,
  Bool-cases, Option-cases,
}
use ticker_watch_case_study.Base.Dict.{Dict, keys, lookup}
use ticker_watch_case_study.Base.Text.{Text, text_key}
use ticker_watch_case_study.Base.Result.{ok, raised, Outcome}
use ticker_watch_case_study.Settings.{Settings, Transport, poll, push}
use ticker_watch_case_study.Time.{Instant}
use ticker_watch_case_study.Sources.{PriceSource}
use ticker_watch_case_study.Service.{Service, World, Env}
use ticker_watch_case_study.Service.Writers.{
  postgres_step, publish_step, postgres_plan, publish_plan, write_cache, write_postgres, publish,
}
use ticker_watch_case_study.Service.Tick.{
  note_changes, gather, remember, handle_prices, changed_prices,
}
use ticker_watch_case_study.Service.Tick.Stamps.{lookup-note_changes}
use ticker_watch_case_study.Service.Writers.Totals.{
  IsForeseen, IsReady, entries_total, rows_total, commands_total, cache_step_ok, postgres_step_ok,
  publish_step_ok,
}

-- the ticker of a price has a security
abbrev pub IsListed : {F : Type 0} → Dict Text ℕ → Text × F → Type 0
IsListed ids e = (id : ℕ) × (lookup e.0 ids ≡ some id)

module _ {F S : Type 0} (feq : F → F → Bool) (source : PriceSource F S) (settings : Settings)
    (env : Env F) (foreseen : IsForeseen env) where
  write_cache_ok :
      (prices : Dict Text F) (w : World F S)
      → All (IsReady w.service) prices
      → (write_cache settings source.name env prices w).0 ≡ ok tt
  unfolding write_cache
  write_cache_ok prices w h =
      let (es, built) = entries_total source.name w.service prices h in
      rw built (cache_step_ok settings env es w.redis w.service.stats foreseen.link)

  write_postgres_ok :
      (changed : Dict Text F) (w : World F S)
      → All (IsReady w.service) changed
      → (write_postgres settings source.name env changed w).0 ≡ ok tt
  unfolding write_postgres postgres_plan
  write_postgres_ok [] w h = unfold postgres_step in refl
  write_postgres_ok (c ∷ changed) w h =
      let (rs, built) = rows_total source.name w.service (c ∷ changed) h in
      rw built (
        postgres_step_ok settings env w.securities rs w.latest_prices w.service.stats foreseen.fate)

  publish_ok :
      (transport : Transport) (changed : Dict Text F) (w : World F S)
      → All (IsReady w.service) changed
      → (publish_step settings env
          (publish_plan source.name transport w.service changed)
          w.sent
          w.service.stats).0
        ≡ ok tt
  unfolding publish_plan
  publish_ok poll changed w h = unfold publish_step in refl
  publish_ok push [] w h = unfold publish_step in refl
  publish_ok push (c ∷ changed) w h =
      let (cs, built) = commands_total source.name w.service (c ∷ changed) h in
      rw built (publish_step_ok settings env cs w.sent w.service.stats foreseen.broker)

  gather_ok :
      (prices changed : Dict Text F) (w : World F S)
      → All (IsReady w.service) prices
      → All (IsReady w.service) changed
      → (gather feq source settings env prices changed w).0 ≡ ok tt
  unfolding gather
  gather_ok prices changed w hp hc =
      let w1 = (write_cache settings source.name env prices w).1 in
      let w2 = (write_postgres settings source.name env changed w1).1 in
      rw (write_cache_ok prices w hp) (
        unfold write_cache in
        rw (write_postgres_ok changed w1 hc)
          (unfold write_postgres publish in publish_ok settings.transport changed w2 hc))

  stamped :
      (prices changed : Dict Text F) (self : Service F) (t : Text)
      → contains t (keys prices) ≡ true
      → (at : Instant) × (lookup t
            (note_changes feq source settings env prices changed self).effective_at
          ≡ some at)
  stamped prices changed self t h =
      rw (lookup-note_changes feq source settings env prices changed self t, h)
        (elim (Bool-cases (contains t (keys changed))) [
          | inl new ↦ (env.now, rw new)
          | inr old ↦ elim (Option-cases (lookup t self.effective_at)) [
            | inl absent ↦ (env.now, rw (old, absent))
            | inr (at, present) ↦ (at, rw (old, present))
          ]
        ])

  pub note_changes-IsReady :
      (prices changed : Dict Text F) (self : Service F) (es : Dict Text F)
      → ((t : Text) → contains t (keys es) ≡ true → contains t (keys prices) ≡ true)
      → All (IsListed self.ticker_to_id) es
      → All (IsReady (note_changes feq source settings env prices changed self)) es
  unfolding contains
  note_changes-IsReady prices changed self [] sub h = tt
  note_changes-IsReady prices changed self ((t, p) ∷ es) sub h = (
    (
      (unfold note_changes in h.0),
      stamped prices changed self t (sub t (ground (arith, text_key.test_iff t t))),
    ),
    note_changes-IsReady prices changed self es (λ u c. sub u (ground (arith, c))) h.1,
  )

  pub select-All :
      (P : Text × F → Type 0) (test : Text × F → Bool) (xs : Dict Text F)
      → All P xs
      → All P (select test xs)
  unfolding select
  select-All P test [] h = tt
  select-All P test (x ∷ xs) h = elim (Bool-cases (test x)) [
    | inl taken ↦ rw taken (h.0, select-All P test xs h.1)
    | inr left ↦ rw left (select-All P test xs h.1)
  ]

  remember_ok :
      (prices : Dict Text F) (r : Outcome × World F S)
      → r.0 ≡ ok tt
      → (remember feq source settings prices r).0 ≡ ok tt
  unfolding remember
  remember_ok prices (ok u, w) h = refl
  remember_ok prices (raised e, w) h = cc

  -- Handling the prices of a tick ends without an exception, and so remembers them, when every
  -- ticker has a security and Redis, Postgres and the broker fail, if they fail, in the ways that the
  -- writers catch.
  pub handle_prices_ok :
      (prices : Dict Text F) (w : World F S)
      → All (IsListed w.service.ticker_to_id) prices
      → (handle_prices feq source settings env (ok prices, w)).0 ≡ ok tt
  unfolding handle_prices
  handle_prices_ok [] w h = refl
  handle_prices_ok (p ∷ prices) w h =
      let changed = changed_prices feq source settings w.service (p ∷ prices) in
      let self = note_changes feq source settings env (p ∷ prices) changed w.service in
      let ready = note_changes-IsReady (p ∷ prices) changed w.service (p ∷ prices) (λ t c. c) h in
      let w' = record w { service = self } in
      remember_ok (p ∷ prices) (gather feq source settings env (p ∷ prices) changed w') (
        gather_ok (p ∷ prices) changed w' ready
          (unfold changed_prices in select-All (IsReady self) _ (p ∷ prices) ready))
