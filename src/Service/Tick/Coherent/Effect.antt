-- ===== src/Service/Tick/Coherent/Effect.antt =====
-- The effect of one tick on the slots of the cache.
use ticker_watch_case_study.Base.{
  ◌≡◌, ◌⊎◌, refl, sym, ap, ◌∙◌, Bool, some, ◌∷◌, All, Distinct, inl, inr,
}
use ticker_watch_case_study.Base.Dict.{Dict, keys, lookup}
use ticker_watch_case_study.Base.Dict.Members.{all_found}
use ticker_watch_case_study.Base.Text.{Text, text_key}
use ticker_watch_case_study.Base.Result.{ok, raised, Outcome, Result-cases}
use ticker_watch_case_study.Settings.{Settings}
use ticker_watch_case_study.Sources.{PriceSource}
use ticker_watch_case_study.Cache.{Slot, dumps}
use ticker_watch_case_study.Cache.Slots.{set_prices_if_newer_slot}
use ticker_watch_case_study.Service.{World, Env}
use ticker_watch_case_study.Service.Writers.{
  entries, cache_step, write_cache, write_postgres, publish,
}
use ticker_watch_case_study.Service.Writers.Cached.{IsEntry, entries-IsEntry}
use ticker_watch_case_study.Service.Tick.{
  note_changes, gather, remember, handle_prices, changed_prices,
}
use ticker_watch_case_study.Service.Tick.Coherent.{IsWritten, IsCached}

module _ {F S : Type 0} (feq : F → F → Bool) (source : PriceSource F S) (settings : Settings) where
  remember-redis :
      (prices : Dict Text F) (r : Outcome × World F S)
      → (remember feq source settings prices r).1.redis ≡ r.1.redis
  unfolding remember
  remember-redis prices (ok u, w) = refl
  remember-redis prices (raised e, w) = refl

  remember-held :
      (prices : Dict Text F) (r : Outcome × World F S)
      → ((remember feq source settings prices r).1.service.effective_at ≡ r.1.service.effective_at)
        × ((remember feq source settings prices r).1.service.ticker_to_id
            ≡ r.1.service.ticker_to_id)
  unfolding remember
  remember-held prices (ok u, w) = (refl, refl)
  remember-held prices (raised e, w) = (refl, refl)

  gather-held :
      (env : Env F) (prices changed : Dict Text F) (w : World F S)
      → ((gather feq source settings env prices changed w).1.service.effective_at
          ≡ w.service.effective_at)
        × ((gather feq source settings env prices changed w).1.service.ticker_to_id
            ≡ w.service.ticker_to_id)
        × ((gather feq source settings env prices changed w).1.redis
            ≡ (write_cache settings source.name env prices w).1.redis)
  unfolding gather write_cache write_postgres publish
  gather-held env prices changed w = (refl, refl, refl)

  -- the slots behind the cache writer
  write_cache_slot :
      (env : Env F) (prices : Dict Text F) (w : World F S) (k : Text) (slot : Slot F)
      → Distinct (keys prices)
      → lookup k (write_cache settings source.name env prices w).1.redis ≡ some slot
      → (lookup k w.redis ≡ some slot) ⊎ IsWritten feq source settings prices w k slot
  unfolding write_cache cache_step
  write_cache_slot env prices w k slot distinct h =
      elim (Result-cases (entries source.name w.service prices)) [
        | inr (e, failed) ↦ let h' = rw (cache_step, failed) at h in inl h'
        | inl (es, built) ↦
            let here : All (λ (e : Text × F). lookup e.0 prices ≡ some e.1) prices =
              all_found prices distinct in
            let h' = rw (cache_step, built) at h in
            let put = entries-IsEntry source.name w.service _ prices es here built in
            elim (set_prices_if_newer_slot
              (IsEntry source.name w.service (λ e. lookup e.0 prices ≡ some e.1)) env.link
              env.redis_clock settings.price_cache_ttl_seconds k es w.redis slot put h') [
                | inl old ↦ inl old
                | inr (e, (at, id, price, stamped, known, read, payload), key, value) ↦
                    inr
                      (e.ticker, at, id, price, key, stamped, known, read, value ∙ ap dumps payload)
              ]
      ]

  -- a tick leaves each slot alone or writes one of its prices there
  pub handle_prices-IsCached :
      (env : Env F) (p : Text × F) (rest : Dict Text F) (w : World F S)
      → Distinct (keys (p ∷ rest))
      → IsCached feq source settings
          (p ∷ rest)
          w
          (handle_prices feq source settings env (ok (p ∷ rest), w)).1
  unfolding handle_prices note_changes
  handle_prices-IsCached env p rest w distinct k slot h =
      let changed = changed_prices feq source settings w.service (p ∷ rest) in
      let noted = record w {
        service = note_changes feq source settings env (p ∷ rest) changed w.service;
      } in
      let r = gather feq source settings env (p ∷ rest) changed noted in
      let (held, listed) = remember-held (p ∷ rest) r in
      let (held', listed', redis) = gather-held env (p ∷ rest) changed noted in
      let h' = sym (ap (lookup k) (remember-redis (p ∷ rest) r ∙ redis)) ∙ h in
      elim (write_cache_slot env (p ∷ rest) noted k slot distinct h') [
        | inl old ↦ inl old
        | inr (t, at, id, price, key, stamped, known, read, value) ↦ inr (
          t,
          at,
          id,
          price,
          key,
          ap (lookup t) (held ∙ held') ∙ stamped,
          ap (lookup t) (listed ∙ listed') ∙ known,
          read,
          value,
        )
      ]
