-- ===== src/Service/Tick/Coherent/Kept.antt =====
-- One tick keeps the cache coherent with what the service remembers.
use mathlib.Core.Path.{subst}
use ticker_watch_case_study.Base.{
  ℕ, ◌≡◌, ◌∙◌, ◌≤◌, ◌<◌, refl, ap, sym, true, Bool, some, none, arith, contains, Option-cases,
  Bool-cases, inl, inr,
}
use ticker_watch_case_study.Base.Dict.{Dict, keys, lookup}
use ticker_watch_case_study.Base.Dict.Members.{lookup-update, lookup-All, contains-keys}
use ticker_watch_case_study.Base.Text.{Text, text_key}
use ticker_watch_case_study.Settings.{Settings}
use ticker_watch_case_study.Time.{Instant}
use ticker_watch_case_study.Time.Order.{InRange}
use ticker_watch_case_study.Sources.{PriceSource}
use ticker_watch_case_study.Cache.{Slot, dumps, price_key}
use ticker_watch_case_study.Cache.Slots.{price_key_injective}
use ticker_watch_case_study.Service.{World, Env}
use ticker_watch_case_study.Service.Tick.{changed_prices, differs}
use ticker_watch_case_study.Service.Tick.Staleness.{IsNumber}
use ticker_watch_case_study.Service.Tick.InStep.{AreQuotes}
use ticker_watch_case_study.Service.Tick.InStep.Effect.{Effect, lookup-changed_prices}
use ticker_watch_case_study.Service.Tick.Coherent.{IsCurrent, IsCoherent, IsCached}

module _ {F S : Type 0} (feq : F → F → Bool) (source : PriceSource F S) (settings : Settings)
    (transitive : (a b c : F) → feq a b ≡ true → feq b c ≡ true → feq a c ≡ true) (env : Env F)
    (prices : Dict Text F) (w after : World F S) (clock : Instant) (later : clock < env.now)
    (dated : InRange env.now) (good : IsCoherent feq source settings clock w)
    (quotes : AreQuotes feq source settings w.service.ticker_to_id prices)
    (effect : Effect feq source settings env prices w after)
    (cached : IsCached feq source settings prices w after) where
  abbrev changed : Dict Text F
  changed = changed_prices feq source settings w.service prices

  stamps_after :
      (t : Text) (at : Instant)
      → lookup t after.service.effective_at ≡ some at
      → (at ≤ env.now) × InRange at
  stamps_after t at h = elim (Option-cases (lookup t w.service.effective_at)) [
    | inl absent ↦
        let e : env.now ≡ at = ground (arith, h, effect.stamp t, absent) in
        (omega (arith, e), subst InRange e dated)
    | inr (old, present) ↦ elim (Bool-cases (contains t (keys changed))) [
      | inl new ↦
          let e : env.now ≡ at = ground (arith, h, effect.stamp t, new) in
          (omega (arith, e), subst InRange e dated)
      | inr same ↦
          let e : old ≡ at = ground (arith, h, effect.stamp t, present, same) in
          let (past, in_range) = good.stamps t old present in
          (omega (arith, e, past, later), subst InRange e in_range)
    ]
  ]

  -- a stamp that is not past the clock is the stamp that was there
  same_stamp :
      (t : Text) (b : Instant)
      → b ≤ clock
      → lookup t after.service.effective_at ≡ some b
      → (lookup t changed ≡ none) × (lookup t w.service.effective_at ≡ some b)
  same_stamp t b past h = elim (Option-cases (lookup t changed)) [
    | inr (price, new) ↦
        let e : env.now ≡ b = ground (arith, h, effect.stamp t, contains-keys t changed, new) in
        absurd (omega (arith, e, past, later))
    | inl same ↦ elim (Option-cases (lookup t w.service.effective_at)) [
      | inl absent ↦
          let e : env.now ≡ b = ground (arith, h, effect.stamp t, absent) in
          absurd (omega (arith, e, past, later))
      | inr (old, present) ↦ (
        same,
        present ∙ (ground (arith, h, effect.stamp t, contains-keys t changed, same, present)),
      )
    ]
  ]

  -- an unchanged price is, as `==` has it, the one that was remembered
  same_price :
      (t : Text) (price : F)
      → lookup t changed ≡ none
      → lookup t after.service.last_published ≡ some price
      → (old : F) × (lookup t w.service.last_published ≡ some old)
        × ((q : F) → feq q old ≡ true → feq q price ≡ true)
  unfolding differs
  same_price t price same h =
      let last = w.service.last_published in
      let h' =
        sym (lookup-update t prices last quotes.distinct)
        ∙ sym (ap (lookup t) effect.published)
        ∙ h in
      let c =
        sym (lookup-changed_prices feq source settings w.service prices t quotes.distinct) ∙ same in
      elim (Option-cases (lookup t prices)) [
        | inl absent ↦ (price, ground (arith, h', absent), λ q e. e)
        | inr (p, read) ↦
            let p_price : p ≡ price = ground (arith, h', read) in
            elim (Option-cases (lookup t last)) [
              | inl unseen ↦ absurd (ground (arith, c, read, unseen))
              | inr (old, seen) ↦
                  let still : feq old p ≡ true = ground (arith, c, read, seen) in
                  (
                    old,
                    seen,
                    λ q e. subst (λ (x : F). feq q x ≡ true) p_price (transitive q old p e still),
                  )
            ]
      ]

  slots_after :
      (t : Text) (id : ℕ) (slot : Slot F)
      → lookup t after.service.ticker_to_id ≡ some id
      → lookup (price_key t) after.redis ≡ some slot
      → IsCurrent feq source settings env.now after t id slot
  unfolding dumps
  slots_after t id slot here there =
      let listed : lookup t w.service.ticker_to_id ≡ some id =
        sym (ap (lookup t) effect.ids) ∙ here in
      elim (cached (price_key t) slot there) [
        | inl old ↦
            let (d, b, value, stamp, past, in_range, agrees) = good.slots t id slot listed old in
            (
              d,
              b,
              value,
              stamp,
              omega (arith, past, later),
              in_range,
              λ price published stamped.
                  let (same, before) = same_stamp t b past stamped in
                  let (p, remembered, close) = same_price t price same published in
                  let (of_id, (q, is, equal)) = agrees p remembered before in
                  (of_id, (q, is, close q equal)),
            )
        | inr (u, at, uid, p, key, stamped, known, read, value) ↦
            let u_t : u ≡ t = price_key_injective u t key in
            let (past, in_range) = stamps_after u at stamped in
            let number = lookup-All (IsNumber feq source settings) u p prices read quotes.numbers in
            (
              _,
              at,
              value,
              refl,
              past,
              in_range,
              λ price published again.
                  let updated : lookup t after.service.last_published ≡ some p =
                    ap (lookup t) effect.published
                    ∙ lookup-update t prices w.service.last_published quotes.distinct
                    ∙ rw (subst (λ (x : Text). lookup x prices ≡ some p) u_t read) refl in
                  let p_price : p ≡ price = ground (arith, updated, published) in
                  (
                    ap some (
                        ground (
                          arith,
                          subst (λ (x : Text). lookup x after.service.ticker_to_id ≡ some uid) u_t
                              known,
                          here,
                        )),
                    (p, refl, subst (λ (x : F). feq p x ≡ true) p_price number),
                  ),
            )
      ]

  -- the effect of a tick keeps the cache coherent
  pub effect-IsCoherent : IsCoherent feq source settings env.now after
  effect-IsCoherent = record { stamps = stamps_after; slots = slots_after }
