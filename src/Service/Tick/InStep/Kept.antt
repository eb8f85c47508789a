-- ===== src/Service/Tick/InStep/Kept.antt =====
-- One tick keeps what is remembered in step with `latest_prices`.
use mathlib.Core.Path.{subst}
use ticker_watch_case_study.Base.{
  ℕ, ◌≡◌, ◌≤◌, ◌<◌, refl, sym, ap, ◌∙◌, Bool, true, none, some, arith, nat_key, ltb, Option-cases,
  Bool-cases, inl, inr,
}
use ticker_watch_case_study.Base.Dict.{Dict, lookup}
use ticker_watch_case_study.Base.Dict.Members.{lookup-update, lookup-All, contains-keys}
use ticker_watch_case_study.Base.Text.{Text, text_key}
use ticker_watch_case_study.Settings.{Settings}
use ticker_watch_case_study.Time.{Instant}
use ticker_watch_case_study.Sources.{PriceSource}
use ticker_watch_case_study.Prices.{PriceRow, row_of}
use ticker_watch_case_study.Prices.Upsert.{newest}
use ticker_watch_case_study.Service.{World, Env}
use ticker_watch_case_study.Service.Writers.Proposed.{proposal}
use ticker_watch_case_study.Service.Tick.{changed_prices, differs}
use ticker_watch_case_study.Service.Tick.Staleness.{IsNumber}
use ticker_watch_case_study.Service.Tick.InStep.{IsStored, IsInStep, AreQuotes}
use ticker_watch_case_study.Service.Tick.InStep.Effect.{Effect, lookup-changed_prices}

module _ {F S : Type 0} (feq : F → F → Bool) (source : PriceSource F S) (settings : Settings) where
  module _ (env : Env F) (prices : Dict Text F) (w after : World F S) (clock : Instant)
      (later : clock < env.now) (good : IsInStep feq source settings clock w)
      (quotes : AreQuotes feq source settings w.service.ticker_to_id prices)
      (effect : Effect feq source settings env prices w after) where
    abbrev changed : Dict Text F
    changed = changed_prices feq source settings w.service prices

    -- a ticker whose price did not change keeps its row and its stamp
    kept :
        (t : Text) (id : ℕ) (price : F)
        → lookup t w.service.ticker_to_id ≡ some id
        → lookup t changed ≡ none
        → IsStored feq source settings w t id price
        → IsStored feq source settings after t id price
    kept t id price here same (row, there, equal, stamp) =
        let stamped : lookup t after.service.effective_at ≡ some row.effective_at =
          effect.stamp t ∙ rw (contains-keys t changed, same, stamp) refl in
        (row, effect.same t id here same ∙ there, equal, stamped)

    -- the row that a changed price leaves is the new one, since its time is the latest
    newest_row :
        (t : Text) (id : ℕ) (price : F)
        → lookup t w.service.ticker_to_id ≡ some id
        → newest w.securities env.postgres_now
            (proposal source.name w.service id price env.now)
            (lookup id w.latest_prices)
          ≡ row_of env.postgres_now (proposal source.name w.service id price env.now)
    unfolding newest
    newest_row t id price here = elim (Option-cases (lookup id w.latest_prices)) [
      | inl absent ↦ rw absent refl
      | inr (old, present) ↦
          let older : ltb old.effective_at env.now ≡ true =
            ground (arith, good.past t id old here present, later) in
          rw (present, older) refl
    ]

    fresh :
        (t : Text) (id : ℕ) (price : F)
        → lookup t w.service.ticker_to_id ≡ some id
        → lookup t prices ≡ some price
        → lookup t changed ≡ some price
        → IsStored feq source settings after t id price
    fresh t id price here read new =
        let number = lookup-All (IsNumber feq source settings) t price prices read quotes.numbers in
        let stamped : lookup t after.service.effective_at ≡ some env.now =
          effect.stamp t ∙ rw (contains-keys t changed, new) refl in
        (
          row_of env.postgres_now (proposal source.name w.service id price env.now),
          effect.row t id price env.now here stamped new ∙ ap some (newest_row t id price here),
          unfold row_of in number,
          unfold row_of in stamped,
        )

    past_after :
        (t : Text) (id : ℕ) (row : PriceRow F)
        → lookup t after.service.ticker_to_id ≡ some id
        → lookup id after.latest_prices ≡ some row
        → row.effective_at ≤ env.now
    past_after t id row here there =
        let here' : lookup t w.service.ticker_to_id ≡ some id =
          sym (ap (lookup t) effect.ids) ∙ here in
        elim (Option-cases (lookup t changed)) [
          | inl same ↦
              let old = good.past t id row here' (sym (effect.same t id here' same) ∙ there) in
              omega (arith, old, later)
          | inr (price, new) ↦
              let stamped : lookup t after.service.effective_at ≡ some env.now =
                effect.stamp t ∙ rw (contains-keys t changed, new) refl in
              let e : some
                    (row_of env.postgres_now (proposal source.name w.service id price env.now))
                  ≡ some row =
                sym (ap some (newest_row t id price here'))
                ∙ sym (effect.row t id price env.now here' stamped new)
                ∙ there in
              unfold row_of in ground (arith, e)
        ]

    module _ (transitive : (a b c : F) → feq a b ≡ true → feq b c ≡ true → feq a c ≡ true) where
      after-IsStored :
          (t : Text) (id : ℕ) (price : F)
          → lookup t after.service.ticker_to_id ≡ some id
          → lookup t after.service.last_published ≡ some price
          → IsStored feq source settings after t id price
      unfolding differs
      after-IsStored t id price listed h =
          let last = w.service.last_published in
          let here : lookup t w.service.ticker_to_id ≡ some id =
            sym (ap (lookup t) effect.ids) ∙ listed in
          let h' =
            sym (lookup-update t prices last quotes.distinct)
            ∙ sym (ap (lookup t) effect.published)
            ∙ h in
          elim (Option-cases (lookup t prices)) [
            | inl absent ↦
                kept t id price here
                  (lookup-changed_prices feq source settings w.service prices t quotes.distinct
                    ∙ rw absent refl)
                  (good.stored t id price here (ground (arith, h', absent)))
            | inr (q, read) ↦
                let q_price : q ≡ price = ground (arith, h', read) in
                subst (IsStored feq source settings after t id) q_price
                  (elim (Option-cases (lookup t last)) [
                    | inl unseen ↦ fresh t id q here read (
                        lookup-changed_prices feq source settings w.service prices t quotes.distinct
                        ∙ rw (read, differs, unseen) refl)
                    | inr (old, seen) ↦ elim (Bool-cases (feq old q)) [
                      | inr moved ↦ fresh t id q here read (
                          lookup-changed_prices feq source settings w.service prices t
                            quotes.distinct
                          ∙ rw (read, differs, seen, moved) refl)
                      | inl still ↦
                          let (row, there, equal, stamp) =
                            kept t id old here
                              (lookup-changed_prices feq source settings w.service prices t
                                  quotes.distinct
                                ∙ rw (read, differs, seen, still) refl)
                              (good.stored t id old here seen) in
                          (row, there, transitive row.price old q equal still, stamp)
                    ]
                  ])
          ]

      -- the effect of a tick keeps the service in step
      pub effect-IsInStep : IsInStep feq source settings env.now after
      effect-IsInStep = record {
        stored = after-IsStored;
        past = past_after;
        apart = λ t u id a b.
            good.apart t u id (sym (ap (lookup t) effect.ids) ∙ a)
              (sym (ap (lookup u) effect.ids) ∙ b);
        known = λ t id a.
            let (s, here) = good.known t id (sym (ap (lookup t) effect.ids) ∙ a) in
            (s, ap (lookup id) effect.catalog ∙ here);
      }
