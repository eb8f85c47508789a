-- ===== src/Service/Tick/InStep/Effect.antt =====
-- The effect of one tick on the names, the stamps, what is remembered and the stored rows.
use ticker_watch_case_study.Base.{
  ℕ, ◌≡◌, refl, sym, ap, ◌∙◌, Bool, none, some, List, ◌∷◌, nat_key, Distinct, if◌then◌else◌,
}
use ticker_watch_case_study.Base.Dict.{Dict, keys, lookup, update}
use ticker_watch_case_study.Base.Dict.Members.{lookup-select, contains-keys, select-keys_Distinct}
use ticker_watch_case_study.Base.Text.{Text, text_key}
use ticker_watch_case_study.Base.Result.{ok, raised, Outcome, done}
use ticker_watch_case_study.Settings.{Settings}
use ticker_watch_case_study.Time.{Instant}
use ticker_watch_case_study.Sources.{PriceSource}
use ticker_watch_case_study.Prices.{NewPrice}
use ticker_watch_case_study.Prices.Upsert.{newest, newest_of}
use ticker_watch_case_study.Service.{Service, World, Env}
use ticker_watch_case_study.Service.Writers.{rows, write_cache, write_postgres, publish}
use ticker_watch_case_study.Service.Writers.Proposed.{proposal, newest_of-rows, newest_of-others}
use ticker_watch_case_study.Service.Writers.Totals.{IsForeseen, IsReady}
use ticker_watch_case_study.Service.Writers.Upserted.{upserted}
use ticker_watch_case_study.Service.Tick.{
  note_changes, gather, remember, handle_prices, changed_prices, differs,
}
use ticker_watch_case_study.Service.Tick.Stamps.{
  lookup-note_changes, stamp_after, handle_prices_stamps,
}
use ticker_watch_case_study.Service.Tick.Ends.{handle_prices_ok, note_changes-IsReady, select-All}
use ticker_watch_case_study.Service.Tick.Staleness.{remember_stores, remember-last_published}
use ticker_watch_case_study.Service.Tick.InStep.{IsInStep, AreQuotes}

module _ {F S : Type 0} (feq : F → F → Bool) (source : PriceSource F S) (settings : Settings) where
  -- the changed price of a ticker is the one that was read, if it differs from the remembered one
  pub lookup-changed_prices :
      (self : Service F) (prices : Dict Text F) (t : Text)
      → Distinct (keys prices)
      → lookup t (changed_prices feq source settings self prices) ≡ (elim (lookup t prices) [
        | none ↦ none
        | some q ↦ if differs feq source settings self.last_published (t, q) then some q else none
      ])
  unfolding changed_prices
  lookup-changed_prices self prices t distinct =
      lookup-select t (differs feq source settings self.last_published) prices distinct

  -- what a tick that reads `prices` does to the names, to what is remembered and to the stored rows
  pub record Effect (env : Env F) (prices : Dict Text F) (w after : World F S) : Type 0 where
    pub ids : after.service.ticker_to_id ≡ w.service.ticker_to_id
    pub catalog : after.securities ≡ w.securities
    pub upstream : after.service.upstream_prices ≡ w.service.upstream_prices
    pub published : after.service.last_published ≡ update prices w.service.last_published
    pub stamp :
        (t : Text)
        → lookup t after.service.effective_at
          ≡ stamp_after feq source settings env prices
              (changed_prices feq source settings w.service prices)
              t
              (lookup t w.service.effective_at)
    pub row :
        (t : Text) (id : ℕ) (price : F) (at : Instant)
        → lookup t w.service.ticker_to_id ≡ some id
        → lookup t after.service.effective_at ≡ some at
        → lookup t (changed_prices feq source settings w.service prices) ≡ some price
        → lookup id after.latest_prices
          ≡ some (
              newest w.securities env.postgres_now
                (proposal source.name w.service id price at)
                (lookup id w.latest_prices))
    pub same :
        (t : Text) (id : ℕ)
        → lookup t w.service.ticker_to_id ≡ some id
        → lookup t (changed_prices feq source settings w.service prices) ≡ none
        → lookup id after.latest_prices ≡ lookup id w.latest_prices

  remember_names :
      (prices : Dict Text F) (r : Outcome × World F S)
      → ((remember feq source settings prices r).1.service.ticker_to_id ≡ r.1.service.ticker_to_id)
        × ((remember feq source settings prices r).1.securities ≡ r.1.securities)
  unfolding remember
  remember_names prices (ok u, w) = (refl, refl)
  remember_names prices (raised e, w) = (refl, refl)

  gather_names :
      (env : Env F) (prices changed : Dict Text F) (w : World F S)
      → ((gather feq source settings env prices changed w).1.service.ticker_to_id
          ≡ w.service.ticker_to_id)
        × ((gather feq source settings env prices changed w).1.securities ≡ w.securities)
        × ((gather feq source settings env prices changed w).1.service.last_published
            ≡ w.service.last_published)
  unfolding gather write_cache write_postgres publish
  gather_names env prices changed w = (refl, refl, refl)

  remember-upstream_prices :
      (prices : Dict Text F) (r : Outcome × World F S)
      → (remember feq source settings prices r).1.service.upstream_prices
        ≡ r.1.service.upstream_prices
  unfolding remember
  remember-upstream_prices prices (ok u, w) = refl
  remember-upstream_prices prices (raised e, w) = refl

  gather-upstream_prices :
      (env : Env F) (prices changed : Dict Text F) (w : World F S)
      → (gather feq source settings env prices changed w).1.service.upstream_prices
        ≡ w.service.upstream_prices
  unfolding gather write_cache write_postgres publish
  gather-upstream_prices env prices changed w = refl

  module _ (env : Env F) (answered : env.fate ≡ done) (foreseen : IsForeseen env) (p : Text × F)
      (rest : Dict Text F) (w : World F S) (clock : Instant)
      (good : IsInStep feq source settings clock w)
      (quotes : AreQuotes feq source settings w.service.ticker_to_id (p ∷ rest)) where
    abbrev prices : Dict Text F
    prices = p ∷ rest

    abbrev after : World F S
    after = (handle_prices feq source settings env (ok prices, w)).1

    abbrev changed : Dict Text F
    changed = changed_prices feq source settings w.service prices

    abbrev noted : World F S
    noted = record w { service = note_changes feq source settings env prices changed w.service }

    after_names :
        (after.service.ticker_to_id ≡ w.service.ticker_to_id) × (after.securities ≡ w.securities)
    unfolding handle_prices note_changes
    after_names =
        let r = gather feq source settings env prices changed noted in
        let (a, b) = remember_names prices r in
        let (c, d, e) = gather_names env prices changed noted in (a ∙ c, b ∙ d)

    after_upstream : after.service.upstream_prices ≡ w.service.upstream_prices
    unfolding handle_prices note_changes
    after_upstream =
        remember-upstream_prices prices (gather feq source settings env prices changed noted)
        ∙ gather-upstream_prices env prices changed noted

    after_published : after.service.last_published ≡ update prices w.service.last_published
    unfolding handle_prices note_changes
    after_published =
        let r = gather feq source settings env prices changed noted in
        let ended = handle_prices_ok feq source settings env foreseen prices w quotes.listed in
        let (c, d, e) = gather_names env prices changed noted in
        remember-last_published feq source settings prices r ended ∙ ap (update prices) e

    after_stamp :
        (t : Text)
        → lookup t after.service.effective_at
          ≡ stamp_after feq source settings env prices changed t (lookup t w.service.effective_at)
    after_stamp t = handle_prices_stamps feq source settings env p rest w t

    -- the service when Postgres is written
    abbrev writing : Service F
    writing = (write_cache settings source.name env prices noted).1.service

    after_rows :
        (rs : List (NewPrice F)) × (rows source.name writing changed ≡ ok rs)
        × ((id : ℕ)
            → lookup id after.latest_prices
              ≡ newest_of w.securities env.postgres_now id rs (lookup id w.latest_prices))
    unfolding handle_prices gather write_cache write_postgres publish note_changes changed_prices
    after_rows =
        let r = gather feq source settings env prices changed noted in
        let ready =
          select-All feq source settings env foreseen (IsReady noted.service)
            (differs feq source settings w.service.last_published) prices
            (note_changes-IsReady feq source settings env foreseen prices changed w.service prices
              (λ t c. c) quotes.listed) in
        let (rs, built, result) =
          upserted settings env source.name writing w.securities good.apart good.known answered
            changed w.latest_prices writing.stats ready
            (select-keys_Distinct (differs feq source settings w.service.last_published) prices
              quotes.distinct) in
        (
          rs,
          built,
          λ id. ap (lookup id) (remember_stores feq source settings prices r).0 ∙ result id,
        )

    after_row :
        (t : Text) (id : ℕ) (price : F) (at : Instant)
        → lookup t w.service.ticker_to_id ≡ some id
        → lookup t after.service.effective_at ≡ some at
        → lookup t changed ≡ some price
        → lookup id after.latest_prices
          ≡ some (
              newest w.securities env.postgres_now
                (proposal source.name writing id price at)
                (lookup id w.latest_prices))
    unfolding write_cache note_changes changed_prices
    after_row t id price at here stamp new =
        let (rs, built, result) = after_rows in
        let stamped : lookup t noted.service.effective_at ≡ some at =
          lookup-note_changes feq source settings env prices changed w.service t
          ∙ sym (after_stamp t)
          ∙ stamp in
        result id
        ∙ newest_of-rows source.name writing w.securities env.postgres_now good.apart t id at
            changed rs (lookup id w.latest_prices) built here stamped
            (select-keys_Distinct (differs feq source settings w.service.last_published) prices
              quotes.distinct)
        ∙ rw new refl

    same_row :
        (t : Text) (id : ℕ)
        → lookup t w.service.ticker_to_id ≡ some id
        → lookup t changed ≡ none
        → lookup id after.latest_prices ≡ lookup id w.latest_prices
    unfolding write_cache note_changes
    same_row t id here same =
        let (rs, built, result) = after_rows in
        result id
        ∙ newest_of-others source.name writing w.securities env.postgres_now good.apart t id changed
            rs (lookup id w.latest_prices) built here (contains-keys t changed ∙ rw same refl)

    -- a tick whose upsert is answered has this effect
    pub handle_prices-Effect : Effect env prices w after
    handle_prices-Effect = record {
      ids = after_names.0;
      catalog = after_names.1;
      upstream = after_upstream;
      published = after_published;
      stamp = after_stamp;
      row = after_row;
      same = same_row;
    }
