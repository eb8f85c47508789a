-- ===== src/Service/Tick/Staleness.antt =====
-- A price that does not move is neither written to Postgres nor published again, also when the write
-- of its last change failed.
use mathlib.Core.Path.{subst}
use ticker_watch_case_study.Base.{
  Bool, true, false, ◌≡◌, refl, sym, ap, ◌∙◌, List, [], ◌∷◌, All, arith, Option, none, contains,
  select, Distinct,
}
use ticker_watch_case_study.Base.Dict.{Dict, keys, lookup, insert, update, lookup-insert}
use ticker_watch_case_study.Base.Text.{Text, text_key}
use ticker_watch_case_study.Base.Result.{Error, Result, ok, raised, Outcome, refused}
use ticker_watch_case_study.Settings.{Settings, Transport, poll, push}
use ticker_watch_case_study.Sources.{PriceSource}
use ticker_watch_case_study.Service.{Service, World, Env}
use ticker_watch_case_study.Securities.{Securities}
use ticker_watch_case_study.Prices.{NewPrice}
use ticker_watch_case_study.Service.Writers.{
  write_cache, write_postgres, publish, postgres_step, publish_step, postgres_plan, publish_plan,
  send_upsert,
}
use ticker_watch_case_study.Service.Tick.{
  note_changes, gather, remember, handle_prices, changed_prices, differs,
}

module _ {F S : Type 0} (feq : F → F → Bool) (source : PriceSource F S) (settings : Settings) where
  -- the price published last is the same, as `==` has it
  abbrev pub IsQuiet : Dict Text F → Text × F → Type 0
  IsQuiet last e = differs feq source settings last e ≡ false

  changed_prices_quiet :
      (self : Service F) (prices : Dict Text F)
      → All (IsQuiet self.last_published) prices
      → changed_prices feq source settings self prices ≡ []
  unfolding changed_prices select
  changed_prices_quiet self [] h = refl
  changed_prices_quiet self (e ∷ prices) h =
      ground (arith, h.0, changed_prices_quiet self prices h.1)

  pub remember_stores :
      (prices : Dict Text F) (r : Outcome × World F S)
      → ((remember feq source settings prices r).1.latest_prices ≡ r.1.latest_prices)
        × ((remember feq source settings prices r).1.sent ≡ r.1.sent)
  unfolding remember
  remember_stores prices (ok u, w) = (refl, refl)
  remember_stores prices (raised e, w) = (refl, refl)

  publish_plan-nil :
      (name : Text) (transport : Transport) (self : Service F)
      → publish_plan name transport self [] ≡ none
  unfolding publish_plan
  publish_plan-nil name poll self = refl
  publish_plan-nil name push self = refl

  gather_quiet :
      (env : Env F) (prices : Dict Text F) (w : World F S)
      → ((gather feq source settings env prices [] w).1.latest_prices ≡ w.latest_prices)
        × ((gather feq source settings env prices [] w).1.sent ≡ w.sent)
  unfolding gather write_cache write_postgres publish postgres_plan postgres_step publish_step
  gather_quiet env prices w = (refl, rw publish_plan-nil)

  -- When every price that a tick read is the one published last, Postgres and the broker are left
  -- alone, whatever the environment does.
  pub handle_prices_quiet :
      (env : Env F) (prices : Dict Text F) (w : World F S)
      → All (IsQuiet w.service.last_published) prices
      → ((handle_prices feq source settings env (ok prices, w)).1.latest_prices ≡ w.latest_prices)
        × ((handle_prices feq source settings env (ok prices, w)).1.sent ≡ w.sent)
  unfolding handle_prices
  handle_prices_quiet env [] w h = (refl, refl)
  handle_prices_quiet env (p ∷ prices) w h =
      let self = note_changes feq source settings env (p ∷ prices) [] w.service in
      let w' = record w { service = self } in
      let r = gather feq source settings env (p ∷ prices) [] w' in
      let (a, b) = remember_stores (p ∷ prices) r in
      let (c, d) = gather_quiet env (p ∷ prices) w' in
      rw (changed_prices_quiet w.service (p ∷ prices) h) (a ∙ c, b ∙ d)

  lookup-update_absent :
      (t : Text) (prices m : Dict Text F)
      → contains t (keys prices) ≡ false
      → lookup t (update prices m) ≡ lookup t m
  unfolding update contains
  lookup-update_absent t [] m h = refl
  lookup-update_absent t ((k, p) ∷ prices) m h =
      ground (arith, lookup-update_absent t prices (insert k p m), lookup-insert k t p m)

  -- a price that is equal to itself, as every float but a NaN is
  abbrev pub IsNumber : Text × F → Type 0
  IsNumber e = feq e.1 e.1 ≡ true

  -- a price is quiet right after it is remembered, unless it is a NaN
  update-IsQuiet :
      (prices m : Dict Text F)
      → Distinct (keys prices)
      → All IsNumber prices
      → All (IsQuiet (update prices m)) prices
  unfolding update
  update-IsQuiet [] m d r = tt
  update-IsQuiet ((k, p) ∷ prices) m d r = (
    unfold differs in
        ground (
          arith,
          lookup-update_absent k prices (insert k p m) d.0,
          lookup-insert k k p m,
          text_key.test_iff k k,
          r.0,
        ),
    update-IsQuiet prices (insert k p m) d.1 r.1,
  )

  pub remember-last_published :
      (prices : Dict Text F) (r : Outcome × World F S)
      → (remember feq source settings prices r).0 ≡ ok tt
      → (remember feq source settings prices r).1.service.last_published
        ≡ update prices r.1.service.last_published
  unfolding remember
  remember-last_published prices (ok u, w) h = refl
  remember-last_published prices (raised e, w) h = cc

  postgres_step_refused :
      (env : Env F) (e : Error) (securities : Securities)
      (plan : Option (Result (List (NewPrice F)))) (w : World F S)
      → env.fate ≡ refused e
      → (postgres_step settings env securities plan w.latest_prices w.service.stats).2
        ≡ w.latest_prices
  unfolding postgres_step send_upsert
  postgres_step_refused env e securities plan w h = ground arith

  gather_refused :
      (env : Env F) (e : Error) (prices changed : Dict Text F) (w : World F S)
      → env.fate ≡ refused e
      → (gather feq source settings env prices changed w).1.latest_prices ≡ w.latest_prices
  unfolding gather write_postgres publish postgres_step write_cache
  gather_refused env e prices changed w h =
      let w1 = (write_cache settings source.name env prices w).1 in
      postgres_step_refused env e w.securities (postgres_plan source.name w1.service changed) w1 h
      ∙ refl

  -- A tick whose upsert Postgres refuses leaves the table as it was; and when the next tick reads
  -- the same prices, the table stays so, even if Postgres answers again. This holds for prices of
  -- distinct tickers that are no NaNs, and a tick that ends without an exception.
  pub refused_upsert_not_retried :
      (env env' : Env F) (e : Error) (p : Text × F) (prices : Dict Text F) (w w1 : World F S)
      → env.fate ≡ refused e
      → Distinct (keys (p ∷ prices))
      → All IsNumber (p ∷ prices)
      → handle_prices feq source settings env (ok (p ∷ prices), w) ≡ (ok tt, w1)
      → (w1.latest_prices ≡ w.latest_prices)
        × ((handle_prices feq source settings env' (ok (p ∷ prices), w1)).1.latest_prices
            ≡ w.latest_prices)
  refused_upsert_not_retried env env' e p prices w w1 fate distinct numbers ended =
      let changed = changed_prices feq source settings w.service (p ∷ prices) in
      let w' = record w {
        service = note_changes feq source settings env (p ∷ prices) changed w.service;
      } in
      let r = gather feq source settings env (p ∷ prices) changed w' in
      let same : remember feq source settings (p ∷ prices) r ≡ (ok tt, w1) =
        unfold handle_prices in ended in
      let table : w1.latest_prices ≡ w.latest_prices =
        ap (λ (x : Outcome × World F S). x.1.latest_prices) (sym same)
        ∙ (remember_stores (p ∷ prices) r).0
        ∙ gather_refused env e (p ∷ prices) changed w' fate in
      let last : w1.service.last_published ≡ update (p ∷ prices) r.1.service.last_published =
        ap (λ (x : Outcome × World F S). x.1.service.last_published) (sym same)
        ∙ remember-last_published (p ∷ prices) r (ap (λ (x : Outcome × World F S). x.0) same) in
      let quiet : All (IsQuiet w1.service.last_published) (p ∷ prices) =
        subst (λ (m : Dict Text F). All (IsQuiet m) (p ∷ prices)) (sym last)
          (update-IsQuiet (p ∷ prices) r.1.service.last_published distinct numbers) in
      (table, (handle_prices_quiet env' (p ∷ prices) w1 quiet).0 ∙ table)
