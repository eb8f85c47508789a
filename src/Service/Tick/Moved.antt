-- ===== src/Service/Tick/Moved.antt =====
-- The stamps of a tick, said of the prices alone: what the service remembers and what it reads.
use ticker_watch_case_study.Base.{
  Bool, ◌≡◌, ◌∙◌, ◌∷◌, arith, Option, none, some, Distinct, if◌then◌else◌,
}
use ticker_watch_case_study.Base.Dict.{Dict, keys, lookup}
use ticker_watch_case_study.Base.Dict.Members.{contains-keys}
use ticker_watch_case_study.Base.Text.{Text, text_key}
use ticker_watch_case_study.Base.Result.{ok}
use ticker_watch_case_study.Settings.{Settings}
use ticker_watch_case_study.Time.{Instant}
use ticker_watch_case_study.Sources.{PriceSource}
use ticker_watch_case_study.Service.{World, Env}
use ticker_watch_case_study.Service.Tick.{handle_prices, changed_prices, differs}
use ticker_watch_case_study.Service.Tick.Stamps.{handle_prices_stamps}
use ticker_watch_case_study.Service.Tick.InStep.Effect.{lookup-changed_prices}

module _ {F S : Type 0} (feq : F → F → Bool) (source : PriceSource F S) (settings : Settings) where
  -- The stamp that a ticker is to have: by the price remembered of it, the price read, the stamp that
  -- it has, and the time.
  abbrev pub first_seen_at : Option F → Option F → Option Instant → Instant → Option Instant
  first_seen_at old none stamp now = stamp
  first_seen_at none (some q) stamp now = some now
  first_seen_at (some p) (some q) none now = some now
  first_seen_at (some p) (some q) (some a) now = if feq p q then some a else some now

  -- After a tick that reads some prices, one for each ticker, whatever fails in it: a ticker that was
  -- not read keeps its stamp; one whose price was not remembered, or compares as unequal to the
  -- remembered one, is stamped with the time of the tick; one whose price compares as equal keeps its
  -- stamp, and gets the time of the tick if it had none.
  pub handle_prices_moves :
      (env : Env F) (p : Text × F) (prices : Dict Text F) (w : World F S) (t : Text)
      → Distinct (keys (p ∷ prices))
      → lookup t (handle_prices feq source settings env (ok (p ∷ prices), w)).1.service.effective_at
        ≡ first_seen_at
            (lookup t w.service.last_published)
            (lookup t (p ∷ prices))
            (lookup t w.service.effective_at)
            env.now
  handle_prices_moves env p prices w t distinct =
      let changed = changed_prices feq source settings w.service (p ∷ prices) in
      handle_prices_stamps feq source settings env p prices w t
      ∙ rw
          (
            contains-keys t changed,
            contains-keys t (p ∷ prices),
            lookup-changed_prices feq source settings w.service (p ∷ prices) t distinct,
          )
          (unfold differs in ground arith)
