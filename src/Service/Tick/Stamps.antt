-- ===== src/Service/Tick/Stamps.antt =====
-- What `effective_at` means: the time at which a price was first seen at its current value.
use ticker_watch_case_study.Base.{
  Bool, ◌≡◌, refl, ap, ◌∙◌, List, [], ◌∷◌, arith, Option, none, some, contains, if◌then◌else◌,
}
use ticker_watch_case_study.Base.Dict.{
  Dict, keys, lookup, insert, lookup-insert, set_default, lookup-set_default,
}
use ticker_watch_case_study.Base.Text.{Text, text_key}
use ticker_watch_case_study.Base.Result.{ok, raised, Outcome}
use ticker_watch_case_study.Settings.{Settings}
use ticker_watch_case_study.Time.{Instant}
use ticker_watch_case_study.Sources.{PriceSource}
use ticker_watch_case_study.Service.{Service, World, Env}
use ticker_watch_case_study.Service.Writers.{write_cache, write_postgres, publish}
use ticker_watch_case_study.Service.Tick.{
  stamp_all, stamp_new, note_changes, gather, remember, handle_prices, changed_prices,
}

lookup-stamp_all :
    (now : Instant) (t : Text) (ts : List Text) (m : Dict Text Instant)
    → lookup t (stamp_all now ts m) ≡ (if contains t ts then some now else lookup t m)
unfolding stamp_all contains
lookup-stamp_all now t [] m = refl
lookup-stamp_all now t (x ∷ ts) m =
    ground (arith, lookup-stamp_all now t ts (insert x now m), lookup-insert x t now m)

-- the stamp that is there, or else the time of this tick
abbrev pub or_now : Option Instant → Bool → Instant → Option Instant
or_now (some a) received now = some a
or_now none received now = if received then some now else none

lookup-stamp_new :
    (now : Instant) (t : Text) (ts : List Text) (m : Dict Text Instant)
    → lookup t (stamp_new now ts m) ≡ or_now (lookup t m) (contains t ts) now
unfolding stamp_new contains
lookup-stamp_new now t [] m = ground arith
lookup-stamp_new now t (x ∷ ts) m =
    ground (arith, lookup-stamp_new now t ts (set_default x now m), lookup-set_default x t now m)

module _ {F S : Type 0} (feq : F → F → Bool) (source : PriceSource F S) (settings : Settings) where
  -- the stamp of one ticker after a tick that read `prices`
  abbrev pub stamp_after :
      Env F → Dict Text F → Dict Text F → Text → Option Instant → Option Instant
  stamp_after env prices changed t before =
      if contains t (keys changed)
      then some env.now
      else or_now before (contains t (keys prices)) env.now

  pub lookup-note_changes :
      (env : Env F) (prices changed : Dict Text F) (self : Service F) (t : Text)
      → lookup t (note_changes feq source settings env prices changed self).effective_at
        ≡ stamp_after env prices changed t (lookup t self.effective_at)
  unfolding note_changes
  lookup-note_changes env prices changed self t = ground (
    arith,
    lookup-stamp_new env.now t (keys prices) (stamp_all env.now (keys changed) self.effective_at),
    lookup-stamp_all env.now t (keys changed) self.effective_at,
  )

  remember-effective_at :
      (prices : Dict Text F) (r : Outcome × World F S)
      → (remember feq source settings prices r).1.service.effective_at ≡ r.1.service.effective_at
  unfolding remember
  remember-effective_at prices (ok u, w) = refl
  remember-effective_at prices (raised e, w) = refl

  gather-effective_at :
      (env : Env F) (prices changed : Dict Text F) (w : World F S)
      → (gather feq source settings env prices changed w).1.service.effective_at
        ≡ w.service.effective_at
  unfolding gather write_cache write_postgres publish
  gather-effective_at env prices changed w = refl

  -- After the prices of a tick are handled, whatever fails, a ticker whose price changed is stamped
  -- with the time of the tick; another keeps its stamp, and has the time of the tick if it has a
  -- price and had no stamp.
  pub handle_prices_stamps :
      (env : Env F) (p : Text × F) (prices : Dict Text F) (w : World F S) (t : Text)
      → lookup t (handle_prices feq source settings env (ok (p ∷ prices), w)).1.service.effective_at
        ≡ stamp_after env
            (p ∷ prices)
            (changed_prices feq source settings w.service (p ∷ prices))
            t
            (lookup t w.service.effective_at)
  unfolding handle_prices
  handle_prices_stamps env p prices w t =
      let changed = changed_prices feq source settings w.service (p ∷ prices) in
      let self = note_changes feq source settings env (p ∷ prices) changed w.service in
      let w' = record w { service = self } in
      ap (lookup t) (
        remember-effective_at (p ∷ prices) (gather feq source settings env (p ∷ prices) changed w')
        ∙ gather-effective_at env (p ∷ prices) changed w')
      ∙ lookup-note_changes env (p ∷ prices) changed w.service t
