-- ===== src/Service/Tick/InStep.antt =====
-- What the service remembers and what `latest_prices` holds, in step with each other.
pub mod Effect
pub mod Kept
pub mod Run
use mathlib.Core.Path.{subst}
use ticker_watch_case_study.Base.{
  ℕ, ◌≡◌, ◌≤◌, ◌<◌, refl, sym, ap, ◌∙◌, Bool, true, false, Option, none, some, List, [], ◌∷◌, All,
  arith, Distinct, contains, nat_key, ltb, Option-cases, Bool-cases, inl, inr, if◌then◌else◌,
}
use ticker_watch_case_study.Base.Dict.{Dict, keys, lookup, update}
use ticker_watch_case_study.Base.Dict.Members.{
  lookup-update, lookup-select, lookup-All, contains-keys, select-keys_Distinct,
}
use ticker_watch_case_study.Base.Text.{Text, text_key}
use ticker_watch_case_study.Base.Result.{ok, raised, Outcome, done}
use ticker_watch_case_study.Settings.{Settings}
use ticker_watch_case_study.Time.{Instant}
use ticker_watch_case_study.Sources.{PriceSource}
use ticker_watch_case_study.Prices.{PriceRow, NewPrice, row_of}
use ticker_watch_case_study.Prices.Upsert.{newest, newest_of}
use ticker_watch_case_study.Service.{Service, World, Env}
use ticker_watch_case_study.Service.Writers.{rows, write_cache, write_postgres, publish}
use ticker_watch_case_study.Service.Writers.Proposed.{
  AreApart, AreKnown, proposal, newest_of-rows, newest_of-others,
}
use ticker_watch_case_study.Service.Writers.Totals.{IsForeseen, IsReady}
use ticker_watch_case_study.Service.Writers.Upserted.{upserted}
use ticker_watch_case_study.Service.Tick.{
  note_changes, gather, remember, handle_prices, changed_prices, differs,
}
use ticker_watch_case_study.Service.Tick.Stamps.{
  lookup-note_changes, stamp_after, handle_prices_stamps,
}
use ticker_watch_case_study.Service.Tick.Ends.{
  IsListed, handle_prices_ok, note_changes-IsReady, select-All,
}
use ticker_watch_case_study.Service.Tick.Staleness.{
  IsNumber, remember_stores, remember-last_published,
}

module _ {F S : Type 0} (feq : F → F → Bool) (source : PriceSource F S) (settings : Settings) where
  -- The security `id` of the ticker `t` has a row with the price, as `==` has it, and with the time
  -- at which the service first saw it.
  abbrev pub IsStored : World F S → Text → ℕ → F → Type 0
  IsStored w t id price =
      (row : PriceRow F) × (lookup id w.latest_prices ≡ some row)
      × (feq row.price price ≡ true)
      × (lookup t w.service.effective_at ≡ some row.effective_at)

  -- What is remembered of a priced ticker is stored, and no stored time is past the clock. Different
  -- tickers have different securities.
  pub record IsInStep (clock : Instant) (w : World F S) : Type 0 where
    pub stored :
        (t : Text) (id : ℕ) (price : F)
        → lookup t w.service.ticker_to_id ≡ some id
        → lookup t w.service.last_published ≡ some price
        → IsStored w t id price
    pub past :
        (t : Text) (id : ℕ) (row : PriceRow F)
        → lookup t w.service.ticker_to_id ≡ some id
        → lookup id w.latest_prices ≡ some row
        → row.effective_at ≤ clock
    pub apart : AreApart w.service.ticker_to_id
    pub known : AreKnown w.service.ticker_to_id w.securities

  -- the prices that a source gives: one for each ticker, of known tickers, and no NaN
  pub record AreQuotes (ids : Dict Text ℕ) (prices : Dict Text F) : Type 0 where
    pub distinct : Distinct (keys prices)
    pub numbers : All (IsNumber feq source settings) prices
    pub listed : All (IsListed ids) prices
