-- ===== src/Service/Startup/Traced.antt =====
-- All that the service remembers after the warm-up is traced back to a stored price.
use ticker_watch_case_study.Base.{
  ◌≡◌, refl, some, Bool, List, [], ◌∷◌, arith, All, Distinct, nat_key, ◌==◌, Bool-cases,
  Option-cases, inl, inr,
}
use ticker_watch_case_study.Base.Dict.{keys, lookup, lookup-insert}
use ticker_watch_case_study.Base.Dict.Members.{all_found}
use ticker_watch_case_study.Base.Text.{Text, text_key}
use ticker_watch_case_study.Base.Result.{Result, ok, raised, Result-cases}
use ticker_watch_case_study.Settings.{Settings}
use ticker_watch_case_study.Cache.{Redis}
use ticker_watch_case_study.Securities.{SecurityRow, Securities, Locale}
use ticker_watch_case_study.Prices.{LatestPrices, TickerRow, all_with_tickers}
use ticker_watch_case_study.Service.{Service, World}
use ticker_watch_case_study.Service.Startup.{StartEnv, note_row, warm_row, warm_rows, warm_cache}

-- the row of a security that is in both tables
abbrev pub IsJoined : {F : Type 0} → Securities → LatestPrices F → TickerRow F → Type 0
IsJoined securities table r =
    (s : SecurityRow) × (lookup r.security_id securities ≡ some s)
    × (s.ticker ≡ r.ticker)
    × (lookup r.security_id table ≡ some r.row)

-- each remembered price is that of a row with `P`, with the time of the row
abbrev pub IsTraced : {F : Type 0} → (TickerRow F → Type 0) → Service F → Type 0
IsTraced {F = F} P self =
    (t : Text) (price : F)
    → lookup t self.last_published ≡ some price
    → (r : TickerRow F) × P r
      × (r.ticker ≡ t)
      × (r.row.price ≡ price)
      × (lookup t self.effective_at ≡ some r.row.effective_at)

module _ {F S : Type 0} (locale : Locale) (settings : Settings) (P : TickerRow F → Type 0) where
  note_row-IsTraced :
      (r : TickerRow F) (answer : Result Bool × Redis F) (w : World F S)
      → P r
      → IsTraced P w.service
      → IsTraced P (note_row locale settings r answer w).1.service
  unfolding note_row
  note_row-IsTraced r (raised e, redis) w here traced = traced
  note_row-IsTraced r (ok written, redis) w here traced = λ t price h.
      let published = lookup-insert r.ticker t r.row.price w.service.last_published in
      let stamped = lookup-insert r.ticker t r.row.effective_at w.service.effective_at in
      elim (Bool-cases (r.ticker == t)) [
        | inl same ↦ (
          r,
          here,
          (text_key.test_iff r.ticker t).0 same,
          ground (arith, h, published, same),
          ground (arith, stamped, same),
        )
        | inr other ↦
            let (r', there, ticker, value, stamp) =
              traced t price (ground (arith, h, published, other)) in
            (r', there, ticker, value, ground (arith, stamped, stamp, other))
      ]

  warm_rows-IsTraced :
      (env : StartEnv F) (rows : List (TickerRow F)) (w : World F S)
      → All P rows
      → IsTraced P w.service
      → IsTraced P (warm_rows locale settings env rows w).1.service
  unfolding warm_rows
  warm_rows-IsTraced env [] w h traced = traced
  warm_rows-IsTraced env (r ∷ rows) w h traced =
      let w' = (warm_row locale settings env r w).1 in
      let one : IsTraced P w'.service = unfold warm_row in note_row-IsTraced r _ w h.0 traced in
      elim (Result-cases (warm_row locale settings env r w).0) [
        | inr (e, failed) ↦ rw (warm_rows, failed) one
        | inl (u, good) ↦ rw (warm_rows, good) (warm_rows-IsTraced env rows w' h.1 one)
      ]

module _ {F : Type 0} (securities : Securities) (table : LatestPrices F) where
  IsJoined-rows :
      (rows : LatestPrices F)
      → All (λ r. lookup r.0 table ≡ some r.1) rows
      → All (IsJoined securities table) (all_with_tickers securities rows)
  unfolding all_with_tickers
  IsJoined-rows [] h = tt
  IsJoined-rows ((id, row) ∷ rows) h = elim (Option-cases (lookup id securities)) [
    | inl absent ↦ rw (all_with_tickers, absent) (IsJoined-rows rows h.1)
    | inr (s, found) ↦ rw (all_with_tickers, found) ((s, found, refl, h.0), IsJoined-rows rows h.1)
  ]

module _ {F S : Type 0} (locale : Locale) (settings : Settings) where
  -- The warm-up of a service that remembers nothing yet, however it ends: each price that the service
  -- then remembers is the stored price of a security with this ticker.
  pub warm_cache-IsTraced :
      (env : StartEnv F) (w : World F S)
      → Distinct (keys w.latest_prices)
      → w.service.last_published ≡ []
      → IsTraced
          (IsJoined w.securities w.latest_prices)
          (warm_cache locale settings env w).1.service
  unfolding warm_cache lookup
  warm_cache-IsTraced env w distinct fresh =
      warm_rows-IsTraced locale settings (IsJoined w.securities w.latest_prices) env
        (all_with_tickers w.securities w.latest_prices) w
        (IsJoined-rows w.securities w.latest_prices w.latest_prices
          (all_found w.latest_prices distinct))
        (λ t price h. absurd (ground (arith, h, fresh)))
