-- ===== src/Service/Startup/Ready.antt =====
-- What a whole start leaves for the first tick.
use mathlib.Core.Path.{subst}
use ticker_watch_case_study.Base.{◌≡◌, sym, arith, All, inl, inr}
use ticker_watch_case_study.Base.Dict.{Dict}
use ticker_watch_case_study.Base.Text.{Text, text_key}
use ticker_watch_case_study.Base.Result.{Result, ok, Result-cases, done}
use ticker_watch_case_study.Settings.{Settings, source_text}
use ticker_watch_case_study.Securities.{Locale}
use ticker_watch_case_study.Securities.Catalog.{IsTable}
use ticker_watch_case_study.Prices.Reconcile.{reconcile_source}
use ticker_watch_case_study.Prices.Reconcile.Sources.{IsOurs, IsFrom, reconcile_source-IsFrom}
use ticker_watch_case_study.Service.{World}
use ticker_watch_case_study.Service.Startup.{
  StartEnv, warm_cache, reconcile, sync_catalog, starting_prices, start,
}
use ticker_watch_case_study.Service.Startup.Listing.{IsListed, sync_catalog-IsListed}
use ticker_watch_case_study.Service.Startup.Kept.{
  warm_cache-keeps, after_reconcile-tables, sync_catalog-prices,
}

module _ {F S : Type 0} (locale : Locale) (settings : Settings) where
  reconcile-IsFrom :
      (env : StartEnv F) (w : World F S)
      → env.query ≡ done
      → env.write ≡ done
      → All IsOurs w.latest_prices
      → ((reconcile locale settings env w).1.securities ≡ w.securities)
        × All
            (IsFrom (source_text settings.price_source))
            (reconcile locale settings env w).1.latest_prices
  unfolding reconcile
  reconcile-IsFrom env w asked written ours =
      let (outcome, table) =
        reconcile_source settings.price_source env.query env.write env.postgres_now
          w.latest_prices in
      let (securities, prices) =
        after_reconcile-tables locale settings env outcome (record w { latest_prices = table }) in
      (
        securities,
        subst (All (IsFrom (source_text settings.price_source))) (sym prices) (
            rw (asked, written)
              (reconcile_source-IsFrom settings.price_source env.postgres_now w.latest_prices
                ours)),
      )

  -- tickers that may be priced, and prices of the source alone
  abbrev pub IsReady : World F S → Type 0
  IsReady w =
      All (IsListed settings.price_source w.securities) w.service.ticker_to_id
      × All (IsFrom (source_text settings.price_source)) w.latest_prices

  -- the warm-up does not change what is ready
  warm_cache-IsReady :
      (env : StartEnv F) (w : World F S) → IsReady w → IsReady (warm_cache locale settings env w).1
  warm_cache-IsReady env w ready =
      let (table, securities, sent, ids) = warm_cache-keeps locale settings env w in
      rw (table, securities, ids) ready

  pub start-IsReady :
      (hundred : F) (build : Dict Text F → Result S) (env : StartEnv F) (w : World F S)
      → env.query ≡ done
      → env.write ≡ done
      → IsTable env.next_id w.securities
      → All IsOurs w.latest_prices
      → (start locale settings hundred build env w).0 ≡ ok tt
      → IsReady (start locale settings hundred build env w).1
  unfolding start
  start-IsReady hundred build env w asked written table ours good =
      let w1 = (reconcile locale settings env w).1 in
      let w2 = (sync_catalog locale settings env w1).1 in
      let (securities, from) = reconcile-IsFrom env w asked written ours in
      elim (Result-cases (reconcile locale settings env w).0) [
        | inr (e, failed) ↦ let no = rw (start, failed) at good in ground (arith, no)
        | inl (a, reconciled) ↦ elim (Result-cases (sync_catalog locale settings env w1).0) [
          | inr (e, failed) ↦ let no = rw (start, reconciled, failed) at good in ground (arith, no)
          | inl (u, synced) ↦
              elim (Result-cases (build (starting_prices locale settings hundred env w2))) [
                | inr (e, failed) ↦
                    let no = rw (start, reconciled, synced, failed) at good in ground (arith, no)
                | inl (state, built) ↦
                    rw (start, reconciled, synced, built)
                      (warm_cache-IsReady env (record w2 { source_state = state })
                        (
                          sync_catalog-IsListed locale settings env w1
                              (subst (IsTable env.next_id) (sym securities) table) synced,
                          subst (All (IsFrom (source_text settings.price_source)))
                              (sym (sync_catalog-prices locale settings env w1)) from,
                        ))
              ]
        ]
      ]
