-- ===== src/Service/Startup/InStep.antt =====
-- A start puts what the service remembers in step with `latest_prices`.
use mathlib.Core.Path.{subst}
use ticker_watch_case_study.Base.{
  ℕ, ◌≡◌, ◌≤◌, sym, ◌∙◌, true, some, Bool, [], arith, All, Distinct, nat_key, inl, inr,
}
use ticker_watch_case_study.Base.Dict.{lookup, Dict}
use ticker_watch_case_study.Base.Dict.Members.{lookup-All}
use ticker_watch_case_study.Base.Text.{Text, text_key}
use ticker_watch_case_study.Base.Result.{Result, ok, Result-cases}
use ticker_watch_case_study.Settings.{Settings}
use ticker_watch_case_study.Time.{Instant}
use ticker_watch_case_study.Sources.{PriceSource}
use ticker_watch_case_study.Securities.{Locale}
use ticker_watch_case_study.Securities.Unique.{tickers, same_security}
use ticker_watch_case_study.Securities.Catalog.{IsTable, upsert_many-IsTable}
use ticker_watch_case_study.Prices.Reconcile.{reconcile_source}
use ticker_watch_case_study.Prices.Reconcile.Rows.{AreRows, reconcile_source-AreRows}
use ticker_watch_case_study.Service.{Service, World}
use ticker_watch_case_study.Service.Tick.InStep.{IsInStep}
use ticker_watch_case_study.Service.Tick.InStep.Run.{IsSteady}
use ticker_watch_case_study.Service.Startup.{
  StartEnv, load_catalog, or_seed, vendor_rows, reconcile, sync_catalog, starting_prices,
  warm_cache, start,
}
use ticker_watch_case_study.Service.Startup.Listing.{IsListed, sync_catalog-IsListed}
use ticker_watch_case_study.Service.Startup.Kept.{
  warm_cache-keeps, warm_cache-upstream_prices, after_reconcile-tables, after_reconcile-service,
  sync_catalog-prices,
}
use ticker_watch_case_study.Service.Startup.Traced.{IsJoined, IsTraced, warm_cache-IsTraced}

module _ {F S : Type 0} (feq : F → F → Bool) (source : PriceSource F S) (settings : Settings)
    (clock : Instant) where
  -- a price that is no NaN, seen by now
  abbrev pub IsPast : F → Instant → Type 0
  IsPast price at = (feq price price ≡ true) × (at ≤ clock)

  in_step :
      (w : World F S)
      → Distinct (tickers w.securities)
      → All (IsListed settings.price_source w.securities) w.service.ticker_to_id
      → AreRows IsPast w.latest_prices
      → IsTraced (IsJoined w.securities w.latest_prices) w.service
      → IsInStep feq source settings clock w
  in_step w distinct listed rows traced =
      let found = λ (t : Text) (id : ℕ) (h : lookup t w.service.ticker_to_id ≡ some id).
        lookup-All (IsListed settings.price_source w.securities) t id w.service.ticker_to_id h
          listed in
      record {
        stored = λ t id price here published.
            let (r, (s, joined, named, there), ticker, value, stamp) = traced t price published in
            let (row, known, name, live) = found t id here in
            let same : r.security_id ≡ id =
              same_security r.security_id id s row w.securities distinct joined known
                (named ∙ ticker ∙ sym name) in
            let at_id : lookup id w.latest_prices ≡ some r.row =
              subst (λ i. lookup i w.latest_prices ≡ some r.row) same there in
            let (number, past) =
              lookup-All (λ e. IsPast e.1.price e.1.effective_at) id r.row w.latest_prices at_id
                rows.all in
            (r.row, at_id, subst (λ p. feq r.row.price p ≡ true) value number, stamp);
        past = λ t id row here there.
            (lookup-All (λ e. IsPast e.1.price e.1.effective_at) id row w.latest_prices there
              rows.all).1;
        apart = λ t u id a b.
            let (row, known, name, live) = found t id a in
            let (row', known', name', live') = found u id b in
            ground (arith, known, known', name, name');
        known = λ t id here. let (row, known, name, live) = found t id here in (row, known);
      }

-- nothing is remembered yet
abbrev pub IsFresh : {F : Type 0} → Service F → Type 0
IsFresh self = (self.last_published ≡ []) × (self.upstream_prices ≡ [])

module _ {F S : Type 0} (locale : Locale) (settings : Settings) where
  reconcile-rows :
      (P : F → Instant → Type 0) (env : StartEnv F) (w : World F S)
      → AreRows P w.latest_prices
      → let after = (reconcile locale settings env w).1 in
        AreRows P after.latest_prices
        × (after.securities ≡ w.securities)
        × (after.service ≡ w.service)
  unfolding reconcile
  reconcile-rows P env w rows =
      let (outcome, table) =
        reconcile_source settings.price_source env.query env.write env.postgres_now
          w.latest_prices in
      let w' = record w { latest_prices = table } in
      let (securities, prices) = after_reconcile-tables locale settings env outcome w' in
      (
        subst (AreRows P) (sym prices) (
            reconcile_source-AreRows P settings.price_source env.query env.write env.postgres_now
              w.latest_prices rows),
        securities,
        after_reconcile-service locale settings env outcome w',
      )

  sync_catalog-IsFresh :
      (env : StartEnv F) (w : World F S)
      → IsTable env.next_id w.securities
      → IsFresh w.service
      → (sync_catalog locale settings env w).0 ≡ ok tt
      → let after = (sync_catalog locale settings env w).1 in
        Distinct (tickers after.securities) × IsFresh after.service
  unfolding sync_catalog load_catalog
  sync_catalog-IsFresh env w table fresh h =
      elim (Result-cases (vendor_rows settings.price_source env.catalog_reply)) [
        | inl (found, e) ↦
            rw (sync_catalog, e)
              (
                (upsert_many-IsTable env.next_id (or_seed env.seed_catalog found.0) w.securities
                    table).distinct,
                fresh,
              )
        | inr (e, failed) ↦ let f = rw (sync_catalog, failed) at h in ground (arith, f)
      ]

  module _ (feq : F → F → Bool) (source : PriceSource F S) (clock : Instant) where
    warmed :
        (env : StartEnv F) (w : World F S)
        → Distinct (tickers w.securities)
        → All (IsListed settings.price_source w.securities) w.service.ticker_to_id
        → AreRows (IsPast feq source settings clock) w.latest_prices
        → IsFresh w.service
        → IsSteady feq source settings clock (warm_cache locale settings env w).1
    warmed env w distinct listed rows fresh =
        let after = (warm_cache locale settings env w).1 in
        let (table, securities, sent, ids) = warm_cache-keeps locale settings env w in
        let traced = warm_cache-IsTraced locale settings env w rows.distinct fresh.0 in
        let none_read : after.service.upstream_prices ≡ [] =
          warm_cache-upstream_prices locale settings env w ∙ fresh.1 in
        (
          in_step feq source settings clock after (rw securities distinct)
              (rw (securities, ids) listed) (rw table rows) (rw (securities, table) traced),
          rw none_read (record { distinct = tt; numbers = tt; listed = tt }),
        )

    -- Once a start of a new service has succeeded, each price that the service remembers of a ticker
    -- is, as `==` has it, the stored price of its security, with the time that is stored with it, so
    -- that the first tick starts in step with `latest_prices`. Before the start tickers, ids and the
    -- ids of the stored prices are unique, no id is past the sequence, and the stored prices are no NaN
    -- and not past the clock.
    pub start-IsSteady :
        (hundred : F) (build : Dict Text F → Result S) (env : StartEnv F) (w : World F S)
        → IsTable env.next_id w.securities
        → AreRows (IsPast feq source settings clock) w.latest_prices
        → IsFresh w.service
        → (start locale settings hundred build env w).0 ≡ ok tt
        → IsSteady feq source settings clock (start locale settings hundred build env w).1
    unfolding start
    start-IsSteady hundred build env w table rows fresh good =
        let w1 = (reconcile locale settings env w).1 in
        let w2 = (sync_catalog locale settings env w1).1 in
        let (rows1, securities, same) =
          reconcile-rows (IsPast feq source settings clock) env w rows in
        let table1 = subst (IsTable env.next_id) (sym securities) table in
        let fresh1 : IsFresh w1.service = rw same fresh in
        elim (Result-cases (reconcile locale settings env w).0) [
          | inr (e, failed) ↦ let no = rw (start, failed) at good in ground (arith, no)
          | inl (a, reconciled) ↦ elim (Result-cases (sync_catalog locale settings env w1).0) [
            | inr (e, failed) ↦
                let no = rw (start, reconciled, failed) at good in ground (arith, no)
            | inl (u, synced) ↦
                elim (Result-cases (build (starting_prices locale settings hundred env w2))) [
                  | inr (e, failed) ↦
                      let no = rw (start, reconciled, synced, failed) at good in ground (arith, no)
                  | inl (state, built) ↦
                      let (distinct, fresh2) = sync_catalog-IsFresh env w1 table1 fresh1 synced in
                      rw (start, reconciled, synced, built)
                        (warmed env (record w2 { source_state = state }) distinct
                          (sync_catalog-IsListed locale settings env w1 table1 synced)
                          (subst (AreRows (IsPast feq source settings clock))
                            (sym (sync_catalog-prices locale settings env w1)) rows1)
                          fresh2)
                ]
          ]
        ]
