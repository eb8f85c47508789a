-- ===== src/Prices/Reconcile.antt =====
-- `reconcile_source` of src/watchlist/modules/prices/prices_handler.py: the stored prices before a
-- source starts to write.
pub mod Sources
pub mod Rows
use ticker_watch_case_study.Base.{
  ℕ, Bool, true, false, not, List, [], ◌∷◌, select, nat_key, ◌==◌, if◌then◌else◌,
}
use ticker_watch_case_study.Base.Text.{Text, text, text_key}
use ticker_watch_case_study.Base.Result.{Result, ok, raised, Fate, answer, execute}
use ticker_watch_case_study.Settings.{SourceName, api, simulated, source_text}
use ticker_watch_case_study.Time.{Instant}
use ticker_watch_case_study.Prices.{
  LatestPrices, distinct_sources, delete_by_source, relabel_source,
}

pub data Action : Type 0 where
  clean wiped_simulated adopted_api : Action

pub record SourceReconciliation : Type 0 where
  pub action : Action
  pub rows : ℕ

-- `stored - {configured}`
unfoldable pub foreign_sources : Text → List Text → List Text
foreign_sources configured stored = select (λ s. not (s == configured)) stored

module _ {F : Type 0} where
  -- the branch on the configured source, once some foreign rows are there
  unfoldable pub replace_foreign :
      SourceName → Fate → Instant → LatestPrices F → Result SourceReconciliation × LatestPrices F
  replace_foreign api fate now table =
      let (n, rest) = delete_by_source (text "simulated") table in
      execute fate table (record { action = wiped_simulated; rows = n }, rest)
  replace_foreign simulated fate now table =
      let (n, rest) = relabel_source now (text "api") (text "simulated") table in
      execute fate table (record { action = adopted_api; rows = n }, rest)

  -- the query and the write each have a fate
  unfoldable pub reconcile_source :
      SourceName
      → Fate
      → Fate
      → Instant
      → LatestPrices F
      → Result SourceReconciliation × LatestPrices F
  reconcile_source configured query write now table =
      elim (answer query (foreign_sources (source_text configured) (distinct_sources table))) [
        | raised e ↦ (raised e, table)
        | ok [] ↦ (ok (record { action = clean; rows = 0 }), table)
        | ok (f ∷ fs) ↦ replace_foreign configured write now table
      ]
