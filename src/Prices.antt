-- ===== src/Prices.antt =====
-- src/watchlist/modules/prices/prices_controller.py: the queries on `latest_prices`. The table is
-- a dictionary on its primary key, `security_id`; the one of `securities` stands beside it.
pub mod Upsert
pub mod Snapshot
pub mod Reconcile
use ticker_watch_case_study.Base.{
  ℕ, suc, ◌+◌, Bool, true, false, ◌&&◌, Option, none, some, List, [], ◌∷◌, ltb, length, select,
  contains, map, nat_key, ◌==◌, if◌then◌else◌,
}
use ticker_watch_case_study.Base.Dict.{Dict, lookup, insert}
use ticker_watch_case_study.Base.Text.{Text, text_key}
use ticker_watch_case_study.Base.Result.{Result, ok, raised, postgres_error}
use ticker_watch_case_study.Time.{Instant}
use ticker_watch_case_study.Securities.{SecurityRow, Securities}

-- a row of `latest_prices`, on its security_id
pub record PriceRow (F : Type 0) : Type 0 where
  pub price : F
  pub effective_at : Instant
  pub source : Text
  pub updated_at : Instant

abbrev pub LatestPrices : Type 0 → Type 0
LatestPrices F = Dict ℕ (PriceRow F)

-- (security_id, price, effective_at, source)
pub record NewPrice (F : Type 0) : Type 0 where
  pub security_id : ℕ
  pub price : F
  pub effective_at : Instant
  pub source : Text

pub record TickerRow (F : Type 0) : Type 0 where
  pub security_id : ℕ
  pub ticker : Text
  pub row : PriceRow F

module _ {F : Type 0} where
  unfoldable pub row_of : Instant → NewPrice F → PriceRow F
  row_of now r = record {
    price = r.price;
    effective_at = r.effective_at;
    source = r.source;
    updated_at = now;
  }

  -- One proposed row after the other. `written` are the ids that this statement has inserted or
  -- updated: Postgres refuses to change such a row again. A new row must have a security.
  unfoldable pub upsert_rows :
      Securities → Instant → List ℕ → List (NewPrice F) → LatestPrices F → Result (LatestPrices F)
  unfolding row_of
  upsert_rows securities now written [] table = ok table
  upsert_rows securities now written (r ∷ rows) table =
      let id = r.security_id in
      let keep = upsert_rows securities now written rows table in
      let write = upsert_rows securities now (id ∷ written) rows (insert id (row_of now r) table) in
      elim (lookup id table) [
        | none ↦ elim (lookup id securities) [ none ↦ raised postgres_error | some s ↦ write ]
        | some old ↦
            if contains id written
            then raised postgres_error
            else if ltb old.effective_at r.effective_at
            then write
            else keep
      ]

  -- `upsert_many`: one statement, so a refused row leaves the whole table as it was
  unfoldable pub upsert_many :
      Securities → Instant → List (NewPrice F) → LatestPrices F → Result (LatestPrices F)
  unfolding upsert_rows
  upsert_many securities now rows table = upsert_rows securities now [] rows table

  unfoldable pub get_many : List ℕ → LatestPrices F → LatestPrices F
  get_many ids table = select (λ e. contains e.0 ids) table

  -- an inner join: a price with no security is left out
  unfoldable pub all_with_tickers : Securities → LatestPrices F → List (TickerRow F)
  all_with_tickers securities [] = []
  all_with_tickers securities ((id, row) ∷ table) =
      let rest = all_with_tickers securities table in
      elim (lookup id securities) [
        | none ↦ rest
        | some s ↦ record { security_id = id; ticker = s.ticker; row = row } ∷ rest
      ]

  -- SELECT DISTINCT source
  unfoldable pub distinct_sources : LatestPrices F → List Text
  distinct_sources [] = []
  distinct_sources ((id, row) ∷ table) =
      let rest = distinct_sources table in
      if contains row.source rest then rest else row.source ∷ rest

  -- the rows deleted, and the table without them
  unfoldable pub delete_by_source : Text → LatestPrices F → ℕ × LatestPrices F
  delete_by_source source [] = (0, [])
  delete_by_source source ((id, row) ∷ table) =
      let (n, rest) = delete_by_source source table in
      if row.source == source then (suc n, rest) else (n, (id, row) ∷ rest)

  unfoldable pub relabel_source : Instant → Text → Text → LatestPrices F → ℕ × LatestPrices F
  relabel_source now old new [] = (0, [])
  relabel_source now old new ((id, row) ∷ table) =
      let (n, rest) = relabel_source now old new table in
      if row.source == old
      then (suc n, (id, record row { source = new; updated_at = now }) ∷ rest)
      else (n, (id, row) ∷ rest)
