-- ===== src/Prices/Reconcile/Sources.antt =====
-- After the reconciliation every stored price belongs to the configured source, and no quote of the
-- vendor is lost.
use ticker_watch_case_study.Base.{
  ℕ, true, false, ◌≡◌, ◌⊎◌, inl, inr, refl, List, [], ◌∷◌, All, select, arith, contains, nat_key,
  list_beq, ◌==◌, Bool-cases, some,
}
use ticker_watch_case_study.Base.Dict.{lookup}
use ticker_watch_case_study.Base.Text.{Text, text, text_key}
use ticker_watch_case_study.Base.Result.{
  Result, ok, raised, Fate, done, refused, lost, answer, execute,
}
use ticker_watch_case_study.Settings.{SourceName, api, simulated, source_text}
use ticker_watch_case_study.Time.{Instant}
use ticker_watch_case_study.Prices.{
  PriceRow, LatestPrices, distinct_sources, delete_by_source, relabel_source,
}
use ticker_watch_case_study.Prices.Reconcile.{
  SourceReconciliation, foreign_sources, replace_foreign, reconcile_source,
}

only_source :
    (source s : Text) (xs : List Text)
    → foreign_sources source xs ≡ []
    → contains s xs ≡ true
    → s ≡ source
unfolding foreign_sources select contains
only_source source s [] none_foreign h = cc
only_source source s (x ∷ xs) none_foreign h =
    ground (arith, only_source source s xs, text_key.test_iff x source, text_key.test_iff x s)

not_simulated : (s : Text) → s ≡ text "api" → (s == text "simulated") ≡ false
unfolding list_beq
not_simulated s e = rw e

module _ {F : Type 0} where
  -- only the two sources of the program have written
  abbrev pub IsOurs : ℕ × PriceRow F → Type 0
  IsOurs e = (e.1.source ≡ source_text api) ⊎ (e.1.source ≡ source_text simulated)

  abbrev pub IsFrom : Text → ℕ × PriceRow F → Type 0
  IsFrom source e = e.1.source ≡ source

  delete-IsFrom :
      (table : LatestPrices F)
      → All IsOurs table
      → All (IsFrom (source_text api)) (delete_by_source (text "simulated") table).1
  unfolding delete_by_source source_text
  delete-IsFrom [] h = tt
  delete-IsFrom ((id, row) ∷ table) h = elim (Bool-cases (row.source == text "simulated")) [
    | inl gone ↦ rw gone (delete-IsFrom table h.1)
    | inr kept ↦ rw kept (ours h.0 kept, delete-IsFrom table h.1)
  ]
    where
      ours :
          (row.source ≡ text "api") ⊎ (row.source ≡ text "simulated")
          → (row.source == text "simulated") ≡ false
          → row.source ≡ text "api"
      ours o k = ground (arith, text_key.test_iff row.source (text "simulated"))

  relabel-IsFrom :
      (now : Instant) (table : LatestPrices F)
      → All IsOurs table
      → All
          (IsFrom (source_text simulated))
          (relabel_source now (text "api") (text "simulated") table).1
  unfolding relabel_source source_text
  relabel-IsFrom now [] h = tt
  relabel-IsFrom now ((id, row) ∷ table) h = elim (Bool-cases (row.source == text "api")) [
    | inl renamed ↦ rw renamed (refl, relabel-IsFrom now table h.1)
    | inr kept ↦ rw kept (ours h.0 kept, relabel-IsFrom now table h.1)
  ]
    where
      ours :
          (row.source ≡ text "api") ⊎ (row.source ≡ text "simulated")
          → (row.source == text "api") ≡ false
          → row.source ≡ text "simulated"
      ours o k = ground (arith, text_key.test_iff row.source (text "api"))

  -- no foreign source among the stored ones
  clean-IsFrom :
      (source : Text) (table : LatestPrices F)
      → foreign_sources source (distinct_sources table) ≡ []
      → All (IsFrom source) table
  clean-IsFrom source [] h = tt
  clean-IsFrom source ((id, row) ∷ table) h =
      let rest = distinct_sources table in
      elim (Bool-cases (contains row.source rest)) [
        | inl known ↦
            let h' : foreign_sources source rest ≡ [] = unfold distinct_sources in ground arith in
            (only_source source row.source rest h' known, clean-IsFrom source table h')
        | inr new ↦
            let h' : foreign_sources source (row.source ∷ rest) ≡ [] =
              unfold distinct_sources in ground arith in
            (
              (unfold foreign_sources select in
                  ground (arith, text_key.test_iff row.source source)),
              clean-IsFrom source table (unfold foreign_sources select in ground arith),
            )
      ]

  -- Once both statements have succeeded, every stored price is from the configured source, if only
  -- the program's two sources had written before.
  pub reconcile_source-IsFrom :
      (configured : SourceName) (now : Instant) (table : LatestPrices F)
      → All IsOurs table
      → All (IsFrom (source_text configured)) (reconcile_source configured done done now table).1
  unfolding reconcile_source answer
  reconcile_source-IsFrom configured now table h =
      go (foreign_sources (source_text configured) (distinct_sources table)) refl
    where
      replaced :
          (configured : SourceName)
          → All (IsFrom (source_text configured)) (replace_foreign configured done now table).1
      replaced api = unfold replace_foreign execute in delete-IsFrom table h
      replaced simulated = unfold replace_foreign execute in relabel-IsFrom now table h

      go :
          (fs : List Text)
          → foreign_sources (source_text configured) (distinct_sources table) ≡ fs
          → All
              (IsFrom (source_text configured))
              (reconcile_source configured done done now table).1
      go [] e = rw (e, reconcile_source) (clean-IsFrom (source_text configured) table e)
      go (f ∷ fs) e = rw (e, reconcile_source) (replaced configured)

  -- the same quote, whatever it is labelled
  abbrev pub HasQuote : ℕ → PriceRow F → LatestPrices F → Type 0
  HasQuote id row table =
      (row' : PriceRow F) × (lookup id table ≡ some row')
      × (row'.price ≡ row.price)
      × (row'.effective_at ≡ row.effective_at)

  lookup-delete_api :
      (id : ℕ) (row : PriceRow F) (table : LatestPrices F)
      → lookup id table ≡ some row
      → row.source ≡ text "api"
      → lookup id (delete_by_source (text "simulated") table).1 ≡ some row
  unfolding lookup delete_by_source
  lookup-delete_api id row [] h s = cc
  lookup-delete_api id row ((k, r) ∷ table) h s =
      ground (arith, lookup-delete_api id row table, not_simulated r.source)

  relabel-HasQuote :
      (now : Instant) (id : ℕ) (row : PriceRow F) (table : LatestPrices F)
      → lookup id table ≡ some row
      → HasQuote id row (relabel_source now (text "api") (text "simulated") table).1
  unfolding lookup relabel_source
  relabel-HasQuote now id row [] h = cc
  relabel-HasQuote now id row ((k, r) ∷ table) h = elim (Bool-cases (k == id)) [
    | inl here ↦ elim (Bool-cases (r.source == text "api")) [
      | inl renamed ↦ (
        record r { source = text "simulated"; updated_at = now },
        rw renamed (rw here),
        ground arith,
        ground arith,
      )
      | inr kept ↦ (r, rw kept (rw here), ground arith, ground arith)
    ]
    | inr there ↦
        let (row', found, price, time) = relabel-HasQuote now id row table (ground arith) in
        (row', ground arith, price, time)
  ]

  -- The reconciliation loses no quote of the vendor, whatever becomes of its statements: the price
  -- and its time are still there for every security that had them from the vendor.
  pub reconcile_source-HasQuote :
      (configured : SourceName) (query write : Fate) (now : Instant) (id : ℕ) (row : PriceRow F)
      (table : LatestPrices F)
      → lookup id table ≡ some row
      → row.source ≡ text "api"
      → HasQuote id row (reconcile_source configured query write now table).1
  unfolding reconcile_source
  reconcile_source-HasQuote configured query write now id row table h s =
      go (answer query (foreign_sources (source_text configured) (distinct_sources table))) refl
    where
      unchanged : HasQuote id row table
      unchanged = (row, h, refl, refl)

      kept :
          (w : Fate) (after : LatestPrices F) (x : SourceReconciliation)
          → HasQuote id row after
          → HasQuote id row (execute w table (x, after)).1
      kept done after x q = unfold execute in q
      kept (refused e) after x q = unfold execute in unchanged
      kept (lost e) after x q = unfold execute in q

      replaced : (c : SourceName) → HasQuote id row (replace_foreign c write now table).1
      replaced api =
          unfold replace_foreign in
          kept write _ _ (row, lookup-delete_api id row table h s, refl, refl)
      replaced simulated =
          unfold replace_foreign in kept write _ _ (relabel-HasQuote now id row table h)

      go :
          (a : Result (List Text))
          → answer query (foreign_sources (source_text configured) (distinct_sources table)) ≡ a
          → HasQuote id row (reconcile_source configured query write now table).1
      go (raised e) eq = rw (eq, reconcile_source) unchanged
      go (ok []) eq = rw (eq, reconcile_source) unchanged
      go (ok (f ∷ fs)) eq = rw (eq, reconcile_source) (replaced configured)
