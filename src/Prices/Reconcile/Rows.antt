-- ===== src/Prices/Reconcile/Rows.antt =====
-- The reconciliation keeps the ids of the stored prices apart, and their values and times.
use ticker_watch_case_study.Base.{
  ℕ, false, ◌≡◌, List, [], ◌∷◌, All, Distinct, arith, contains, nat_key, ◌==◌, Bool-cases, inl, inr,
  refl,
}
use ticker_watch_case_study.Base.Dict.{keys}
use ticker_watch_case_study.Base.Text.{Text, text, text_key}
use ticker_watch_case_study.Base.Result.{
  Result, ok, raised, Fate, done, refused, lost, answer, execute,
}
use ticker_watch_case_study.Settings.{SourceName, api, simulated, source_text}
use ticker_watch_case_study.Time.{Instant}
use ticker_watch_case_study.Prices.{
  LatestPrices, distinct_sources, delete_by_source, relabel_source,
}
use ticker_watch_case_study.Prices.Reconcile.{
  SourceReconciliation, foreign_sources, replace_foreign, reconcile_source,
}

module _ {F : Type 0} (P : F → Instant → Type 0) where
  -- one row for each id, and `P` of its price and its time
  pub record AreRows (table : LatestPrices F) : Type 0 where
    pub distinct : Distinct (keys table)
    pub all : All (λ e. P e.1.price e.1.effective_at) table

  contains-delete :
      (id : ℕ) (source : Text) (table : LatestPrices F)
      → contains id (keys table) ≡ false
      → contains id (keys (delete_by_source source table).1) ≡ false
  unfolding contains delete_by_source
  contains-delete id source [] h = refl
  contains-delete id source ((k, r) ∷ table) h = ground (arith, contains-delete id source table, h)

  contains-relabel :
      (id : ℕ) (now : Instant) (old new : Text) (table : LatestPrices F)
      → contains id (keys table) ≡ false
      → contains id (keys (relabel_source now old new table).1) ≡ false
  unfolding contains relabel_source
  contains-relabel id now old new [] h = refl
  contains-relabel id now old new ((k, r) ∷ table) h =
      ground (arith, contains-relabel id now old new table, h)

  delete-AreRows :
      (source : Text) (table : LatestPrices F)
      → AreRows table
      → AreRows (delete_by_source source table).1
  unfolding delete_by_source
  delete-AreRows source [] h = h
  delete-AreRows source ((k, r) ∷ table) h =
      let rest = delete-AreRows source table (record { distinct = h.distinct.1; all = h.all.1 }) in
      elim (Bool-cases (r.source == source)) [
        | inl gone ↦ rw gone rest
        | inr kept ↦ rw kept (record {
          distinct = (contains-delete k source table h.distinct.0, rest.distinct);
          all = (h.all.0, rest.all);
        })
      ]

  relabel-AreRows :
      (now : Instant) (old new : Text) (table : LatestPrices F)
      → AreRows table
      → AreRows (relabel_source now old new table).1
  unfolding relabel_source
  relabel-AreRows now old new [] h = h
  relabel-AreRows now old new ((k, r) ∷ table) h =
      let rest =
        relabel-AreRows now old new table (record { distinct = h.distinct.1; all = h.all.1 }) in
      let apart = contains-relabel k now old new table h.distinct.0 in
      elim (Bool-cases (r.source == old)) [
        | inl renamed ↦
            rw renamed (record { distinct = (apart, rest.distinct); all = (h.all.0, rest.all) })
        | inr kept ↦
            rw kept (record { distinct = (apart, rest.distinct); all = (h.all.0, rest.all) })
      ]

  execute-AreRows :
      (write : Fate) (table after : LatestPrices F) (x : SourceReconciliation)
      → AreRows table
      → AreRows after
      → AreRows (execute write table (x, after)).1
  unfolding execute
  execute-AreRows done table after x h k = k
  execute-AreRows (refused e) table after x h k = h
  execute-AreRows (lost e) table after x h k = k

  replace_foreign-AreRows :
      (configured : SourceName) (write : Fate) (now : Instant) (table : LatestPrices F)
      → AreRows table
      → AreRows (replace_foreign configured write now table).1
  unfolding replace_foreign
  replace_foreign-AreRows api write now table h =
      execute-AreRows write table _ _ h (delete-AreRows (text "simulated") table h)
  replace_foreign-AreRows simulated write now table h =
      execute-AreRows write table _ _ h
        (relabel-AreRows now (text "api") (text "simulated") table h)

  pub reconcile_source-AreRows :
      (configured : SourceName) (query write : Fate) (now : Instant) (table : LatestPrices F)
      → AreRows table
      → AreRows (reconcile_source configured query write now table).1
  unfolding reconcile_source
  reconcile_source-AreRows configured query write now table h =
      go (answer query (foreign_sources (source_text configured) (distinct_sources table))) refl
    where
      go :
          (a : Result (List Text))
          → answer query (foreign_sources (source_text configured) (distinct_sources table)) ≡ a
          → AreRows (reconcile_source configured query write now table).1
      go (raised e) eq = rw (reconcile_source, eq) h
      go (ok []) eq = rw (reconcile_source, eq) h
      go (ok (f ∷ fs)) eq =
          rw (reconcile_source, eq) (replace_foreign-AreRows configured write now table h)
