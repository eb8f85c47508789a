-- ===== src/Prices/Upsert.antt =====
-- The guard of `_UPSERT_SQL`: the table keeps, for each security, the newest price.
use ticker_watch_case_study.Base.{
  ℕ, ◌≤◌, ◌≡◌, refl, false, Option, none, some, List, [], ◌∷◌, arith, ltb, Bool-cases, Option-cases,
  contains, nat_key, ◌==◌, if◌then◌else◌, inl, inr, map, All, Distinct,
}
use ticker_watch_case_study.Base.Dict.{lookup, insert, lookup-insert}
use ticker_watch_case_study.Base.Result.{ok}
use ticker_watch_case_study.Time.{Instant}
use ticker_watch_case_study.Securities.{Securities, SecurityRow}
use ticker_watch_case_study.Prices.{
  PriceRow, LatestPrices, NewPrice, row_of, upsert_rows, upsert_many,
}

module _ {F : Type 0} (securities : Securities) (now : Instant) where
  -- What the table holds for one security after a row is proposed.
  unfoldable pub newest : NewPrice F → Option (PriceRow F) → PriceRow F
  newest r none = row_of now r
  newest r (some old) = if ltb old.effective_at r.effective_at then row_of now r else old

  -- The rows for one security, one after the other.
  unfoldable pub newest_of : ℕ → List (NewPrice F) → Option (PriceRow F) → Option (PriceRow F)
  unfolding newest
  newest_of id [] o = o
  newest_of id (r ∷ rows) o =
      newest_of id rows (if r.security_id == id then some (newest r o) else o)

  -- A statement that succeeds leaves, for every security, the newest of what was there and what
  -- was proposed; at equal times, what was there.
  upsert_rows-newest :
      (written : List ℕ) (rows : List (NewPrice F)) (table table' : LatestPrices F) (id : ℕ)
      → upsert_rows securities now written rows table ≡ ok table'
      → lookup id table' ≡ newest_of id rows (lookup id table)
  unfolding upsert_rows newest_of
  upsert_rows-newest written [] table table' id h = ground arith
  upsert_rows-newest written (r ∷ rows) table table' id h = ground (
    arith,
    lookup-insert r.security_id id (row_of now r) table,
    upsert_rows-newest written rows table table' id,
    upsert_rows-newest (r.security_id ∷ written) rows (insert r.security_id (row_of now r) table)
        table' id,
  )

  abbrev pub ids : List (NewPrice F) → List ℕ
  ids = map (λ r. r.security_id)

  abbrev pub IsKnown : NewPrice F → Type 0
  IsKnown r = (s : SecurityRow) × (lookup r.security_id securities ≡ some s)

  abbrev IsFresh : List ℕ → NewPrice F → Type 0
  IsFresh written r = contains r.security_id written ≡ false

  IsFresh-cons :
      (id : ℕ) (written : List ℕ) (rows : List (NewPrice F))
      → contains id (ids rows) ≡ false
      → All (IsFresh written) rows
      → All (IsFresh (id ∷ written)) rows
  unfolding contains
  IsFresh-cons id written [] c h = tt
  IsFresh-cons id written (r ∷ rows) c h = (
    ground (arith, h.0, nat_key.test_iff id r.security_id),
    IsFresh-cons id written rows (ground arith) h.1,
  )

  upsert_rows_total :
      (written : List ℕ) (rows : List (NewPrice F)) (table : LatestPrices F)
      → All IsKnown rows
      → All (IsFresh written) rows
      → Distinct (ids rows)
      → (table' : LatestPrices F) × (upsert_rows securities now written rows table ≡ ok table')
  unfolding upsert_rows
  upsert_rows_total written [] table known fresh distinct = (table, refl)
  upsert_rows_total written (r ∷ rows) table known fresh distinct =
      let id = r.security_id in
      let (tw, write) =
        upsert_rows_total (id ∷ written) rows (insert id (row_of now r) table) known.1
          (IsFresh-cons id written rows distinct.0 fresh.1) distinct.1 in
      let (tk, keep) = upsert_rows_total written rows table known.1 fresh.1 distinct.1 in
      elim (Option-cases (lookup id table)) [
        | inl absent ↦ (tw, ground (arith, write, absent, known.0.1))
        | inr (old, present) ↦ elim (Bool-cases (ltb old.effective_at r.effective_at)) [
          | inl newer ↦ (tw, ground (arith, write, present, fresh.0, newer))
          | inr older ↦ (tk, ground (arith, keep, present, fresh.0, older))
        ]
      ]

  -- Rows for distinct, known securities are accepted, and then the table holds, for every security,
  -- the newest of what it held and what was proposed; at equal times, what it held.
  pub upsert_many_lem :
      (rows : List (NewPrice F)) (table : LatestPrices F)
      → All IsKnown rows
      → Distinct (ids rows)
      → (table' : LatestPrices F) × (upsert_many securities now rows table ≡ ok table')
        × ((id : ℕ) → lookup id table' ≡ newest_of id rows (lookup id table))
  unfolding upsert_many
  upsert_many_lem rows table known distinct =
      let (table', success) = upsert_rows_total [] rows table known (all_fresh rows) distinct in
      (table', success, λ id. upsert_rows-newest [] rows table table' id success)
    where
      all_fresh : (rows : List (NewPrice F)) → All (IsFresh []) rows
      all_fresh [] = tt
      all_fresh (r ∷ rows) = (unfold contains in refl, all_fresh rows)

  newest_of-later :
      (id : ℕ) (rows : List (NewPrice F)) (old : PriceRow F)
      → (new : PriceRow F) × (newest_of id rows (some old) ≡ some new)
        × (old.effective_at ≤ new.effective_at)
  unfolding newest_of
  newest_of-later id [] old = (old, refl, omega arith)
  newest_of-later id (r ∷ rows) old =
      let next = if r.security_id == id then newest r (some old) else old in
      let le : old.effective_at ≤ next.effective_at = unfold newest row_of in ground arith in
      let (new, e, later) = newest_of-later id rows next in (new, ground arith, omega arith)

  -- The time stored for a security never goes back, by any statement that succeeds.
  pub upsert_many_later :
      (rows : List (NewPrice F)) (table table' : LatestPrices F) (id : ℕ) (old : PriceRow F)
      → upsert_many securities now rows table ≡ ok table'
      → lookup id table ≡ some old
      → (new : PriceRow F) × (lookup id table' ≡ some new) × (old.effective_at ≤ new.effective_at)
  unfolding upsert_many
  upsert_many_later rows table table' id old h present =
      rw (upsert_rows-newest [] rows table table' id h, present) (newest_of-later id rows old)
