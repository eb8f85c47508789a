-- ===== src/Seed/Padding.antt =====
-- What padding the catalog does to the table, once and again.
use ticker_watch_case_study.Base.{
  ℕ, zero, suc, ◌+◌, ◌-◌, ◌≤◌, ◌<◌, ◌≡◌, refl, ap, ◌∙◌, false, none, some, [], ◌∷◌, ◌++◌, arith,
  leb, length, length-append, append_cancel, ◌==◌, Bool-cases, inl, inr, if◌then◌else◌,
}
use ticker_watch_case_study.Base.Decimal.{zero_padded, zero_padded_injective}
use ticker_watch_case_study.Base.Text.{Text, text, text_key}
use ticker_watch_case_study.Base.Result.{ok, raised, postgres_error}
use ticker_watch_case_study.Securities.{SecurityRow, Securities, find_ticker}
use ticker_watch_case_study.Seed.{
  synthetic_ticker, synthetic_row, synthetic_rows, copy_securities, copy_all, pad_catalog,
}

synthetic_ticker_injective : (i j : ℕ) → synthetic_ticker i ≡ synthetic_ticker j → i ≡ j
unfolding synthetic_ticker
synthetic_ticker_injective i j h =
    zero_padded_injective 5 i j (append_cancel (text "SYN") (zero_padded 5 i) (zero_padded 5 j) h)

-- a row at the end is found only if no row before it is
find_ticker-append :
    (t : Text) (next : ℕ) (row : SecurityRow) (securities : Securities)
    → find_ticker t (securities ++ (next, row) ∷ []) ≡ (elim (find_ticker t securities) [
      | some s ↦ some s
      | none ↦ if row.ticker == t then some (next, row) else none
    ])
unfolding find_ticker
find_ticker-append t next row [] = refl
find_ticker-append t next row (s ∷ securities) =
    ground (arith, find_ticker-append t next row securities)

-- The table does not have the tickers with the numbers from `i` on.
abbrev pub IsFree : ℕ → Securities → Type 0
IsFree i securities = (j : ℕ) → i ≤ j → find_ticker (synthetic_ticker j) securities ≡ none

IsFree-append :
    (i next : ℕ) (securities : Securities)
    → IsFree i securities
    → IsFree (suc i) (securities ++ (next, synthetic_row i) ∷ [])
unfolding synthetic_row
IsFree-append i next securities free j h =
    elim (Bool-cases (synthetic_ticker i == synthetic_ticker j)) [
      | inl same ↦
          let e = synthetic_ticker_injective i j ((text_key.test_iff _ _).0 same) in
          let off : ⊥ = omega (arith, h, e) in absurd off
      | inr other ↦ ground (
        arith,
        other,
        free j (omega (arith, h)),
        find_ticker-append (synthetic_ticker j) next (synthetic_row i) securities,
      )
    ]

-- the COPY of rows whose tickers are free
copy_securities-free :
    (count i next : ℕ) (securities : Securities)
    → IsFree i securities
    → (after : Securities) × (copy_securities next (synthetic_rows count i) securities ≡ some after)
      × (length after ≡ length securities + count)
      × ((t : Text) (s : ℕ × SecurityRow)
          → find_ticker t securities ≡ some s
          → find_ticker t after ≡ some s)
      × (0 < count → find_ticker (synthetic_ticker i) after ≡ some (next, synthetic_row i))
unfolding copy_securities synthetic_rows synthetic_row
copy_securities-free zero i next securities free =
    (securities, refl, omega arith, λ t s h. h, λ h. absurd (omega (arith, h)))
copy_securities-free (suc count) i next securities free =
    let grown = securities ++ (next, synthetic_row i) ∷ [] in
    let (after, copied, size, kept, first) =
      copy_securities-free count (suc i) (suc next) grown (IsFree-append i next securities free) in
    (
      after,
      ground (arith, copied, free i (omega arith)),
      omega (arith, size, length-append securities ((next, synthetic_row i) ∷ [])),
      λ t s h. kept t s (ground (arith, h, find_ticker-append t next (synthetic_row i) securities)),
      λ h.
          kept (synthetic_ticker i) (next, synthetic_row i)
            (ground (
              arith,
              free i (omega arith),
              text_key.test_iff (synthetic_ticker i) (synthetic_ticker i),
              find_ticker-append (synthetic_ticker i) next (synthetic_row i) securities,
            )),
    )

length-synthetic_rows : (count i : ℕ) → length (synthetic_rows count i) ≡ count
unfolding synthetic_rows
length-synthetic_rows zero i = refl
length-synthetic_rows (suc count) i = ap suc (length-synthetic_rows count (suc i))

-- Padding a catalog that has no synthetic ticker yet brings it up to `target` securities, unless it
-- has as many already, says how many it has added, and keeps every security that was there.
pub pad_catalog_lem :
    (next target : ℕ) (securities : Securities)
    → IsFree 1 securities
    → (after : Securities) × (pad_catalog next target securities
        ≡ (ok (target - length securities), after))
      × (length after ≡ length securities + (target - length securities))
      × ((t : Text) (s : ℕ × SecurityRow)
          → find_ticker t securities ≡ some s
          → find_ticker t after ≡ some s)
      × (length securities < target
          → find_ticker (synthetic_ticker 1) after ≡ some (next, synthetic_row 1))
unfolding pad_catalog copy_all
pad_catalog_lem next target securities free =
    let missing = target - length securities in
    let (after, copied, size, kept, first) = copy_securities-free missing 1 next securities free in
    elim (Bool-cases (leb target (length securities))) [
      | inl enough ↦ (
        securities,
        ground (arith, enough),
        ground (arith, enough),
        λ t s h. h,
        λ h. absurd (ground (arith, enough, h)),
      )
      | inr few ↦ (
        after,
        ground (arith, few, copied, length-synthetic_rows missing 1),
        size,
        kept,
        λ h. first (omega (arith, h)),
      )
    ]

copy_again :
    (count next : ℕ) (s : ℕ × SecurityRow) (table : Securities)
    → find_ticker (synthetic_ticker 1) table ≡ some s
    → copy_all next (synthetic_rows (suc count) 1) table ≡ (raised postgres_error, table)
unfolding copy_all copy_securities synthetic_rows synthetic_row
copy_again count next s table there = ground (arith, there)

same_copy :
    (count count' next : ℕ) (table : Securities)
    → count ≡ count'
    → copy_all next (synthetic_rows count 1) table ≡ copy_all next (synthetic_rows count' 1) table
same_copy count count' next table e = ap (λ (k : ℕ). copy_all next (synthetic_rows k 1) table) e

-- the first synthetic ticker is there, and padding would add some
pad_refused :
    (next target : ℕ) (s : ℕ × SecurityRow) (table : Securities)
    → find_ticker (synthetic_ticker 1) table ≡ some s
    → length table < target
    → pad_catalog next target table ≡ (raised postgres_error, table)
unfolding pad_catalog
pad_refused next target s table there few =
    let short : leb target (length table) ≡ false = ground (arith, few) in
    let missing = target - length table in
    rw (pad_catalog, short)
      (same_copy missing (suc (missing - 1)) next table (omega (arith, few))
        ∙ copy_again (missing - 1) next s table there)

-- A catalog that was padded cannot be padded further: the second run fails as a whole on the first
-- ticker that it makes up, and leaves the catalog as it was.
pub pad_catalog_again :
    (next target next' target' : ℕ) (securities : Securities)
    → IsFree 1 securities
    → length securities < target
    → target < target'
    → pad_catalog next' target' (pad_catalog next target securities).1
      ≡ (raised postgres_error, (pad_catalog next target securities).1)
pad_catalog_again next target next' target' securities free few more =
    let (after, padded, size, kept, there) = pad_catalog_lem next target securities free in
    rw padded (
      pad_refused next' target' (next, synthetic_row 1) after (there few)
        (omega (arith, size, few, more)))
