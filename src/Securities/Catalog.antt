-- ===== src/Securities/Catalog.antt =====
-- What the vendor's catalog leaves in `securities`: `upsert_many` row by row.
use mathlib.Core.Path.{subst}
use ticker_watch_case_study.Base.{
  ℕ, suc, ◌+◌, ◌≤◌, ◌<◌, ◌≡◌, inl, inr, Bool-cases, Option-cases, refl, false, ◌||◌, Option, none,
  some, List, [], ◌∷◌, arith, length, map, All, Distinct, contains, nat_key, ◌==◌, if◌then◌else◌,
}
use ticker_watch_case_study.Base.Dict.{keys}
use ticker_watch_case_study.Base.Text.{Text, text_key}
use ticker_watch_case_study.Securities.{
  SecurityRow, Securities, find_ticker, upsert_one, upsert_many,
}

-- the last name that the catalog gives to a ticker, or else the one it has
unfoldable pub name_after : Text → List (Text × Text) → Text → Text
name_after t [] name = name
name_after t ((ticker, new) ∷ rows) name = name_after t rows (if ticker == t then new else name)

-- What becomes of a ticker: a security that is there keeps its id, exchange and flag; a new one gets
-- the id `i`.
unfoldable pub listed :
    ℕ → Text → List (Text × Text) → Option (ℕ × SecurityRow) → Option (ℕ × SecurityRow)
unfolding name_after contains
listed i t rows (some (j, row)) = some (j, record row { name = name_after t rows row.name })
listed i t rows none =
    if contains t (map (λ r. r.0) rows)
    then some (
      i,
      record { ticker = t; name = name_after t rows []; exchange = none; is_synthetic = false },
    )
    else none

abbrev tickers : Securities → List Text
tickers = map (λ s. s.1.ticker)

-- `ticker` is unique, and every id has been handed out
pub record IsTable (next : ℕ) (securities : Securities) : Type 0 where
  pub distinct : Distinct (tickers securities)
  pub handed_out : All (λ i. i < next) (keys securities)
  pub ids : Distinct (keys securities)

find_ticker-upsert_one :
    (t : Text) (next : ℕ) (ticker name : Text) (securities : Securities)
    → find_ticker t (upsert_one next ticker name securities) ≡ (
        if ticker == t
        then (elim (find_ticker t securities) [
          | none ↦
              some (
                next,
                record { ticker = ticker; name = name; exchange = none; is_synthetic = false },
              )
          | some (i, row) ↦ some (i, record row { name = name })
        ])
        else find_ticker t securities)
unfolding find_ticker upsert_one
find_ticker-upsert_one t next ticker name [] = refl
find_ticker-upsert_one t next ticker name ((i, row) ∷ securities) = ground (
  arith,
  find_ticker-upsert_one t next ticker name securities,
  text_key.test_iff row.ticker ticker,
  text_key.test_iff row.ticker t,
  text_key.test_iff ticker t,
)

-- After the upsert of a catalog a ticker is listed just if it was or the catalog has it. It has the
-- last name that the catalog gives it; one that was listed keeps all else, and a new one has an id
-- that had not been handed out.
upsert_many_catalog :
    (t : Text) (next : ℕ) (rows : List (Text × Text)) (securities : Securities)
    → (i : ℕ) × (next ≤ i)
      × (find_ticker t (upsert_many next rows securities)
          ≡ listed i t rows (find_ticker t securities))
unfolding upsert_many listed contains name_after
upsert_many_catalog t next [] securities = (next, omega arith, same (find_ticker t securities))
  where
    same : (found : Option (ℕ × SecurityRow)) → found ≡ listed next t [] found
    same none = refl
    same (some (i, row)) = refl
upsert_many_catalog t next ((ticker, name) ∷ rows) securities =
    let (i, fresh, rest) =
      upsert_many_catalog t (suc next) rows (upsert_one next ticker name securities) in
    elim (Bool-cases (ticker == t)) [
      | inr other ↦ (
        i,
        omega (arith, fresh),
        ground (arith, rest, find_ticker-upsert_one t next ticker name securities, other),
      )
      | inl same ↦ elim (Option-cases (find_ticker t securities)) [
        | inl new ↦ (
          next,
          omega arith,
          ground (
            arith,
            rest,
            find_ticker-upsert_one t next ticker name securities,
            same,
            new,
            text_key.test_iff ticker t,
          ),
        )
        | inr (row, old) ↦ (
          i,
          omega (arith, fresh),
          ground (arith, rest, find_ticker-upsert_one t next ticker name securities, same, old),
        )
      ]
    ]

contains-tickers :
    (t : Text) (next : ℕ) (ticker name : Text) (securities : Securities)
    → contains t (tickers (upsert_one next ticker name securities))
      ≡ (contains t (tickers securities) || ticker == t)
unfolding contains upsert_one
contains-tickers t next ticker name [] = ground arith
contains-tickers t next ticker name ((i, row) ∷ securities) = ground (
  arith,
  contains-tickers t next ticker name securities,
  text_key.test_iff row.ticker ticker,
  text_key.test_iff row.ticker t,
  text_key.test_iff ticker t,
)

contains-keys :
    (j next : ℕ) (ticker name : Text) (securities : Securities)
    → j < next
    → contains j (keys securities) ≡ false
    → contains j (keys (upsert_one next ticker name securities)) ≡ false
unfolding contains upsert_one
contains-keys j next ticker name [] below h = ground arith
contains-keys j next ticker name ((i, row) ∷ securities) below h =
    ground (arith, contains-keys j next ticker name securities below)

upsert_one-IsTable :
    (next : ℕ) (ticker name : Text) (securities : Securities)
    → IsTable next securities
    → IsTable (suc next) (upsert_one next ticker name securities)
unfolding upsert_one contains
upsert_one-IsTable next ticker name [] h = record {
  distinct = (refl, tt);
  handed_out = (omega arith, tt);
  ids = (refl, tt);
}
upsert_one-IsTable next ticker name ((i, row) ∷ securities) h =
    let rest =
      upsert_one-IsTable next ticker name securities
        record { distinct = h.distinct.1; handed_out = h.handed_out.1; ids = h.ids.1 } in
    elim (Bool-cases (row.ticker == ticker)) [
      | inl same ↦ rw same record {
        distinct = h.distinct;
        handed_out = (omega (arith, h.handed_out.0), later (keys securities) h.handed_out.1);
        ids = h.ids;
      }
      | inr other ↦ rw other record {
        distinct = (
          ground (
            arith,
            contains-tickers row.ticker next ticker name securities,
            h.distinct.0,
            text_key.test_iff row.ticker ticker,
            text_key.test_iff ticker row.ticker,
          ),
          rest.distinct,
        );
        handed_out = (omega (arith, h.handed_out.0), rest.handed_out);
        ids = (contains-keys i next ticker name securities h.handed_out.0 h.ids.0, rest.ids);
      }
    ]
  where
    later : (ids : List ℕ) → All (λ j. j < next) ids → All (λ j. j < suc next) ids
    later [] hs = tt
    later (j ∷ ids) hs = (omega (arith, hs.0), later ids hs.1)

-- The upsert of a catalog keeps tickers and ids unique, and ids among those handed out.
pub upsert_many-IsTable :
    (next : ℕ) (rows : List (Text × Text)) (securities : Securities)
    → IsTable next securities
    → IsTable (next + length rows) (upsert_many next rows securities)
unfolding upsert_many
upsert_many-IsTable next [] securities h = subst (λ n. IsTable n securities) (omega arith) h
upsert_many-IsTable next ((ticker, name) ∷ rows) securities h =
    subst (λ n. IsTable n (upsert_many next ((ticker, name) ∷ rows) securities)) (omega arith)
      (upsert_many-IsTable (suc next) rows _ (upsert_one-IsTable next ticker name securities h))
