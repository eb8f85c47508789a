-- ===== src/Securities.antt =====
-- src/watchlist/modules/securities/securities_controller.py: the queries on `securities`. The table
-- is a dictionary on its id; `ticker` is unique.
pub mod Unique
pub mod Search
pub mod Catalog
use ticker_watch_case_study.Base.{
  ℕ, suc, Bool, false, not, ◌||◌, Option, none, some, List, [], ◌∷◌, select, nat_key, ◌==◌,
  if◌then◌else◌,
}
use ticker_watch_case_study.Base.Dict.{Dict, lookup}
use ticker_watch_case_study.Base.Sort.{sort_by}
use ticker_watch_case_study.Base.Text.{Text, text_key}

-- a row of `securities`, on its id
pub record SecurityRow : Type 0 where
  pub ticker : Text
  pub name : Text
  pub exchange : Option Text
  pub is_synthetic : Bool

abbrev pub Securities : Type 0
Securities = Dict ℕ SecurityRow

-- How the database compares texts: the collation of ORDER BY, and the case folding of ILIKE and
-- `upper`.
pub record Locale : Type 0 where
  pub before : Text → Text → Bool
  pub fold : ℕ → ℕ
  pub upper : Text → Text

-- `WHERE id = $1`
unfoldable pub get : ℕ → Securities → Option SecurityRow
get = lookup

unfoldable pub by_ticker_order : Locale → ℕ × SecurityRow → ℕ × SecurityRow → Bool
by_ticker_order locale a b = locale.before a.1.ticker b.1.ticker

unfoldable pub all_tickers : Locale → Bool → Securities → Securities
unfolding by_ticker_order
all_tickers locale include_synthetic securities =
    sort_by (by_ticker_order locale)
      (select (λ s. include_synthetic || not s.1.is_synthetic) securities)

unfoldable pub find_ticker : Text → Securities → Option (ℕ × SecurityRow)
find_ticker ticker [] = none
find_ticker ticker (s ∷ securities) =
    if s.1.ticker == ticker then some s else find_ticker ticker securities

-- `INSERT ... ON CONFLICT (ticker) DO UPDATE SET name`; `next` is the sequence's next value, which an
-- INSERT takes whether it conflicts or not
unfoldable pub upsert_one : ℕ → Text → Text → Securities → Securities
upsert_one next ticker name [] =
    (next, record { ticker = ticker; name = name; exchange = none; is_synthetic = false }) ∷ []
upsert_one next ticker name ((id, row) ∷ securities) =
    if row.ticker == ticker
    then (id, record row { name = name }) ∷ securities
    else (id, row) ∷ upsert_one next ticker name securities

unfoldable pub upsert_many : ℕ → List (Text × Text) → Securities → Securities
unfolding upsert_one
upsert_many next [] securities = securities
upsert_many next ((ticker, name) ∷ rows) securities =
    upsert_many (suc next) rows (upsert_one next ticker name securities)
