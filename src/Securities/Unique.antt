-- ===== src/Securities/Unique.antt =====
-- A ticker belongs to one security.
use ticker_watch_case_study.Base.{
  ℕ, ◌≡◌, true, some, List, [], ◌∷◌, arith, map, Distinct, contains, nat_key, ◌==◌, Bool-cases, inl,
  inr,
}
use ticker_watch_case_study.Base.Dict.{lookup}
use ticker_watch_case_study.Base.Text.{Text, text_key}
use ticker_watch_case_study.Securities.{SecurityRow, Securities}

abbrev pub tickers : Securities → List Text
tickers = map (λ s. s.1.ticker)

ticker_there :
    (i : ℕ) (row : SecurityRow) (securities : Securities)
    → lookup i securities ≡ some row
    → contains row.ticker (tickers securities) ≡ true
unfolding lookup contains
ticker_there i row [] h = cc
ticker_there i row ((k, r) ∷ securities) h = elim (Bool-cases (k == i)) [
  | inl same ↦
      let r_row : r ≡ row = ground (arith, h, same) in
      rw r_row (ground (arith, text_key.test_iff row.ticker row.ticker))
  | inr other ↦
      ground (arith, ticker_there i row securities, h, other, text_key.test_iff r.ticker row.ticker)
]

-- a ticker has one security
pub same_security :
    (i j : ℕ) (row row' : SecurityRow) (securities : Securities)
    → Distinct (tickers securities)
    → lookup i securities ≡ some row
    → lookup j securities ≡ some row'
    → row.ticker ≡ row'.ticker
    → i ≡ j
unfolding lookup
same_security i j row row' [] d a b e = cc
same_security i j row row' ((k, r) ∷ securities) d a b e = ground (
  arith,
  same_security i j row row' securities d.1,
  ticker_there i row securities,
  ticker_there j row' securities,
  d.0,
  a,
  b,
  e,
  nat_key.test_iff k i,
  nat_key.test_iff k j,
)
