-- ===== src/Securities/Search/Plain.antt =====
-- ILIKE on queries without wildcards: the prefix of a ticker, or a part of a name.
use ticker_watch_case_study.Base.{
  ℕ, ◌≡◌, refl, ap, true, ◌&&◌, ◌||◌, List, [], ◌∷◌, ◌++◌, arith, nat_beq, map,
}
use ticker_watch_case_study.Base.Text.{Text, starts_with, has_part, lacks}
use ticker_watch_case_study.Base.Result.{ok}
use ticker_watch_case_study.Securities.{SecurityRow, Locale}
use ticker_watch_case_study.Securities.Search.{
  Piece, any_run, char, pieces, matches, prefix_pattern, is_match,
}

unfoldable pub literal : Text → List Piece
literal q = map char q ++ any_run ∷ []

module _ (fold : ℕ → ℕ) where
  matches-any_run : (s : Text) → matches fold (any_run ∷ []) s ≡ true
  unfolding matches
  matches-any_run [] = refl
  matches-any_run (c ∷ s) = ground (arith, matches-any_run s)

  pub matches-prefix :
      (q s : Text) → matches fold (literal q) s ≡ starts_with (map fold q) (map fold s)
  unfolding matches starts_with literal
  matches-prefix [] s = matches-any_run s
  matches-prefix (c ∷ q) [] = refl
  matches-prefix (c ∷ q) (d ∷ s) = ap (λ b. nat_beq (fold c) (fold d) && b) (matches-prefix q s)

  matches-inner :
      (q s : Text) → matches fold (any_run ∷ literal q) s ≡ has_part (map fold q) (map fold s)
  unfolding matches has_part
  matches-inner q [] = matches-prefix q []
  matches-inner q (d ∷ s) = ground (arith, matches-prefix q (d ∷ s), matches-inner q s)

pub pieces-literal :
    (q : Text)
    → lacks b'%' q ≡ true
    → lacks b'_' q ≡ true
    → lacks b'\\' q ≡ true
    → pieces (prefix_pattern q) ≡ ok (literal q)
unfolding pieces lacks literal
pieces-literal [] h i j = refl
pieces-literal (c ∷ []) h i j = ground arith
pieces-literal (c ∷ d ∷ q) h i j = ground (arith, pieces-literal (d ∷ q))

-- For a query with no percent sign, underscore or backslash, the rows that match are those whose
-- ticker begins with the query or whose name has the query in it, case apart.
pub is_match_plain :
    (locale : Locale) (q : Text) (ps : List Piece) (i : ℕ) (row : SecurityRow)
    → lacks b'%' q ≡ true
    → lacks b'_' q ≡ true
    → lacks b'\\' q ≡ true
    → pieces (prefix_pattern q) ≡ ok ps
    → is_match locale ps (any_run ∷ ps) (i, row) ≡ (
        starts_with (map locale.fold q) (map locale.fold row.ticker)
        || has_part (map locale.fold q) (map locale.fold row.name))
unfolding is_match
is_match_plain locale q ps i row h j k e = ground (
  arith,
  pieces-literal q h j k,
  matches-prefix locale.fold q row.ticker,
  matches-inner locale.fold q row.name,
)
