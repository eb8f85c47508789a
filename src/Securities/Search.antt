-- ===== src/Securities/Search.antt =====
-- `search` of src/watchlist/modules/securities: the LIKE patterns of the query as Postgres reads them,
-- ILIKE, the rank, ORDER BY and LIMIT.
pub mod Order
pub mod Plain
pub mod Answer
use ticker_watch_case_study.Base.{
  ℕ, ◌+◌, Bool, true, false, not, ◌&&◌, ◌||◌, Option, none, some, List, [], ◌∷◌, ◌++◌, ltb, nat_beq,
  leb, length, select, take, map, ◌==◌, if◌then◌else◌,
}
use ticker_watch_case_study.Base.Sort.{sort_by}
use ticker_watch_case_study.Base.Text.{Text, text, text_key, strip}
use ticker_watch_case_study.Base.Result.{Result, ok, raised, ◌>>=◌, postgres_error}
use ticker_watch_case_study.Securities.{SecurityRow, Securities, Locale}

-- a LIKE pattern: `%`, `_`, or a character
pub data Piece : Type 0 where
  any_run any_char : Piece
  char : ℕ → Piece

unfoldable pub piece_of : ℕ → Piece
piece_of c = if nat_beq c b'%' then any_run else if nat_beq c b'_' then any_char else char c

-- A backslash quotes the character behind it; at the end of a pattern Postgres refuses it.
unfoldable pub pieces : Text → Result (List Piece)
unfolding piece_of
pieces [] = ok []
pieces (c ∷ []) = if nat_beq c b'\\' then raised postgres_error else ok (piece_of c ∷ [])
pieces (c ∷ d ∷ pattern) =
    let quoted = pieces pattern >>= λ ps. ok (char d ∷ ps) in
    let plain = pieces (d ∷ pattern) >>= λ ps. ok (piece_of c ∷ ps) in
    if nat_beq c b'\\' then quoted else plain

-- `s ILIKE pattern`, with the characters folded
unfoldable pub matches : (ℕ → ℕ) → List Piece → Text → Bool
matches fold [] [] = true
matches fold [] (c ∷ s) = false
matches fold (char p ∷ ps) [] = false
matches fold (char p ∷ ps) (c ∷ s) = nat_beq (fold p) (fold c) && matches fold ps s
matches fold (any_char ∷ ps) [] = false
matches fold (any_char ∷ ps) (c ∷ s) = matches fold ps s
matches fold (any_run ∷ ps) [] = matches fold ps []
matches fold (any_run ∷ ps) (c ∷ s) = matches fold ps (c ∷ s) || matches fold (any_run ∷ ps) s

-- `$1 || '%'` and `'%' || $1 || '%'`
abbrev pub prefix_pattern : Text → Text
prefix_pattern q = q ++ text "%"

abbrev pub inner_pattern : Text → Text
inner_pattern q = text "%" ++ (q ++ text "%")

-- the WHERE clause
unfoldable pub is_match : Locale → List Piece → List Piece → ℕ × SecurityRow → Bool
unfolding matches
is_match locale prefix inner (id, row) =
    matches locale.fold prefix row.ticker || matches locale.fold inner row.name

-- the CASE of the ORDER BY
unfoldable pub rank : Locale → List Piece → Text → SecurityRow → ℕ
unfolding matches
rank locale prefix q row =
    if locale.upper row.ticker == locale.upper q
    then 0
    else if matches locale.fold prefix row.ticker
    then 1
    else if matches locale.fold prefix row.name
    then 2
    else 3

-- `ORDER BY rank, length(ticker), ticker`
unfoldable pub row_order : Locale → List Piece → Text → ℕ × SecurityRow → ℕ × SecurityRow → Bool
row_order locale prefix q (i, a) (j, b) =
    let r = rank locale prefix q a in
    let s = rank locale prefix q b in
    let m = length a.ticker in
    let n = length b.ticker in
    ltb r s || (nat_beq r s && (ltb m n || (nat_beq m n && locale.before a.ticker b.ticker)))

-- the controller's query
unfoldable pub search : Locale → Text → ℕ → Securities → Result Securities
unfolding pieces is_match row_order
search locale q limit securities = do
  prefix ← pieces (prefix_pattern q)
  inner ← pieces (inner_pattern q)
  ok (
      take limit
        (sort_by (row_order locale prefix q) (select (is_match locale prefix inner) securities)))

pub record Security : Type 0 where
  pub id : ℕ
  pub ticker : Text
  pub name : Text
  pub exchange : Option Text

unfoldable pub to_security : ℕ × SecurityRow → Security
to_security (i, row) = record {
  id = i;
  ticker = row.ticker;
  name = row.name;
  exchange = row.exchange;
}

-- the handler's `search`
unfoldable pub search_handler : Locale → Text → ℕ → Securities → Result (List Security)
unfolding search strip to_security
search_handler locale q limit securities = do
  rows ← search locale (strip q) limit securities
  ok (map to_security rows)
