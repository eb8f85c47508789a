-- ===== src/Tests/Securities.antt =====
-- The search and the catalog on a small table.
use ticker_watch_case_study.Base.{
  ℕ, ◌+◌, ◌≡◌, ◌⊎◌, refl, Bool, true, false, ◌&&◌, ◌||◌, none, List, [], ◌∷◌, ◌++◌, arith, leb,
  length, map, select, contains, count_if, list_beq, nat_key, if◌then◌else◌,
}
use ticker_watch_case_study.Base.Sort.{IsOrdered, sort_by, insert_by}
use ticker_watch_case_study.Base.Text.{Text, text, text_key, starts_with, has_part, lacks}
use ticker_watch_case_study.Base.Result.{ok}
use ticker_watch_case_study.Securities.{SecurityRow, Securities, Locale}
use ticker_watch_case_study.Securities.Catalog.{IsTable}
use ticker_watch_case_study.Securities.Search.{
  any_run, char, pieces, matches, is_match, rank, row_order, search,
}
use ticker_watch_case_study.Securities.Search.Answer.{comes_first, is_answer, search_answer}
use ticker_watch_case_study.Securities.Search.Plain.{is_match_plain}

-- ASCII without case, in which a shorter text comes first
abbrev pub lower : ℕ → ℕ
lower c = if leb b'A' c && leb c b'Z' then c + 32 else c

abbrev pub ascii : Locale
ascii = record { before = λ a b. leb (length a) (length b); fold = lower; upper = map lower }

pub ascii_total : (a b : Text) → ascii.before a b ≡ false → ascii.before b a ≡ true
ascii_total a b h = ground arith

pub ascii_trans :
    (a b c : Text) → ascii.before a b ≡ true → ascii.before b c ≡ true → ascii.before a c ≡ true
ascii_trans a b c g h = ground arith

abbrev security : Text → Text → SecurityRow
security ticker name = record {
  ticker = ticker;
  name = name;
  exchange = none;
  is_synthetic = false;
}

abbrev pub catalog : Securities
catalog =
    (1, security (text "NVDA") (text "Nvidia"))
    ∷ (2, security (text "F") (text "Ford"))
    ∷ (3, security (text "FOX") (text "Fox"))
    ∷ []

-- the exact ticker first, then the prefix
search-f :
    search ascii (text "f") 5 catalog
    ≡ ok ((2, security (text "F") (text "Ford")) ∷ (3, security (text "FOX") (text "Fox")) ∷ [])
unfolding search pieces matches is_match rank row_order sort_by insert_by select list_beq
search-f = refl

-- a percent sign of the user is a wildcard
search-percent :
    search ascii (text "%d") 1 catalog ≡ ok ((1, security (text "NVDA") (text "Nvidia")) ∷ [])
unfolding search pieces matches is_match rank row_order sort_by insert_by select list_beq
search-percent = refl

search_answer_example :
    (rows : Securities) × (rest : Securities) × (search ascii (text "f") 1 catalog ≡ ok rows)
    × IsOrdered (comes_first ascii (text "f")) (rows ++ rest)
    × ((test : ℕ × SecurityRow → Bool)
        → count_if test (rows ++ rest)
          ≡ count_if (λ s. is_answer ascii (text "f") s && test s) catalog)
    × ((rest ≡ []) ⊎ (length rows ≡ 1))
unfolding lacks
search_answer_example =
    search_answer ascii (text "f") ascii_total ascii_trans 1 catalog refl refl refl

is_match_plain_example :
    is_match ascii
      (char b'f' ∷ any_run ∷ [])
      (any_run ∷ char b'f' ∷ any_run ∷ [])
      (2, security (text "F") (text "Ford"))
    ≡ (starts_with (map lower (text "f")) (map lower (text "F"))
        || has_part (map lower (text "f")) (map lower (text "Ford")))
unfolding pieces lacks
is_match_plain_example =
    is_match_plain ascii (text "f") (char b'f' ∷ any_run ∷ []) 2 (security (text "F") (text "Ford"))
      refl refl refl refl

abbrev vendor_rows : List (Text × Text)
vendor_rows = (text "F", text "Ford Motor") ∷ (text "T", text "AT&T") ∷ []

catalog-IsTable : IsTable 4 catalog
unfolding contains list_beq
catalog-IsTable = record {
  distinct = (refl, (refl, (refl, tt)));
  handed_out = (omega arith, (omega arith, (omega arith, tt)));
  ids = (refl, (refl, (refl, tt)));
}
