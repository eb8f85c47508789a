-- ===== src/Securities/Search/Answer.antt =====
-- What `search` answers to a query without wildcards, said of the texts alone.
use mathlib.Core.Path.{subst}
use ticker_watch_case_study.Base.{
  ℕ, ◌≡◌, ◌⊎◌, refl, sym, ap, ◌∙◌, Bool, true, false, ◌&&◌, ◌||◌, [], ◌++◌, arith, ltb, nat_beq,
  length, count_if, map, ◌==◌,
}
use ticker_watch_case_study.Base.Sort.{IsOrdered}
use ticker_watch_case_study.Base.Text.{Text, text_key, starts_with, has_part, lacks}
use ticker_watch_case_study.Base.Result.{ok}
use ticker_watch_case_study.Securities.{SecurityRow, Securities, Locale}
use ticker_watch_case_study.Securities.Search.{rank, row_order, search}
use ticker_watch_case_study.Securities.Search.Order.{search_lem}
use ticker_watch_case_study.Securities.Search.Plain.{
  literal, matches-prefix, pieces-literal, is_match_plain,
}

-- how near a row is: the ticker is the query, it begins with the query, the name does, or neither
abbrev pub nearness : Bool → Bool → Bool → ℕ
nearness true ticker_begins name_begins = 0
nearness false true name_begins = 1
nearness false false true = 2
nearness false false false = 3

module _ (locale : Locale) (q : Text) where
  -- case apart
  abbrev pub begins : Text → Bool
  begins s = starts_with (map locale.fold q) (map locale.fold s)

  abbrev pub is_answer : ℕ × SecurityRow → Bool
  is_answer (i, row) = begins row.ticker || has_part (map locale.fold q) (map locale.fold row.name)

  abbrev pub nearness_of : SecurityRow → ℕ
  nearness_of row =
      nearness (locale.upper row.ticker == locale.upper q) (begins row.ticker) (begins row.name)

  -- the nearer first, of two as near the one with the shorter ticker, of two as long the collation's
  abbrev pub comes_first : ℕ × SecurityRow → ℕ × SecurityRow → Bool
  comes_first (i, a) (j, b) =
      ltb (nearness_of a) (nearness_of b)
      || (nat_beq (nearness_of a) (nearness_of b)
          && (ltb (length a.ticker) (length b.ticker)
              || (nat_beq (length a.ticker) (length b.ticker) && locale.before a.ticker b.ticker)))

  rank_plain : (row : SecurityRow) → rank locale (literal q) q row ≡ nearness_of row
  unfolding rank
  rank_plain row =
      ground (arith, matches-prefix locale.fold q row.ticker, matches-prefix locale.fold q row.name)

  row_order_plain : (x y : ℕ × SecurityRow) → row_order locale (literal q) q x y ≡ comes_first x y
  unfolding row_order
  row_order_plain (i, a) (j, b) = rw (rank_plain a, rank_plain b) refl

  module _ (total : (a b : Text) → locale.before a b ≡ false → locale.before b a ≡ true)
      (trans : (a b c : Text)
        → locale.before a b ≡ true
        → locale.before b c ≡ true
        → locale.before a c ≡ true) where
    -- A query without a percent sign, an underscore and a backslash is answered. The answer and the
    -- rows that the limit cuts off are together the rows whose ticker begins with the query or whose
    -- name has it in it, case apart, each as often as in the table. A row whose ticker is the query
    -- comes first, then those whose ticker begins with it, those whose name does, and the others; of
    -- as near ones the shorter ticker, and of as long ones the collation decides. None is cut off
    -- unless the answer has as many rows as the limit. The collation's order is total and transitive.
    pub search_answer :
        (limit : ℕ) (securities : Securities)
        → lacks b'%' q ≡ true
        → lacks b'_' q ≡ true
        → lacks b'\\' q ≡ true
        → (rows : Securities) × (rest : Securities) × (search locale q limit securities ≡ ok rows)
          × IsOrdered comes_first (rows ++ rest)
          × ((test : ℕ × SecurityRow → Bool)
              → count_if test (rows ++ rest) ≡ count_if (λ s. is_answer s && test s) securities)
          × ((rest ≡ []) ⊎ (length rows ≡ limit))
    search_answer limit securities no_run no_char no_quote =
        let (ps, rows, rest, e, answered, ordered, counts, cut) =
          search_lem locale total trans q limit securities in
        let plain = pieces-literal q no_run no_char no_quote in
        let same : ok ps ≡ ok (literal q) = sym e ∙ plain in
        let literal_ps : ps ≡ literal q = ground arith in
        (
          rows,
          rest,
          answered,
          subst (λ le. IsOrdered le (rows ++ rest)) (λ i x y. row_order_plain x y i)
              (subst (λ ps. IsOrdered (row_order locale ps q) (rows ++ rest)) literal_ps ordered),
          λ test.
              counts test
              ∙ ap (λ (keep : ℕ × SecurityRow → Bool). count_if (λ s. keep s && test s) securities)
                  (λ i s. is_match_plain locale q ps s.0 s.1 no_run no_char no_quote e i),
          cut,
        )
