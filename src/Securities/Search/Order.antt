-- ===== src/Securities/Search/Order.antt =====
-- What `search` answers: all that match, in the order of the query, as many as the limit lets through.
use ticker_watch_case_study.Base.{
  ℕ, zero, suc, ◌≡◌, ◌⊎◌, inl, inr, refl, ap, ◌∙◌, Bool, true, false, ◌&&◌, List, [], ◌∷◌, ◌++◌,
  arith, nat_beq, length, select, take, count_if, Bool-cases,
}
use ticker_watch_case_study.Base.Sort.{
  sort_by, IsOrdered, sort_by-IsOrdered, count_if-sort_by, drop, take-append-drop,
}
use ticker_watch_case_study.Base.Text.{Text}
use ticker_watch_case_study.Base.Result.{Result, ok, ◌>>=◌}
use ticker_watch_case_study.Securities.{SecurityRow, Securities, Locale}
use ticker_watch_case_study.Securities.Search.{
  Piece, any_run, char, piece_of, pieces, prefix_pattern, inner_pattern, is_match, row_order,
  search,
}

-- no query makes a bad pattern, since a percent sign follows it
pieces-prefix : (q : Text) → (ps : List Piece) × (pieces (prefix_pattern q) ≡ ok ps)
unfolding pieces
pieces-prefix [] = (any_run ∷ [], refl)
pieces-prefix (c ∷ []) = elim (Bool-cases (nat_beq c b'\\')) [
  | inl quote ↦ (char b'%' ∷ [], rw quote)
  | inr plain ↦ (piece_of c ∷ any_run ∷ [], rw plain)
]
pieces-prefix (c ∷ d ∷ q) = elim (Bool-cases (nat_beq c b'\\')) [
  | inl quote ↦ let (ps, e) = pieces-prefix q in (char d ∷ ps, rw (quote, e))
  | inr plain ↦ let (ps, e) = pieces-prefix (d ∷ q) in (piece_of c ∷ ps, rw (plain, e))
]

pieces-inner :
    (q : Text) (ps : List Piece)
    → pieces (prefix_pattern q) ≡ ok ps
    → pieces (inner_pattern q) ≡ ok (any_run ∷ ps)
unfolding pieces
pieces-inner [] ps h = ap (λ (m : Result (List Piece)). m >>= λ ps. ok (any_run ∷ ps)) h
pieces-inner (c ∷ q) ps h = rw h

count_if-select {ℓ} :
    {A : Type ℓ} (test keep : A → Bool) (xs : List A)
    → count_if test (select keep xs) ≡ count_if (λ x. keep x && test x) xs
unfolding count_if select
count_if-select test keep [] = refl
count_if-select test keep (x ∷ xs) = ground (arith, count_if-select test keep xs)

take_all {ℓ} : {A : Type ℓ} (n : ℕ) (xs : List A) → (drop n xs ≡ []) ⊎ (length (take n xs) ≡ n)
take_all zero xs = inr refl
take_all (suc n) [] = inl refl
take_all (suc n) (x ∷ xs) = elim (take_all n xs) [ inl e ↦ inl e | inr e ↦ inr (ap suc e) ]

module _ (locale : Locale)
    (total : (a b : Text) → locale.before a b ≡ false → locale.before b a ≡ true)
    (trans : (a b c : Text)
      → locale.before a b ≡ true
      → locale.before b c ≡ true
      → locale.before a c ≡ true) where
  row_order_total :
      (ps : List Piece) (q : Text) (x y : ℕ × SecurityRow)
      → row_order locale ps q x y ≡ false
      → row_order locale ps q y x ≡ true
  unfolding row_order
  row_order_total ps q (i, a) (j, b) h = ground (arith, total a.ticker b.ticker)

  row_order_trans :
      (ps : List Piece) (q : Text) (x y z : ℕ × SecurityRow)
      → row_order locale ps q x y ≡ true
      → row_order locale ps q y z ≡ true
      → row_order locale ps q x z ≡ true
  unfolding row_order
  row_order_trans ps q (i, a) (j, b) (k, c) g h = ground (arith, trans a.ticker b.ticker c.ticker)

  -- Every query is answered, with wildcards and backslashes in it too. The answer and the rows that
  -- the limit cuts off are together the matching rows, each as often as in the table, in the order of
  -- rank, length and ticker; and none is cut off unless the answer has as many as the limit.
  pub search_lem :
      (q : Text) (limit : ℕ) (securities : Securities)
      → (ps : List Piece) × (rows : Securities) × (rest : Securities) × (pieces (prefix_pattern q)
          ≡ ok ps)
        × (search locale q limit securities ≡ ok rows)
        × IsOrdered (row_order locale ps q) (rows ++ rest)
        × ((test : ℕ × SecurityRow → Bool)
            → count_if test (rows ++ rest)
              ≡ count_if (λ s. is_match locale ps (any_run ∷ ps) s && test s) securities)
        × ((rest ≡ []) ⊎ (length rows ≡ limit))
  unfolding search
  search_lem q limit securities =
      let (ps, e) = pieces-prefix q in
      let found = select (is_match locale ps (any_run ∷ ps)) securities in
      let sorted = sort_by (row_order locale ps q) found in
      let parts = take-append-drop limit sorted in
      (
        ps,
        take limit sorted,
        drop limit sorted,
        e,
        rw (e, pieces-inner q ps e),
        rw parts (
            sort_by-IsOrdered (row_order locale ps q) (row_order_total ps q) (row_order_trans ps q)
              found),
        λ test.
            ap (count_if test) parts
            ∙ count_if-sort_by (row_order locale ps q) test found
            ∙ count_if-select test (is_match locale ps (any_run ∷ ps)) securities,
        take_all limit sorted,
      )
