-- ===== src/Seed/Ranks.antt =====
-- The order of popularity against the catalog: it names every security once.
use ticker_watch_case_study.Base.{
  ℕ, ◌≡◌, refl, ap, sym, ◌∙◌, Bool, true, false, not, ◌&&◌, none, some, List, [], ◌∷◌, ◌++◌, arith,
  map, Distinct, contains, count_if, select, nat_key, ◌==◌, list_beq, if◌then◌else◌, Option-cases,
  Bool-cases, inl, inr,
}
use ticker_watch_case_study.Base.Dict.{
  Dict, keys, lookup, insert, dict_of, lookup-insert, lookup_absent,
}
use ticker_watch_case_study.Base.Text.{Text, text_key}
use ticker_watch_case_study.Securities.{Securities}
use ticker_watch_case_study.Seed.{popularity, popular_ids, rank_securities}
use ticker_watch_case_study.Seed.Picks.{count_if-append}

ids_in : Dict Text ℕ → List ℕ
ids_in = map (λ e. e.1)

lookup-dict_of :
    (t : Text) (pairs d : Dict Text ℕ)
    → Distinct (keys pairs)
    → lookup t (dict_of pairs d) ≡ (elim (lookup t pairs) [ none ↦ lookup t d | some i ↦ some i ])
unfolding lookup dict_of
lookup-dict_of t [] d h = refl
lookup-dict_of t ((u, i) ∷ pairs) d h = ground (
  arith,
  lookup-dict_of t pairs (insert u i d) h.1,
  lookup-insert u t i d,
  lookup_absent u pairs h.0,
  text_key.test_iff u t,
)

lookup_in :
    (t : Text) (i : ℕ) (pairs : Dict Text ℕ)
    → lookup t pairs ≡ some i
    → contains i (ids_in pairs) ≡ true
unfolding lookup contains ids_in
lookup_in t i [] h = cc
lookup_in t i ((u, j) ∷ pairs) h = ground (arith, lookup_in t i pairs, nat_key.test_iff j i, h)

-- what the dictionary has is one of the pairs
in_pairs :
    (t : Text) (i : ℕ) (pairs : Dict Text ℕ)
    → Distinct (keys pairs)
    → lookup t (dict_of pairs []) ≡ some i
    → lookup t pairs ≡ some i
in_pairs t i pairs d h =
    let nothing : Dict Text ℕ = [] in
    let empty : lookup t nothing ≡ none = unfold lookup in refl in
    ground (arith, h, lookup-dict_of t pairs [] d, empty)

lookup_injective :
    (t u : Text) (i : ℕ) (pairs : Dict Text ℕ)
    → Distinct (ids_in pairs)
    → lookup t pairs ≡ some i
    → lookup u pairs ≡ some i
    → t ≡ u
unfolding lookup ids_in
lookup_injective t u i [] d h g = cc
lookup_injective t u i ((v, j) ∷ pairs) d h g = ground (
  arith,
  lookup_injective t u i pairs d.1,
  lookup_in t i pairs,
  lookup_in u i pairs,
  d.0,
  text_key.test_iff v t,
  text_key.test_iff v u,
)

module _ (by_ticker : Dict Text ℕ)
    (apart : (t u : Text) (i : ℕ)
      → lookup t by_ticker ≡ some i
      → lookup u by_ticker ≡ some i
      → t ≡ u) where
  popular_ids-new :
      (t : Text) (i : ℕ) (tickers : List Text)
      → lookup t by_ticker ≡ some i
      → contains t tickers ≡ false
      → contains i (popular_ids tickers by_ticker) ≡ false
  unfolding popular_ids contains
  popular_ids-new t i [] h absent = refl
  popular_ids-new t i (u ∷ tickers) h absent = elim (Option-cases (lookup u by_ticker)) [
    | inl none_there ↦
        rw (popular_ids, none_there) (popular_ids-new t i tickers h (ground (arith, absent)))
    | inr (j, there) ↦
        rw (popular_ids, there)
          (ground (
            arith,
            popular_ids-new t i tickers h,
            apart t u i h,
            there,
            absent,
            nat_key.test_iff j i,
            text_key.test_iff u t,
          ))
  ]

  popular_ids-Distinct :
      (tickers : List Text) → Distinct tickers → Distinct (popular_ids tickers by_ticker)
  unfolding popular_ids
  popular_ids-Distinct [] d = tt
  popular_ids-Distinct (t ∷ tickers) d = elim (Option-cases (lookup t by_ticker)) [
    | inl none_there ↦ rw (popular_ids, none_there) (popular_ids-Distinct tickers d.1)
    | inr (i, there) ↦
        rw (popular_ids, there)
          (popular_ids-new t i tickers there d.0, popular_ids-Distinct tickers d.1)
  ]

  -- what is ranked by its ticker is an id of the dictionary
  popular_ids-known :
      (i : ℕ) (tickers : List Text) (known : List ℕ)
      → ((t : Text) → lookup t by_ticker ≡ some i → contains i known ≡ true)
      → contains i (popular_ids tickers by_ticker) ≡ true
      → contains i known ≡ true
  unfolding popular_ids contains
  popular_ids-known i [] known all h = cc
  popular_ids-known i (t ∷ tickers) known all h = elim (Option-cases (lookup t by_ticker)) [
    | inl none_there ↦
        let h' = rw (popular_ids, none_there) at h in popular_ids-known i tickers known all h'
    | inr (j, there) ↦
        let h' = rw (popular_ids, there) at h in
        ground
          (arith, h', popular_ids-known i tickers known all, all t, there, nat_key.test_iff j i)
  ]

count_if-Distinct :
    (i : ℕ) (xs : List ℕ)
    → Distinct xs
    → count_if (λ j. j == i) xs ≡ (if contains i xs then 1 else 0)
unfolding count_if contains
count_if-Distinct i [] d = refl
count_if-Distinct i (x ∷ xs) d =
    ground (arith, count_if-Distinct i xs d.1, d.0, nat_key.test_iff x i)

count_if-others :
    (i : ℕ) (ranked xs : List ℕ)
    → count_if (λ j. j == i) (select (λ j. not (contains j ranked)) xs)
      ≡ (if contains i ranked then 0 else count_if (λ j. j == i) xs)
unfolding count_if select
count_if-others i ranked [] = ground arith
count_if-others i ranked (x ∷ xs) = elim (Bool-cases (x == i)) [
  | inl same ↦ rw ((nat_key.test_iff x i).0 same) (ground (arith, count_if-others i ranked xs))
  | inr other ↦ ground (arith, other, count_if-others i ranked xs)
]

is_distinct : List Text → Bool
is_distinct [] = true
is_distinct (t ∷ ts) = not (contains t ts) && is_distinct ts

is_distinct-Distinct : (ts : List Text) → is_distinct ts ≡ true → Distinct ts
unfolding is_distinct
is_distinct-Distinct [] h = tt
is_distinct-Distinct (t ∷ ts) h = (ground (arith, h), is_distinct-Distinct ts (ground (arith, h)))

popularity-Distinct : Distinct popularity
unfolding is_distinct contains list_beq
popularity-Distinct = is_distinct-Distinct popularity refl

abbrev pub tickers_of : Securities → List Text
tickers_of = map (λ s. s.1.ticker)

-- `{r["ticker"]: r["id"] for r in rows}`, before it is a dictionary
abbrev ticker_ids : Securities → Dict Text ℕ
ticker_ids = map (λ s. (s.1.ticker, s.0))

keys-ticker_ids : (rows : Securities) → keys (ticker_ids rows) ≡ tickers_of rows
keys-ticker_ids [] = refl
keys-ticker_ids (s ∷ rows) = ap (◌∷◌ s.1.ticker) (keys-ticker_ids rows)

ids_in-ticker_ids : (rows : Securities) → ids_in (ticker_ids rows) ≡ keys rows
unfolding ids_in
ids_in-ticker_ids [] = refl
ids_in-ticker_ids (s ∷ rows) = ap (◌∷◌ s.0) (ids_in-ticker_ids rows)

-- some of the ids first, and the others shuffled behind them
ranked_first :
    (shuffle : List ℕ → List ℕ) (ranked ids : List ℕ) (id : ℕ)
    → ((xs : List ℕ) (i : ℕ) → count_if (λ j. j == i) (shuffle xs) ≡ count_if (λ j. j == i) xs)
    → Distinct ranked
    → Distinct ids
    → (contains id ranked ≡ true → contains id ids ≡ true)
    → count_if (λ j. j == id) (ranked ++ shuffle (select (λ j. not (contains j ranked)) ids))
      ≡ count_if (λ j. j == id) ids
ranked_first shuffle ranked ids id shuffled distinct all_distinct known =
    let others = select (λ j. not (contains j ranked)) ids in
    count_if-append (λ j. j == id) ranked (shuffle others)
    ∙ rw (shuffled others id, count_if-others id ranked ids, count_if-Distinct id ranked distinct)
        (elim (Bool-cases (contains id ranked)) [
          | inl here ↦ rw (here, count_if-Distinct id ids all_distinct, known here) refl
          | inr missing ↦ rw missing (omega arith)
        ])

-- The ranking names every security of the catalog once, and nothing else: an id stands in it as often
-- as in the catalog. Tickers and ids are unique, and shuffling keeps how often a value occurs.
pub rank_securities-counts :
    (shuffle : List ℕ → List ℕ) (securities : Securities) (id : ℕ)
    → ((xs : List ℕ) (i : ℕ) → count_if (λ j. j == i) (shuffle xs) ≡ count_if (λ j. j == i) xs)
    → Distinct (tickers_of securities)
    → Distinct (keys securities)
    → count_if (λ j. j == id) (rank_securities shuffle securities)
      ≡ count_if (λ j. j == id) (keys securities)
unfolding rank_securities
rank_securities-counts shuffle securities id shuffled tickers ids =
    let pairs = ticker_ids securities in
    let by_ticker = dict_of pairs [] in
    let d1 : Distinct (keys pairs) = rw (keys-ticker_ids securities) tickers in
    let d2 : Distinct (ids_in pairs) = rw (ids_in-ticker_ids securities) ids in
    let same = λ (t : Text) (i : ℕ) (h : lookup t by_ticker ≡ some i). in_pairs t i pairs d1 h in
    let ranked = popular_ids popularity by_ticker in
    let distinct =
      popular_ids-Distinct by_ticker
        (λ t u i h g. lookup_injective t u i pairs d2 (same t i h) (same u i g)) popularity
        popularity-Distinct in
    let known =
      popular_ids-known by_ticker
        (λ t u i h g. lookup_injective t u i pairs d2 (same t i h) (same u i g)) id popularity
        (keys securities)
        (λ t h. rw (sym (ids_in-ticker_ids securities)) (lookup_in t id pairs (same t id h))) in
    ranked_first shuffle ranked (keys securities) id shuffled distinct ids known
