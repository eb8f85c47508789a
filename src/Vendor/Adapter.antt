-- ===== src/Vendor/Adapter.antt =====
-- The adapter of price_service/sources/vendor.py over the stand-in: what was joined is split again, and
-- the prices are those of the book.
use ticker_watch_case_study.Base.{
  ℕ, ◌≡◌, refl, ap, ◌∙◌, true, false, Option, none, some, List, [], ◌∷◌, arith, map, All, contains,
  select, if◌then◌else◌, Bool-cases, inl, inr,
}
use ticker_watch_case_study.Base.Dict.{
  Dict, lookup, insert, has, dict_of, lookup-insert, dict_of-Distinct,
}
use ticker_watch_case_study.Base.Text.{Text, text, text_key, strip, join, lacks, split-join}
use ticker_watch_case_study.Base.Result.{http_error, Result, ok, raised}
use ticker_watch_case_study.Sources.{Numbers, Walk, walk, vendor_fetch}
use ticker_watch_case_study.Sources.Laws.{quoted, vendor_fetch_lem, walk_omits}
use ticker_watch_case_study.Vendor.{
  VendorMock, require_key, stripped, wanted, unknown_tickers, answers, mock_prices, prices_route,
  request, received,
}

-- a ticker that survives the query string: not empty, with no comma and no spaces at its ends
pub record IsName (t : Text) : Type 0 where
  pub no_comma : lacks b',' t ≡ true
  pub head : ℕ
  pub tail : Text
  pub trimmed : strip t ≡ head ∷ tail
  pub same : t ≡ head ∷ tail

stripped-names : (ts : List Text) → All IsName ts → stripped ts ≡ ts
unfolding stripped
stripped-names [] h = refl
stripped-names (t ∷ ts) h = ground (arith, h.0.trimmed, h.0.same, stripped-names ts h.1)

no_commas : (ts : List Text) → All IsName ts → All (λ v. lacks b',' v ≡ true) ts
no_commas [] h = tt
no_commas (t ∷ ts) h = (h.0.no_comma, no_commas ts h.1)

-- The tickers that the adapter joins for the query string are those that the stand-in reads from it.
wanted-join :
    (t : Text) (ts : List Text) → All IsName (t ∷ ts) → wanted (join (text ",") (t ∷ ts)) ≡ t ∷ ts
unfolding wanted
wanted-join t ts h =
    ap stripped (split-join b',' t ts (no_commas (t ∷ ts) h)) ∙ stripped-names (t ∷ ts) h

lookup-dict_of :
    {F : Type 0} (u : Text) (priced : Dict Text F) (ts : List Text) (d : Dict Text (Option F))
    → lookup u (dict_of (map (λ t. (t, lookup t priced)) ts) d)
      ≡ (if contains u ts then some (lookup u priced) else lookup u d)
unfolding dict_of contains
lookup-dict_of u priced [] d = refl
lookup-dict_of u priced (t ∷ ts) d = ground (
  arith,
  lookup-dict_of u priced ts (insert t (lookup t priced) d),
  lookup-insert t u (lookup t priced) d,
  text_key.test_iff t u,
)

unknown_none :
    (catalog : Dict Text Text) (ts : List Text)
    → All (λ t. has t catalog ≡ true) ts
    → unknown_tickers catalog ts ≡ []
unfolding unknown_tickers select
unknown_none catalog [] h = refl
unknown_none catalog (t ∷ ts) h = ground (arith, h.0, unknown_none catalog ts h.1)

unknown_some :
    (catalog : Dict Text Text) (u : Text) (ts : List Text)
    → contains u ts ≡ true
    → has u catalog ≡ false
    → (t : Text) × (rest : List Text) × (unknown_tickers catalog ts ≡ t ∷ rest)
unfolding unknown_tickers select contains
unknown_some catalog u [] h missing = cc
unknown_some catalog u (t ∷ ts) h missing = elim (Bool-cases (has t catalog)) [
  | inr first ↦ (t, unknown_tickers catalog ts, rw first)
  | inl known ↦
      let (x, xs, e) =
        unknown_some catalog u ts (ground (arith, text_key.test_iff t u, known, missing)) missing in
      (x, xs, rw known e)
]

module _ {F G : Type 0} (n : Numbers F G) (volatility change_ratio : F) (key : Text) where
  abbrev pub ask : Text → VendorMock F G → Result (Dict Text (Option F)) × VendorMock F G
  ask = request n volatility change_ratio key key

  request_known :
      (t : Text) (ts : List Text) (m : VendorMock F G)
      → All IsName (t ∷ ts)
      → All (λ u. has u m.catalog ≡ true) (t ∷ ts)
      → ask (join (text ",") (t ∷ ts)) m ≡ (
        ok (answers (walk n volatility change_ratio (t ∷ ts) [] m.book).0 (t ∷ ts)),
        record m { book = (walk n volatility change_ratio (t ∷ ts) [] m.book).1 },
      )
  unfolding request prices_route require_key received mock_prices
  request_known t ts m names known = ground (
    arith,
    wanted-join t ts names,
    unknown_none m.catalog (t ∷ ts) known,
    text_key.test_iff key key,
  )

  quoted-answers :
      (u : Text) (ts : List Text) (book : Walk F G)
      → quoted (lookup u (answers (walk n volatility change_ratio ts [] book).0 ts))
        ≡ lookup u (walk n volatility change_ratio ts [] book).0
  unfolding answers
  quoted-answers u ts book =
      let priced = (walk n volatility change_ratio ts [] book).0 in
      let nothing : Dict Text (Option F) = [] in
      let empty : lookup u nothing ≡ none = unfold lookup in refl in
      ground (
        arith,
        lookup-dict_of u priced ts [],
        empty,
        walk_omits n volatility change_ratio u ts book,
      )

  -- Over the stand-in, with the key that it wants, the adapter is the walk: a fetch for tickers that
  -- the catalog has returns just the prices that the walk puts out for them, so that a ticker without
  -- a price is left out, and the book moves on as the walk does.
  pub vendor_fetch-walk :
      (t : Text) (ts : List Text) (m : VendorMock F G)
      → All IsName (t ∷ ts)
      → All (λ u. has u m.catalog ≡ true) (t ∷ ts)
      → (out : Dict Text F) × ((vendor_fetch ask (t ∷ ts) m).0 ≡ ok out)
        × ((vendor_fetch ask (t ∷ ts) m).1.book
            ≡ (walk n volatility change_ratio (t ∷ ts) [] m.book).1)
        × ((u : Text)
            → lookup u out ≡ lookup u (walk n volatility change_ratio (t ∷ ts) [] m.book).0)
  unfolding vendor_fetch answers
  vendor_fetch-walk t ts m names known =
      let e = request_known t ts m names known in
      let priced = (walk n volatility change_ratio (t ∷ ts) [] m.book).0 in
      let payload = answers priced (t ∷ ts) in
      let (out, fetched, at) =
        vendor_fetch_lem ask t ts m payload
          (dict_of-Distinct (map (λ (u : Text). (u, lookup u priced)) (t ∷ ts)) [] tt)
          (ap (λ reply. reply.0) e) in
      (out, fetched, ground (arith, e), λ u. at u ∙ quoted-answers u (t ∷ ts) m.book)

  -- If each ticker of a fetch is a name, that is not empty, without a comma and without white space
  -- at its ends, and the catalog does not have one of them, the whole fetch fails with an HTTP error
  -- and no price moves.
  pub vendor_fetch-rejected :
      (t : Text) (ts : List Text) (u : Text) (m : VendorMock F G)
      → All IsName (t ∷ ts)
      → contains u (t ∷ ts) ≡ true
      → has u m.catalog ≡ false
      → vendor_fetch ask (t ∷ ts) m ≡ (raised http_error, m)
  unfolding vendor_fetch request prices_route require_key received mock_prices
  vendor_fetch-rejected t ts u m names asked missing =
      let (x, xs, e) = unknown_some m.catalog u (t ∷ ts) asked missing in
      ground (arith, wanted-join t ts names, e, text_key.test_iff key key)
