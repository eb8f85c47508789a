-- ===== src/Tools/Capture.antt =====
-- tools/seed/capture_prices.py: the seed files from one answer of the vendor. A file is the rows below
-- its header.
use ticker_watch_case_study.Base.{
  Bool, not, ◌≡◌, refl, ap, ◌∙◌, Option, none, some, List, [], ◌∷◌, arith, contains, ◌==◌,
  Bool-cases, inl, inr, if◌then◌else◌,
}
use ticker_watch_case_study.Base.Dict.{Dict, keys, lookup}
use ticker_watch_case_study.Base.Dict.Members.{contains-keys}
use ticker_watch_case_study.Base.Sort.{sort_by, insert_by}
use ticker_watch_case_study.Base.Text.{Text, text, text_key, text_lt, join}
use ticker_watch_case_study.Base.Result.{Result, ok, raised, Outcome}

-- the two files under seed/
pub record SeedFiles (F : Type 0) : Type 0 where
  pub securities : Option (List (Text × Text))
  pub prices : Option (Dict Text (F × Text))

-- the order of `sorted(catalog)`
unfoldable pub ticker_order : Text → Text → Bool
ticker_order a b = not (text_lt b a)

-- `(t, catalog[t]) for t in tickers`; every ticker is a key
unfoldable pub name_rows : Dict Text Text → List Text → List (Text × Text)
name_rows catalog [] = []
name_rows catalog (t ∷ tickers) =
    let rest = name_rows catalog tickers in
    elim (lookup t catalog) [ none ↦ rest | some name ↦ (t, name) ∷ rest ]

module _ {F : Type 0} where
  -- `prices.get(t)`
  unfoldable pub quote_of : Dict Text (Option F) → Text → Option F
  quote_of prices t = elim (lookup t prices) [ none ↦ none | some quote ↦ quote ]

  -- the priced tickers, each with its price and the time of the capture
  unfoldable pub price_rows : Dict Text (Option F) → Text → List Text → Dict Text (F × Text)
  unfolding quote_of
  price_rows prices captured_at [] = []
  price_rows prices captured_at (t ∷ tickers) =
      let rest = price_rows prices captured_at tickers in
      elim (quote_of prices t) [ none ↦ rest | some p ↦ (t, (p, captured_at)) ∷ rest ]

  -- `main`, from the two requests on; `get` is the one for a comma-separated list of tickers
  unfoldable pub capture :
      Result (Dict Text Text)
      → (Text → Result (Dict Text (Option F)))
      → Text
      → SeedFiles F
      → Outcome × SeedFiles F
  unfolding name_rows price_rows ticker_order sort_by
  capture (raised e) get captured_at files = (raised e, files)
  capture (ok catalog) get captured_at files =
      let tickers = sort_by ticker_order (keys catalog) in
      elim (get (join (text ",") tickers)) [
        | raised e ↦ (raised e, files)
        | ok prices ↦ (
          ok tt,
          record {
            securities = some (name_rows catalog tickers);
            prices = some (price_rows prices captured_at tickers);
          },
        )
      ]

contains-insert :
    (t x : Text) (xs : List Text) → contains t (insert_by ticker_order x xs) ≡ contains t (x ∷ xs)
unfolding insert_by contains
contains-insert t x [] = refl
contains-insert t x (y ∷ ys) = ground (arith, contains-insert t x ys)

contains-sorted : (t : Text) (xs : List Text) → contains t (sort_by ticker_order xs) ≡ contains t xs
unfolding sort_by contains
contains-sorted t [] = refl
contains-sorted t (x ∷ xs) =
    contains-insert t x (sort_by ticker_order xs) ∙ ground (arith, contains-sorted t xs)

lookup-name_rows :
    (catalog : Dict Text Text) (t : Text) (tickers : List Text)
    → lookup t (name_rows catalog tickers) ≡ (if contains t tickers then lookup t catalog else none)
unfolding name_rows lookup contains
lookup-name_rows catalog t [] = refl
lookup-name_rows catalog t (x ∷ tickers) = elim (Bool-cases (x == t)) [
  | inl same ↦
      let x_t = (text_key.test_iff x t).0 same in
      ground (arith, x_t, same, lookup-name_rows catalog t tickers, text_key.test_iff t x)
  | inr other ↦ ground (
    arith,
    other,
    lookup-name_rows catalog t tickers,
    text_key.test_iff t x,
    text_key.test_iff x t,
  )
]

module _ {F : Type 0} where
  -- the row of a ticker that has a quote
  abbrev captured : Text → Option F → Option (F × Text)
  captured captured_at none = none
  captured captured_at (some p) = some (p, captured_at)

  lookup-price_rows :
      (prices : Dict Text (Option F)) (captured_at t : Text) (tickers : List Text)
      → lookup t (price_rows prices captured_at tickers)
        ≡ (if contains t tickers then captured captured_at (quote_of prices t) else none)
  unfolding price_rows lookup contains
  lookup-price_rows prices captured_at t [] = refl
  lookup-price_rows prices captured_at t (x ∷ tickers) =
      let rest = lookup-price_rows prices captured_at t tickers in
      elim (Bool-cases (x == t)) [
        | inl same ↦
            let x_t = (text_key.test_iff x t).0 same in
            ground (arith, x_t, same, rest, text_key.test_iff t x)
        | inr other ↦ ground (arith, other, rest, text_key.test_iff t x, text_key.test_iff x t)
      ]

  -- When the vendor answers both requests, the capture ends without an error. The first file then
  -- gives each ticker the name that the catalog has for it, and no other; the second gives each ticker
  -- of the catalog the quote of the answer with the time of the capture, and none to a ticker that the
  -- answer leaves out or quotes as null.
  capture_lem :
      (catalog : Dict Text Text) (get : Text → Result (Dict Text (Option F)))
      (prices : Dict Text (Option F)) (captured_at : Text) (files : SeedFiles F)
      → get (join (text ",") (sort_by ticker_order (keys catalog))) ≡ ok prices
      → (names : List (Text × Text)) × (rows : Dict Text (F × Text)) × (capture
            (ok catalog)
            get
            captured_at
            files
          ≡ (ok tt, record { securities = some names; prices = some rows }))
        × ((t : Text) → lookup t names ≡ lookup t catalog)
        × ((t : Text)
            → lookup t rows ≡ (
                if contains t (keys catalog)
                then captured captured_at (quote_of prices t)
                else none))
  unfolding capture
  capture_lem catalog get prices captured_at files answered =
      let tickers = sort_by ticker_order (keys catalog) in
      (
        name_rows catalog tickers,
        price_rows prices captured_at tickers,
        rw (capture, answered) refl,
        λ t.
            lookup-name_rows catalog t tickers
            ∙ ground (arith, contains-sorted t (keys catalog), contains-keys t catalog),
        λ t.
            lookup-price_rows prices captured_at t tickers
            ∙ ap (λ b. if b then captured captured_at (quote_of prices t) else none)
                (contains-sorted t (keys catalog)),
      )
