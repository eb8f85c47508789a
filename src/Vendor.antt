-- ===== src/Vendor.antt =====
-- src/watchlist/vendor_mock/main.py: the vendor's stand-in, its catalog and the walking price book
-- behind it, and the three routes. The rows of its two CSV files are arguments.
pub mod Adapter
use ticker_watch_case_study.Base.{
  ℕ, Bool, true, false, not, Option, none, some, List, [], ◌∷◌, map, length, select, ◌==◌,
  if◌then◌else◌,
}
use ticker_watch_case_study.Base.Dict.{Dict, lookup, has, dict_of}
use ticker_watch_case_study.Base.Text.{Text, text, text_key, strip, split}
use ticker_watch_case_study.Base.Result.{Result, ok, raised, http_error}
use ticker_watch_case_study.Sources.{Numbers, Walk, walk}

-- what a route answers: a JSON body, or the status of an HTTPException
pub data Response (A : Type 0) : Type 0 where
  body : A → Response A
  http_exception : ℕ → Response A

-- `VendorMock`
pub record VendorMock (F G : Type 0) : Type 0 where
  pub catalog : Dict Text Text
  pub book : Walk F G

-- the `require_key` dependency, with what the header holds
unfoldable pub require_key : {A : Type 0} → Text → Option Text → Response A → Response A
require_key key none answer = http_exception 403
require_key key (some sent) answer = if sent == key then answer else http_exception 403

-- `[t.strip() for t in words if t.strip()]`
unfoldable pub stripped : List Text → List Text
unfolding strip
stripped [] = []
stripped (w ∷ words) =
    let rest = stripped words in elim (strip w) [ [] ↦ rest | c ∷ t ↦ (c ∷ t) ∷ rest ]

-- the tickers that a request names
unfoldable pub wanted : Text → List Text
unfolding stripped split
wanted tickers = stripped (split b',' tickers)

unfoldable pub unknown_tickers : Dict Text Text → List Text → List Text
unfolding has
unknown_tickers catalog tickers = select (λ t. not (has t catalog)) tickers

-- `{t: priced.get(t) for t in tickers}`
unfoldable pub answers : {F : Type 0} → Dict Text F → List Text → Dict Text (Option F)
unfolding dict_of
answers priced tickers = dict_of (map (λ t. (t, lookup t priced)) tickers) []

module _ {F G : Type 0} (n : Numbers F G) (volatility change_ratio : F) where
  -- `VendorMock.__init__`, from the rows of securities.csv and prices.csv
  unfoldable pub new_mock : List (Text × Text) → List (Text × F) → G → VendorMock F G
  new_mock securities prices rng = record {
    catalog = dict_of securities [];
    book = record { last = dict_of prices []; rng = rng };
  }

  -- `VendorMock.prices`
  unfoldable pub mock_prices :
      List Text → VendorMock F G → Response (Dict Text (Option F)) × VendorMock F G
  unfolding unknown_tickers answers
  mock_prices tickers m = elim (unknown_tickers m.catalog tickers) [
    | t ∷ ts ↦ (http_exception 400, m)
    | [] ↦
        let (priced, book) = walk n volatility change_ratio tickers [] m.book in
        (body (answers priced tickers), record m { book = book })
  ]

  -- GET /stock/prices/: the walk moves only if the key is right
  unfoldable pub prices_route :
      Text → Option Text → Text → VendorMock F G → Response (Dict Text (Option F)) × VendorMock F G
  unfolding require_key wanted mock_prices
  prices_route key sent tickers m =
      let (answer, m') = mock_prices (wanted tickers) m in
      elim (require_key key sent (body tt)) [
        | http_exception code ↦ (http_exception code, m)
        | body u ↦ (answer, m')
      ]

  -- GET /stock/tickers/
  unfoldable pub tickers_route : Text → Option Text → VendorMock F G → Response (Dict Text Text)
  tickers_route key sent m = require_key key sent (body m.catalog)

  -- GET /health
  unfoldable pub vendor_health : VendorMock F G → ℕ
  vendor_health m = length m.catalog

-- `response.raise_for_status()` and `response.json()` on the adapter's side
unfoldable pub received : {A : Type 0} → Response A → Result A
received (body a) = ok a
received (http_exception code) = raised http_error

-- the adapter's request, with the key that it holds, to the stand-in
unfoldable pub request :
    {F G : Type 0} (n : Numbers F G) (volatility change_ratio : F) (key sent tickers : Text)
    → VendorMock F G
    → Result (Dict Text (Option F)) × VendorMock F G
unfolding prices_route received
request n volatility change_ratio key sent tickers m =
    let (answer, m') = prices_route n volatility change_ratio key (some sent) tickers m in
    (received answer, m')
