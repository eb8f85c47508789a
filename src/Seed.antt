-- ===== src/Seed.antt =====
-- tools/seed/seed_users.py: the synthetic securities, the load users in batches, their watchlist
-- rows, and the ranking of the securities. The generator's draws and its shuffle are arguments.
pub mod Padding
pub mod Users
pub mod Picks
pub mod Ranks
pub mod Batch
use ticker_watch_case_study.Base.{
  ℕ, zero, suc, ◌+◌, ◌-◌, Bool, true, false, Option, none, some, List, [], ◌∷◌, ◌++◌, map, leb, ltb,
  length, take, not, contains, select, nat_key, if◌then◌else◌,
}
use ticker_watch_case_study.Base.Dict.{Dict, keys, lookup, dict_of}
use ticker_watch_case_study.Base.Decimal.{decimal, zero_padded}
use ticker_watch_case_study.Base.Text.{Text, text, text_key}
use ticker_watch_case_study.Base.Result.{Result, ok, raised, postgres_error}
use ticker_watch_case_study.Securities.{SecurityRow, Securities, find_ticker}
use ticker_watch_case_study.Watchlists.{Items}

-- `f"SYN{i:05d}"`
unfoldable pub synthetic_ticker : ℕ → Text
unfolding zero_padded
synthetic_ticker i = text "SYN" ++ zero_padded 5 i

unfoldable pub synthetic_row : ℕ → SecurityRow
unfolding synthetic_ticker
synthetic_row i = record {
  ticker = synthetic_ticker i;
  name = text "Synthetic Holdings " ++ zero_padded 5 i;
  exchange = none;
  is_synthetic = true;
}

-- the rows for `count` numbers from `i` on
unfoldable pub synthetic_rows : ℕ → ℕ → List SecurityRow
unfolding synthetic_row
synthetic_rows zero i = []
synthetic_rows (suc count) i = synthetic_row i ∷ synthetic_rows count (suc i)

-- COPY into `securities`, one row after the other; none when a ticker is there already. `next` is the
-- sequence's next value.
unfoldable pub copy_securities : ℕ → List SecurityRow → Securities → Option Securities
unfolding find_ticker
copy_securities next [] securities = some securities
copy_securities next (row ∷ rows) securities = elim (find_ticker row.ticker securities) [
  | some old ↦ none
  | none ↦ copy_securities (suc next) rows (securities ++ (next, row) ∷ [])
]

-- the COPY as a whole, which a duplicate undoes
unfoldable pub copy_all : ℕ → List SecurityRow → Securities → Result ℕ × Securities
unfolding copy_securities
copy_all next rows securities = elim (copy_securities next rows securities) [
  | none ↦ (raised postgres_error, securities)
  | some after ↦ (ok (length rows), after)
]

unfoldable pub pad_catalog : ℕ → ℕ → Securities → Result ℕ × Securities
unfolding synthetic_rows copy_all
pad_catalog next target securities =
    let existing = length securities in
    if leb target existing
    then (ok 0, securities)
    else copy_all next (synthetic_rows (target - existing) 1) securities

-- a record for the table `users`
pub record UserRecord : Type 0 where
  pub username : Text
  pub email : Text
  pub first_name : Text
  pub last_name : Text
  pub password_hash : Text

unfoldable pub load_user : Text → ℕ → UserRecord
unfolding decimal
load_user password_hash i = record {
  username = text "load_user_" ++ decimal i;
  email = text "load_user_" ++ (decimal i ++ text "@example.com");
  first_name = text "Load";
  last_name = text "User";
  password_hash = password_hash;
}

unfoldable pub user_records : ℕ → Text → ℕ → List UserRecord
unfolding load_user
user_records zero password_hash offset = []
user_records (suc count) password_hash offset =
    load_user password_hash (suc offset) ∷ user_records count password_hash (suc offset)

-- `COPY_BATCH`
abbrev pub copy_batch : ℕ
copy_batch = 50_000

-- `min(COPY_BATCH, remaining - done)`
unfoldable pub batch_size : ℕ → ℕ → ℕ
batch_size done remaining =
    if leb copy_batch (remaining - done) then copy_batch else remaining - done

-- The `while` loop of `seed`, as the batches of users that it copies; none when it is not over after
-- `fuel` batches.
unfoldable pub user_batches : ℕ → Text → ℕ → ℕ → ℕ → Option (List (List UserRecord))
unfolding user_records batch_size
user_batches zero hash offset done remaining = if ltb done remaining then none else some []
user_batches (suc fuel) hash offset done remaining =
    let batch = batch_size done remaining in
    let rest = user_batches fuel hash offset (done + batch) remaining in
    if ltb done remaining
    then (elim rest [
      | none ↦ none
      | some batches ↦ some (user_records batch hash (offset + done) ∷ batches)
    ])
    else some []

-- `ITEMS_PER_USER` and `OVERSAMPLE`
abbrev pub items_per_user : ℕ
items_per_user = 10

abbrev pub oversample : ℕ
oversample = 6

-- `list(dict.fromkeys(drawn))[:ITEMS_PER_USER]`
unfoldable pub picks : List ℕ → List ℕ
unfolding dict_of
picks drawn = take items_per_user (keys (dict_of (map (λ s. (s, tt {0})) drawn) []))

-- `choices` draws so many values with the weights of the catalog
unfoldable pub item_records : {G : Type 0} → (ℕ → G → List ℕ × G) → List ℕ → G → Items
unfolding picks
item_records choices [] rng = []
item_records choices (watchlist_id ∷ watchlist_ids) rng =
    let (drawn, rng') = choices (items_per_user + oversample) rng in
    map (λ s. (watchlist_id, s)) (picks drawn) ++ item_records choices watchlist_ids rng'

-- `POPULARITY`
abbrev pub popularity : List Text
popularity =
    text "NVDA"
    ∷ text "TSLA"
    ∷ text "AAPL"
    ∷ text "AMZN"
    ∷ text "META"
    ∷ text "MSFT"
    ∷ text "GOOG"
    ∷ text "AMD"
    ∷ text "PLTR"
    ∷ text "COIN"
    ∷ text "GME"
    ∷ text "NFLX"
    ∷ text "INTC"
    ∷ text "HOOD"
    ∷ text "SHOP"
    ∷ text "UBER"
    ∷ text "DIS"
    ∷ text "SNAP"
    ∷ text "SPOT"
    ∷ text "NIO"
    ∷ text "F"
    ∷ text "BAC"
    ∷ text "PYPL"
    ∷ text "MRNA"
    ∷ text "ABNB"
    ∷ text "LYFT"
    ∷ text "AFRM"
    ∷ text "SBUX"
    ∷ text "BYND"
    ∷ text "PTON"
    ∷ text "T"
    ∷ text "KO"
    ∷ []

-- `[by_ticker[t] for t in POPULARITY if t in by_ticker]`
unfoldable pub popular_ids : List Text → Dict Text ℕ → List ℕ
unfolding lookup
popular_ids [] by_ticker = []
popular_ids (t ∷ tickers) by_ticker =
    let rest = popular_ids tickers by_ticker in
    elim (lookup t by_ticker) [ none ↦ rest | some id ↦ id ∷ rest ]

-- the popular ones first; `shuffle` is that of `random.Random(seed)`
unfoldable pub rank_securities : (List ℕ → List ℕ) → Securities → List ℕ
unfolding popular_ids dict_of select contains
rank_securities shuffle securities =
    let by_ticker = dict_of (map (λ s. (s.1.ticker, s.0)) securities) [] in
    let ranked = popular_ids popularity by_ticker in
    ranked ++ shuffle (select (λ id. not (contains id ranked)) (keys securities))
