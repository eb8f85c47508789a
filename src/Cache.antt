-- ===== src/Cache.antt =====
-- src/watchlist/shared/cache.py. Redis is a dictionary from keys to values with an expiry, read at a
-- clock in seconds. A JSON text stands for what it decodes to; `malformed` does not decode.
pub mod Guard
pub mod Flush
pub mod Slots
use ticker_watch_case_study.Base.{
  ℕ, zero, suc, ◌+◌, ◌-◌, Bool, true, false, Option, none, some, List, [], ◌∷◌, ◌++◌, leb, length,
  count_if, take, if◌then◌else◌,
}
use ticker_watch_case_study.Base.Dict.{Dict, keys, lookup, insert, erase}
use ticker_watch_case_study.Base.Text.{Text, text, text_key, text_lt, starts_with}
use ticker_watch_case_study.Base.Result.{Error, value_error, Result, ok, raised, ◌>>=◌}

-- A decoded JSON object: the members that some reader asks for.
pub record Document (F : Type 0) : Type 0 where
  pub security_id : Option ℕ
  pub price : Option F
  pub effective_at : Option Text
  pub source : Option Text

pub data Cached (F : Type 0) : Type 0 where
  document : Document F → Cached F
  malformed : Cached F

pub record Slot (F : Type 0) : Type 0 where
  pub value : Cached F
  pub expires : ℕ

abbrev pub Redis : Type 0 → Type 0
Redis F = Dict Text (Slot F)

-- The dict that the price service caches.
pub record Payload (F : Type 0) : Type 0 where
  pub security_id : ℕ
  pub price : F
  pub effective_at : Text
  pub source : Text

-- (ticker, payload, effective_at_iso)
pub record Entry (F : Type 0) : Type 0 where
  pub ticker : Text
  pub payload : Payload F
  pub effective_at_iso : Text

-- The connection of one call. A cut one fails with an error after the server has executed the given
-- number of the call's commands.
pub data Link : Type 0 where
  up : Link
  cut : ℕ → Error → Link

-- `json.dumps(payload)`
unfoldable pub dumps : {F : Type 0} → Payload F → Cached F
dumps p = document (record {
  security_id = some p.security_id;
  price = some p.price;
  effective_at = some p.effective_at;
  source = some p.source;
})

unfoldable pub price_key : Text → Text
price_key ticker = text "price:" ++ ticker

-- the keys that match `price:*`
unfoldable pub price_keys : List Text → List Text
price_keys [] = []
price_keys (k ∷ ks) =
    let rest = price_keys ks in if starts_with (text "price:") k then k ∷ rest else rest

module _ {F : Type 0} where
  live : ℕ → Option (Slot F) → Option (Cached F)
  live clock none = none
  live clock (some slot) = if leb slot.expires clock then none else some slot.value

  -- GET
  unfoldable pub get : ℕ → Text → Redis F → Option (Cached F)
  unfolding live
  get clock key r = live clock (lookup key r)

  -- the test of the script: an existing text that decodes, with a stamp that is later than the new
  unfoldable pub is_newer : Option (Cached F) → Text → Bool
  is_newer none stamp = false
  is_newer (some malformed) stamp = false
  is_newer (some (document d)) stamp = elim d.effective_at [
    | none ↦ false
    | some existing ↦ text_lt stamp existing
  ]

  -- `_CAS_SCRIPT`: KEYS[1], then ARGV
  unfoldable pub cas : ℕ → Text → Cached F → Text → ℕ → Redis F → Bool × Redis F
  cas clock key value stamp ttl r =
      if is_newer (get clock key r) stamp
      then (false, r)
      else (true, insert key (record { value = value; expires = clock + ttl }) r)

  -- `set_price_if_newer`
  unfoldable pub set_price_if_newer :
      Link → ℕ → Text → Payload F → Text → ℕ → Redis F → Result Bool × Redis F
  set_price_if_newer link clock ticker payload stamp ttl r =
      let (written, r') = cas clock (price_key ticker) (dumps payload) stamp ttl r in
      elim link [
        | up ↦ (ok written, r')
        | cut zero e ↦ (raised e, r)
        | cut (suc n) e ↦ (raised e, r')
      ]

  -- the commands of the pipeline, in order
  unfoldable pub pipeline : ℕ → ℕ → List (Entry F) → Redis F → List Bool × Redis F
  pipeline clock ttl [] r = ([], r)
  pipeline clock ttl (e ∷ entries) r =
      let (written, r') =
        cas clock (price_key e.ticker) (dumps e.payload) e.effective_at_iso ttl r in
      let (results, r'') = pipeline clock ttl entries r' in (written ∷ results, r'')

  -- `set_prices_if_newer`: (written, rejected)
  unfoldable pub set_prices_if_newer :
      Link → ℕ → List (Entry F) → ℕ → Redis F → Result (ℕ × ℕ) × Redis F
  set_prices_if_newer link clock [] ttl r = (ok (0, 0), r)
  set_prices_if_newer up clock (e ∷ entries) ttl r =
      let (results, r') = pipeline clock ttl (e ∷ entries) r in
      let written = count_if (λ b. b) results in (ok (written, length results - written), r')
  set_prices_if_newer (cut n error) clock (e ∷ entries) ttl r =
      (raised error, (pipeline clock ttl (take n (e ∷ entries)) r).1)

  -- the loop of `get_prices` over `zip(tickers, raw)`
  unfoldable pub decode_all :
      ℕ → List Text → Redis F → Dict Text (Document F) → Result (Dict Text (Document F))
  decode_all clock [] r out = ok out
  decode_all clock (t ∷ tickers) r out = elim (get clock (price_key t) r) [
    | none ↦ decode_all clock tickers r out
    | some (document d) ↦ decode_all clock tickers r (insert t d out)
    | some malformed ↦ raised value_error
  ]

  unfoldable pub get_prices : Link → ℕ → List Text → Redis F → Result (Dict Text (Document F))
  get_prices link clock [] r = ok []
  get_prices up clock (t ∷ tickers) r = decode_all clock (t ∷ tickers) r []
  get_prices (cut n e) clock (t ∷ tickers) r = raised e

  -- DEL of each scanned key, and how many were there to delete
  unfoldable pub delete_keys : ℕ → List Text → Redis F → ℕ × Redis F
  delete_keys clock [] r = (0, r)
  delete_keys clock (k ∷ ks) r =
      let (deleted, r') = delete_keys clock ks (erase k r) in
      (elim (get clock k r) [ none ↦ deleted | some v ↦ suc deleted ], r')

  unfoldable pub flush_prices : Link → ℕ → Redis F → Result ℕ × Redis F
  flush_prices up clock r =
      let (deleted, r') = delete_keys clock (price_keys (keys r)) r in (ok deleted, r')
  flush_prices (cut n e) clock r =
      (raised e, (delete_keys clock (take n (price_keys (keys r))) r).1)
