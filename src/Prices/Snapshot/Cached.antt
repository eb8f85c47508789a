-- ===== src/Prices/Snapshot/Cached.antt =====
-- What a snapshot read answers, said of the two stores: the document of Redis, or else the row of
-- Postgres.
use ticker_watch_case_study.Base.{
  ℕ, ◌≡◌, refl, ap, ◌∙◌, true, Option, none, some, List, [], ◌∷◌, arith, length, contains, nat_key,
  Distinct, All,
}
use ticker_watch_case_study.Base.Dict.{Dict, keys, lookup}
use ticker_watch_case_study.Base.Dict.Build.{update-empty}
use ticker_watch_case_study.Base.Dict.Members.{all_found}
use ticker_watch_case_study.Base.Text.{Text, text_key}
use ticker_watch_case_study.Base.Result.{ok, done}
use ticker_watch_case_study.Settings.{ReadSource, redis, postgres}
use ticker_watch_case_study.Cache.{Redis, up, get_prices}
use ticker_watch_case_study.Prices.{LatestPrices}
use ticker_watch_case_study.Prices.Snapshot.{
  Price, PriceSnapshot, Reader, by_ticker, from_cache, first_step, new_reader, read, path_text,
}
use ticker_watch_case_study.Prices.Snapshot.Fallback.{prefer, read_lem}
use ticker_watch_case_study.Prices.Snapshot.Hits.{
  tickers_of, swapped, by_ticker-update, keys-swapped, cached_at, IsReadable, documents, hits,
  decode_all-documents, collect-hits, lookup-hits, documents-Distinct, hits-Distinct,
}

swapped-Distinct :
    (pairs : List (ℕ × Text)) → Distinct (tickers_of pairs) → Distinct (keys (swapped pairs))
swapped-Distinct pairs tickers = rw (keys-swapped pairs) tickers

-- with different tickers, the dict of the read is the list of its pairs
ids_of_read :
    (pairs : List (ℕ × Text)) → Distinct (tickers_of pairs) → by_ticker pairs [] ≡ swapped pairs
ids_of_read pairs tickers =
    by_ticker-update pairs [] ∙ update-empty (swapped pairs) (swapped-Distinct pairs tickers)

known_tickers :
    (ids : Dict Text ℕ) (pairs : List (ℕ × Text))
    → All (λ x. lookup x.0 ids ≡ some x.1) (swapped pairs)
    → All (λ p. lookup p.1 ids ≡ some p.0) pairs
known_tickers ids [] h = tt
known_tickers ids (p ∷ pairs) h = (h.0, known_tickers ids pairs h.1)

module _ {F : Type 0} (clock : ℕ) (r : Redis F) where
  from_cache-hits :
      (p : ℕ × Text) (pairs : List (ℕ × Text))
      → Distinct (keys (p ∷ pairs))
      → Distinct (tickers_of (p ∷ pairs))
      → All (IsReadable clock r) (p ∷ pairs)
      → from_cache up clock r (p ∷ pairs) (new_reader redis)
        ≡ ok (record {
          found = hits clock r (p ∷ pairs);
          cache_hits = length (hits clock r (p ∷ pairs));
          read_path = path_text redis;
        })
  unfolding from_cache new_reader get_prices
  from_cache-hits p pairs ids tickers readable =
      let names = ids_of_read (p ∷ pairs) tickers in
      let known =
        known_tickers (swapped (p ∷ pairs)) (p ∷ pairs)
          (all_found (swapped (p ∷ pairs)) (swapped-Distinct (p ∷ pairs) tickers)) in
      let docs =
        decode_all-documents clock r (p ∷ pairs) [] readable
        ∙ ap ok (
            update-empty (documents clock r (p ∷ pairs))
              (documents-Distinct clock r (p ∷ pairs) tickers)) in
      let found =
        collect-hits clock r (swapped (p ∷ pairs)) (p ∷ pairs) [] readable known
        ∙ ap ok (update-empty (hits clock r (p ∷ pairs)) (hits-Distinct clock r (p ∷ pairs) ids)) in
      rw (from_cache, names, keys-swapped (p ∷ pairs), get_prices, docs, names, new_reader, found)
        refl

  -- what the read finds in the cache: nothing if it goes to Postgres alone
  abbrev pub cached_by : ReadSource → ℕ × Text → Option (Price F)
  cached_by redis p = cached_at clock r p
  cached_by postgres p = none

  first_step-found :
      (source : ReadSource) (p : ℕ × Text) (pairs : List (ℕ × Text))
      → Distinct (keys (p ∷ pairs))
      → Distinct (tickers_of (p ∷ pairs))
      → All (IsReadable clock r) (p ∷ pairs)
      → (self : Reader F) × (first_step source up clock r (p ∷ pairs) (new_reader source) ≡ ok self)
        × ((sid : ℕ) (ticker : Text)
            → lookup sid (p ∷ pairs) ≡ some ticker
            → lookup sid self.found ≡ cached_by source (sid, ticker))
  unfolding first_step
  first_step-found redis p pairs ids tickers readable = (
    _,
    from_cache-hits p pairs ids tickers readable,
    λ sid ticker asked. lookup-hits clock r sid (p ∷ pairs) ids ∙ rw asked refl,
  )
  first_step-found postgres p pairs ids tickers readable =
      (new_reader postgres, refl, λ sid ticker asked. unfold new_reader lookup in refl)

  asked_for :
      (sid : ℕ) (ticker : Text) (pairs : List (ℕ × Text))
      → lookup sid pairs ≡ some ticker
      → contains sid (keys pairs) ≡ true
  unfolding lookup contains
  asked_for sid ticker [] asked = cc
  asked_for sid ticker (p ∷ pairs) asked = ground (arith, asked_for sid ticker pairs)

  -- With both stores answering, a read of securities with different ids and tickers returns.
  -- The price of each security asked for is the one in the document that
  -- Redis has under its ticker, if the cache is to be read; or else its row of `latest_prices`; and it
  -- is missing only if neither is there. The text of each live key of a ticker asked for
  -- decodes, with a price and a time, and the table holds each security once.
  pub read_cached :
      (source : ReadSource) (table : LatestPrices F) (pairs : List (ℕ × Text)) (sid : ℕ)
      (ticker : Text)
      → Distinct (keys table)
      → Distinct (keys pairs)
      → Distinct (tickers_of pairs)
      → All (IsReadable clock r) pairs
      → lookup sid pairs ≡ some ticker
      → (s : PriceSnapshot F) × (read source up clock r done table pairs ≡ ok s)
        × (lookup sid s.prices ≡ prefer (cached_by source (sid, ticker)) (lookup sid table) sid)
  unfolding lookup
  read_cached source table [] sid ticker rows ids tickers readable asked = cc
  read_cached source table (p ∷ pairs) sid ticker rows ids tickers readable asked =
      let (self, first, found) = first_step-found source p pairs ids tickers readable in
      let (s, e, at) =
        read_lem source up clock r table p pairs self sid rows first
          (asked_for sid ticker (p ∷ pairs) asked) in
      (s, e, at ∙ ap (λ cached. prefer cached (lookup sid table) sid) (found sid ticker asked))
