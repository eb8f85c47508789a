-- ===== src/Prices/Snapshot/Hits.antt =====
-- `_from_cache` of src/watchlist/modules/prices/prices_handler.py, step by step: what it takes from the
-- cache is for each security the document of its key.
use ticker_watch_case_study.Base.{
  ℕ, ◌≡◌, refl, ap, ◌⊎◌, inl, inr, false, Option, none, some, List, [], ◌∷◌, arith, map, contains,
  nat_key, Distinct, All, Option-cases,
}
use ticker_watch_case_study.Base.Dict.{Dict, keys, lookup, lookup_absent, insert, update}
use ticker_watch_case_study.Base.Text.{Text, text, text_key}
use ticker_watch_case_study.Base.Result.{ok}
use ticker_watch_case_study.Cache.{
  Document, Cached, document, malformed, Redis, price_key, get, decode_all,
}
use ticker_watch_case_study.Prices.Snapshot.{Price, by_ticker, collect, require}

-- the tickers that a read asks for
abbrev pub tickers_of : List (ℕ × Text) → List Text
tickers_of = map (λ p. p.1)

-- `{ticker: sid}`
abbrev pub swapped : List (ℕ × Text) → Dict Text ℕ
swapped = map (λ p. (p.1, p.0))

pub by_ticker-update :
    (pairs : List (ℕ × Text)) (d : Dict Text ℕ) → by_ticker pairs d ≡ update (swapped pairs) d
unfolding by_ticker update
by_ticker-update [] d = refl
by_ticker-update ((sid, t) ∷ pairs) d = by_ticker-update pairs (insert t sid d)

pub keys-swapped : (pairs : List (ℕ × Text)) → keys (swapped pairs) ≡ tickers_of pairs
keys-swapped [] = refl
keys-swapped (p ∷ pairs) = ap (λ (ts : List Text). p.1 ∷ ts) (keys-swapped pairs)

module _ {F : Type 0} (clock : ℕ) (r : Redis F) where
  -- The price that Redis has for a security: the one in the JSON text of the live key of its ticker,
  -- with the time and the source there. The text is to have a price and a time.
  abbrev pub cached_at : ℕ × Text → Option (Price F)
  cached_at (sid, ticker) = elim (get clock (price_key ticker) r) [
    | none ↦ none
    | some malformed ↦ none
    | some (document d) ↦ elim d.price [
      | none ↦ none
      | some price ↦ elim d.effective_at [
        | none ↦ none
        | some at ↦ some (record {
          security_id = sid;
          price = price;
          effective_at = at;
          source = elim d.source [ none ↦ text "unknown" | some s ↦ s ];
        })
      ]
    ]
  ]

  -- Redis has no live key for the ticker, or one whose text decodes and has a price and a time
  abbrev pub IsReadable : ℕ × Text → Type 0
  IsReadable (sid, ticker) =
      (get clock (price_key ticker) r ≡ none)
      ⊎ ((d : Document F) × (price : F) × (at : Text) × (get clock (price_key ticker) r
            ≡ some (document d))
          × (d.price ≡ some price)
          × (d.effective_at ≡ some at))

  -- the documents and the prices of a read, in its order
  unfoldable pub documents : List (ℕ × Text) → Dict Text (Document F)
  documents [] = []
  documents ((sid, t) ∷ pairs) = elim (get clock (price_key t) r) [
    | none ↦ documents pairs
    | some malformed ↦ documents pairs
    | some (document d) ↦ (t, d) ∷ documents pairs
  ]

  unfoldable pub hits : List (ℕ × Text) → Dict ℕ (Price F)
  hits [] = []
  hits (p ∷ pairs) = elim (cached_at p) [
    | none ↦ hits pairs
    | some price ↦ (p.0, price) ∷ hits pairs
  ]

  pub decode_all-documents :
      (pairs : List (ℕ × Text)) (out : Dict Text (Document F))
      → All IsReadable pairs
      → decode_all clock (tickers_of pairs) r out ≡ ok (update (documents pairs) out)
  unfolding decode_all documents update
  decode_all-documents [] out readable = refl
  decode_all-documents ((sid, t) ∷ pairs) out readable = elim readable.0 [
    | inl absent ↦ rw (decode_all, documents, absent) (decode_all-documents pairs out readable.1)
    | inr (d, price, at, there, p, q) ↦
        rw (decode_all, documents, there) (decode_all-documents pairs (insert t d out) readable.1)
  ]

  pub collect-hits :
      (ids : Dict Text ℕ) (pairs : List (ℕ × Text)) (found : Dict ℕ (Price F))
      → All IsReadable pairs
      → All (λ p. lookup p.1 ids ≡ some p.0) pairs
      → collect ids (documents pairs) found ≡ ok (update (hits pairs) found)
  unfolding collect documents hits update require
  collect-hits ids [] found readable known = refl
  collect-hits ids ((sid, t) ∷ pairs) found readable known = elim readable.0 [
    | inl absent ↦ rw (documents, hits, absent) (collect-hits ids pairs found readable.1 known.1)
    | inr (d, price, at, there, p, q) ↦
        rw (documents, hits, there, p, q, collect, known.0)
          (collect-hits ids pairs (insert sid _ found) readable.1 known.1)
  ]

  pub lookup-hits :
      (sid : ℕ) (pairs : List (ℕ × Text))
      → Distinct (keys pairs)
      → lookup sid (hits pairs)
        ≡ (elim (lookup sid pairs) [ none ↦ none | some t ↦ cached_at (sid, t) ])
  unfolding hits lookup
  lookup-hits sid [] distinct = refl
  lookup-hits sid ((s, t) ∷ pairs) distinct = ground (
    arith,
    lookup-hits sid pairs distinct.1,
    lookup_absent s pairs distinct.0,
    nat_key.test_iff s sid,
  )

  -- no other security has an entry
  documents-new :
      (t : Text) (pairs : List (ℕ × Text))
      → contains t (tickers_of pairs) ≡ false
      → contains t (keys (documents pairs)) ≡ false
  unfolding documents contains
  documents-new t [] new = refl
  documents-new t ((sid, u) ∷ pairs) new = ground (arith, documents-new t pairs)

  pub documents-Distinct :
      (pairs : List (ℕ × Text)) → Distinct (tickers_of pairs) → Distinct (keys (documents pairs))
  unfolding documents
  documents-Distinct [] distinct = tt
  documents-Distinct ((sid, t) ∷ pairs) distinct =
      let new = documents-new t pairs distinct.0 in
      let rest = documents-Distinct pairs distinct.1 in go (get clock (price_key t) r) new rest
    where
      go :
          (found : Option (Cached F))
          → contains t (keys (documents pairs)) ≡ false
          → Distinct (keys (documents pairs))
          → Distinct (
              keys {V = Document F} (elim found [
                | none ↦ documents pairs
                | some malformed ↦ documents pairs
                | some (document d) ↦ (t, d) ∷ documents pairs
              ]))
      go none new rest = rest
      go (some malformed) new rest = rest
      go (some (document d)) new rest = (new, rest)

  hits-new :
      (sid : ℕ) (pairs : List (ℕ × Text))
      → contains sid (keys pairs) ≡ false
      → contains sid (keys (hits pairs)) ≡ false
  unfolding hits contains
  hits-new sid [] new = refl
  hits-new sid (p ∷ pairs) new = ground (arith, hits-new sid pairs)

  pub hits-Distinct :
      (pairs : List (ℕ × Text)) → Distinct (keys pairs) → Distinct (keys (hits pairs))
  unfolding hits
  hits-Distinct [] distinct = tt
  hits-Distinct (p ∷ pairs) distinct = elim (Option-cases (cached_at p)) [
    | inl absent ↦ rw (hits, absent) (hits-Distinct pairs distinct.1)
    | inr (price, there) ↦
        rw (hits, there) (hits-new p.0 pairs distinct.0, hits-Distinct pairs distinct.1)
  ]
