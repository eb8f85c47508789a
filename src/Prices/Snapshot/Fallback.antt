-- ===== src/Prices/Snapshot/Fallback.antt =====
-- The two guarantees of the read: an outage of Redis only costs time, and the database answers for
-- every security that the cache does not have.
use ticker_watch_case_study.Base.{
  ℕ, true, not, ◌&&◌, ◌∙◌, select, ◌≡◌, refl, Option, none, some, List, [], ◌∷◌, arith, map, length,
  contains, nat_key, Distinct, inl, inr, ◌==◌, Bool-cases, if◌then◌else◌,
}
use ticker_watch_case_study.Base.Dict.{
  Dict, keys, lookup, insert, has, lookup-insert, lookup-select_keys, lookup_absent,
  select-Distinct,
}
use ticker_watch_case_study.Base.Text.{Text, text_key}
use ticker_watch_case_study.Base.Result.{Error, Result, ok, raised, Fate, done, answer}
use ticker_watch_case_study.Settings.{ReadSource, redis, postgres}
use ticker_watch_case_study.Cache.{Redis, Link, cut, get_prices}
use ticker_watch_case_study.Prices.{PriceRow, LatestPrices, get_many}
use ticker_watch_case_study.Prices.Snapshot.{
  Price, PriceSnapshot, Reader, unavailable, is_outage, by_ticker, row_price, from_cache, add_rows,
  missing_ids, from_database, first_step, finish, new_reader, read,
}

insert_nonempty :
    (k : Text) (v : ℕ) (j : Text) (w : ℕ) (d : Dict Text ℕ)
    → (j' : Text) × (w' : ℕ) × (d' : Dict Text ℕ) × (insert k v ((j, w) ∷ d) ≡ (j', w') ∷ d')
unfolding insert
insert_nonempty k v j w d = elim (Bool-cases (j == k)) [
  | inl same ↦ (j, v, d, rw same)
  | inr other ↦ (j, w, insert k v d, rw other)
]

by_ticker_nonempty :
    (pairs : List (ℕ × Text)) (j : Text) (w : ℕ) (d : Dict Text ℕ)
    → (j' : Text) × (js : List Text) × (keys (by_ticker pairs ((j, w) ∷ d)) ≡ j' ∷ js)
unfolding by_ticker
by_ticker_nonempty [] j w d = (j, keys d, refl)
by_ticker_nonempty ((sid, t) ∷ pairs) j w d =
    let (j', w', d', e) = insert_nonempty t sid j w d in
    let (x, xs, f) = by_ticker_nonempty pairs j' w' d' in (x, xs, rw e f)

module _ {F : Type 0} where
  abbrev pub through_postgres : Result (PriceSnapshot F) → Result (PriceSnapshot F)
  through_postgres (ok s) = ok (record s { read_path = unavailable })
  through_postgres (raised e) = raised e

  from_cache_down :
      (n clock : ℕ) (e : Error) (r : Redis F) (p : ℕ × Text) (pairs : List (ℕ × Text))
      (self : Reader F)
      → is_outage e ≡ true
      → from_cache (cut n e) clock r (p ∷ pairs) self ≡ ok (record self { read_path = unavailable })
  unfolding from_cache get_prices by_ticker insert
  from_cache_down n clock e r (sid, t) pairs self down =
      let (j, js, nonempty) = by_ticker_nonempty pairs t sid [] in
      rw (nonempty, from_cache) (rw down)

  -- While Redis cannot be reached, a read of some securities is the read that goes to Postgres
  -- alone, with the same result or the same exception; only the reported path differs.
  pub read_down :
      (n clock clock' : ℕ) (e : Error) (link : Link) (r r' : Redis F) (fate : Fate)
      (table : LatestPrices F) (p : ℕ × Text) (pairs : List (ℕ × Text))
      → is_outage e ≡ true
      → read redis (cut n e) clock r fate table (p ∷ pairs)
        ≡ through_postgres (read postgres link clock' r' fate table (p ∷ pairs))
  unfolding read first_step new_reader finish
  read_down n clock clock' e link r r' fate table p pairs down =
      rw (from_cache_down n clock e r p pairs (new_reader redis) down) (ground arith)

  -- the cached price, or else the row
  abbrev pub prefer : Option (Price F) → Option (PriceRow F) → ℕ → Option (Price F)
  prefer (some p) row sid = some p
  prefer none (some row) sid = some (row_price sid row)
  prefer none none sid = none

  lookup-add_rows :
      (sid : ℕ) (rows : LatestPrices F) (found : Dict ℕ (Price F))
      → Distinct (keys rows)
      → lookup sid (add_rows rows found)
        ≡ (elim (lookup sid rows) [ none ↦ lookup sid found | some row ↦ some (row_price sid row) ])
  unfolding add_rows lookup
  lookup-add_rows sid [] found h = refl
  lookup-add_rows sid ((k, row) ∷ rows) found h = ground (
    arith,
    lookup-add_rows sid rows (insert k (row_price k row) found) h.1,
    lookup-insert k sid (row_price k row) found,
    lookup_absent k rows h.0,
    nat_key.test_iff k sid,
  )

  contains-missing :
      (sid : ℕ) (found : Dict ℕ (Price F)) (pairs : List (ℕ × Text))
      → contains sid (missing_ids found pairs)
        ≡ contains sid (map (λ p. p.0) pairs) && not (has sid found)
  unfolding contains missing_ids
  contains-missing sid found [] = refl
  contains-missing sid found ((s, t) ∷ pairs) =
      ground (arith, contains-missing sid found pairs, nat_key.test_iff s sid)

  lookup-from_database :
      (table : LatestPrices F) (ids : List ℕ) (found : Dict ℕ (Price F))
      → Distinct (keys table)
      → (prices : Dict ℕ (Price F)) × (from_database done table ids found ≡ ok prices)
        × ((sid : ℕ)
            → lookup sid prices ≡ (
                if contains sid ids
                then (elim (lookup sid table) [
                  | none ↦ lookup sid found
                  | some row ↦ some (row_price sid row)
                ])
                else lookup sid found))
  unfolding from_database answer get_many
  lookup-from_database table [] found h = (found, refl, λ sid. unfold contains in refl)
  lookup-from_database table (i ∷ ids) found h =
      let rows = select (λ (e : ℕ × PriceRow F). contains e.0 (i ∷ ids)) table in
      (
        add_rows rows found,
        refl,
        λ sid.
            lookup-add_rows sid rows found (select-Distinct (λ k. contains k (i ∷ ids)) table h)
            ∙ ground (arith, lookup-select_keys sid (λ (k : ℕ). contains k (i ∷ ids)) table),
      )

  -- With Postgres answering, a read whose first step left `self` returns, and the price of a
  -- security asked for is the one that the cache gave, or else the row of `latest_prices`: it is
  -- missing only if neither has it. The table holds each security once.
  pub read_lem :
      (source : ReadSource) (link : Link) (clock : ℕ) (r : Redis F) (table : LatestPrices F)
      (p : ℕ × Text) (pairs : List (ℕ × Text)) (self : Reader F) (sid : ℕ)
      → Distinct (keys table)
      → first_step source link clock r (p ∷ pairs) (new_reader source) ≡ ok self
      → contains sid (map (λ e. e.0) (p ∷ pairs)) ≡ true
      → (s : PriceSnapshot F) × (read source link clock r done table (p ∷ pairs) ≡ ok s)
        × (lookup sid s.prices ≡ prefer (lookup sid self.found) (lookup sid table) sid)
  unfolding read finish
  read_lem source link clock r table p pairs self sid h first asked =
      let missing = missing_ids self.found (p ∷ pairs) in
      let (prices, e, at) = lookup-from_database table missing self.found h in
      let s : PriceSnapshot F = record {
        prices = prices;
        cache_hits = self.cache_hits;
        cache_misses = length missing;
        read_path = self.read_path;
      } in
      (
        s,
        ground (arith, first, e),
        at sid ∙ (unfold has in ground (arith, contains-missing sid self.found (p ∷ pairs), asked)),
      )
