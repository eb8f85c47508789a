-- ===== src/Watchlists/View/Prices.antt =====
-- What the view shows: every member, in the order of the tickers, with the cached price or else the
-- stored one.
use ticker_watch_case_study.Base.{
  ℕ, ◌≡◌, refl, sym, ap, ◌∙◌, true, false, ◌&&◌, [], ◌∷◌, arith, map, Distinct, All, Option, some,
  List, contains, nat_key,
}
use ticker_watch_case_study.Base.Dict.{keys, lookup, has}
use ticker_watch_case_study.Base.Sort.{IsOrdered, sort_by-IsOrdered}
use ticker_watch_case_study.Base.Text.{Text, text_key}
use ticker_watch_case_study.Base.Result.{ok, done}
use ticker_watch_case_study.Settings.{ReadSource}
use ticker_watch_case_study.Time.{Instant, to_iso}
use ticker_watch_case_study.Cache.{Redis, up}
use ticker_watch_case_study.Securities.{SecurityRow, Securities, Locale, by_ticker_order}
use ticker_watch_case_study.Prices.{LatestPrices}
use ticker_watch_case_study.Prices.Snapshot.{Price, PriceSnapshot, path_text, read}
use ticker_watch_case_study.Prices.Snapshot.Fallback.{prefer}
use ticker_watch_case_study.Prices.Snapshot.Hits.{tickers_of, IsReadable}
use ticker_watch_case_study.Prices.Snapshot.Cached.{cached_by, read_cached}
use ticker_watch_case_study.Base.Dict.Members.{all_found, lookup-All}
use ticker_watch_case_study.Securities.Unique.{tickers}
use ticker_watch_case_study.Watchlists.Members.{
  IsValid, watches, own_list, own_items, default_watchlist_id-known,
}
use ticker_watch_case_study.Watchlists.View.Listed.{
  IsKeyed, sorted-All, sorted-Distinct, tickers-Distinct, contains-sort_by, contains-joined,
}
use mathlib.Core.Path.{subst}
use ticker_watch_case_study.Watchlists.{Tables, joined, members}
use ticker_watch_case_study.Watchlists.View.{
  Watchlist, priced_item, to_item, pairs_of, get_watchlist,
}

module _ {F : Type 0} (source : ReadSource) (clock : ℕ) (r : Redis F) (table : LatestPrices F) where
  -- the price of a member: the cached one, if the cache is to be read, or else the stored one
  abbrev pub price_of : ℕ × SecurityRow → Option (Price F)
  price_of m = prefer (cached_by clock r source (m.0, m.1.ticker)) (lookup m.0 table) m.0

  map-priced :
      (snapshot : PriceSnapshot F) (ms : Securities)
      → All (λ m. lookup m.0 snapshot.prices ≡ price_of m) ms
      → map (to_item snapshot) ms ≡ map (λ m. priced_item m (price_of m)) ms
  unfolding to_item
  map-priced snapshot [] h = refl
  map-priced snapshot (m ∷ ms) h = rw (h.0, map-priced snapshot ms h.1) refl

  read_each :
      (s : PriceSnapshot F) (all xs : Securities)
      → read source up clock r done table (pairs_of all) ≡ ok s
      → Distinct (keys table)
      → Distinct (keys (pairs_of all))
      → Distinct (tickers_of (pairs_of all))
      → All (IsReadable clock r) (pairs_of all)
      → All (λ p. lookup p.0 (pairs_of all) ≡ some p.1) (pairs_of xs)
      → All (λ m. lookup m.0 s.prices ≡ price_of m) xs
  unfolding pairs_of
  read_each s all [] e rows ids tickers readable asked = tt
  read_each s all (m ∷ xs) e rows ids tickers readable asked =
      let (s', e', at) =
        read_cached clock r source table (pairs_of all) m.0 m.1.ticker rows ids tickers readable
          asked.0 in
      let same : ok s ≡ ok s' = sym e ∙ e' in
      (ground (arith, same, at), read_each s all xs e rows ids tickers readable asked.1)

  read_members :
      (all : Securities)
      → Distinct (keys table)
      → Distinct (keys (pairs_of all))
      → Distinct (tickers_of (pairs_of all))
      → All (IsReadable clock r) (pairs_of all)
      → (s : PriceSnapshot F) × (read source up clock r done table (pairs_of all) ≡ ok s)
        × (map (to_item s) all ≡ map (λ m. priced_item m (price_of m)) all)
  unfolding pairs_of
  read_members [] rows ids tickers readable = (
    record { prices = []; cache_hits = 0; cache_misses = 0; read_path = path_text source },
    unfold read in refl,
    refl,
  )
  read_members (m ∷ ms) rows ids tickers readable =
      let pairs = pairs_of (m ∷ ms) in
      let (s, e, at) =
        read_cached clock r source table pairs m.0 m.1.ticker rows ids tickers readable
          (unfold lookup in ground (arith, nat_key.test_iff m.0 m.0)) in
      (
        s,
        e,
        map-priced s (m ∷ ms)
            (read_each s (m ∷ ms) (m ∷ ms) e rows ids tickers readable (all_found pairs ids)),
      )

  keys-pairs_of : (ms : Securities) → keys (pairs_of ms) ≡ keys ms
  unfolding pairs_of
  keys-pairs_of [] = refl
  keys-pairs_of (m ∷ ms) = ap (λ (ks : List ℕ). m.0 ∷ ks) (keys-pairs_of ms)

  tickers_of-pairs_of : (ms : Securities) → tickers_of (pairs_of ms) ≡ tickers ms
  unfolding pairs_of
  tickers_of-pairs_of [] = refl
  tickers_of-pairs_of (m ∷ ms) = ap (λ (ts : List Text). m.1.ticker ∷ ts) (tickers_of-pairs_of ms)

  IsReadable-members :
      (securities ms : Securities)
      → All (IsReadable clock r) (pairs_of securities)
      → All (λ x. lookup x.0 securities ≡ some x.1) ms
      → All (IsReadable clock r) (pairs_of ms)
  unfolding pairs_of
  IsReadable-members securities [] readable there = tt
  IsReadable-members securities (m ∷ ms) readable there = (
    lookup-All (λ x. IsReadable clock r (x.0, x.1.ticker)) m.0 m.1 securities there.0
        (rows securities readable),
    IsReadable-members securities ms readable there.1,
  )
    where
      rows :
          (xs : Securities)
          → All (IsReadable clock r) (pairs_of xs)
          → All (λ x. IsReadable clock r (x.0, x.1.ticker)) xs
      rows [] h = tt
      rows (x ∷ xs) h = (h.0, rows xs h.1)

  module _ (locale : Locale)
      (total : (a b : Text) → locale.before a b ≡ false → locale.before b a ≡ true)
      (trans : (a b c : Text)
        → locale.before a b ≡ true
        → locale.before b c ≡ true
        → locale.before a c ≡ true) where
    pub get_watchlist_lem :
        (now : Instant) (list_id user_id : ℕ) (t : Tables)
        → IsValid list_id t
        → has user_id t.users ≡ true
        → IsKeyed t.items
        → Distinct (tickers t.securities)
        → Distinct (keys table)
        → All (IsReadable clock r) (pairs_of t.securities)
        → (v : Watchlist F) × (ms : Securities) × ((get_watchlist locale source up clock r done
              table now list_id user_id t).0
            ≡ ok v)
          × (v.items ≡ map (λ m. priced_item m (price_of m)) ms)
          × IsOrdered (by_ticker_order locale) ms
          × All (λ m. lookup m.0 t.securities ≡ some m.1) ms
          × Distinct (keys ms)
          × ((k : ℕ) → contains k (keys ms) ≡ (watches user_id k t && has k t.securities))
    unfolding get_watchlist members
    get_watchlist_lem now list_id user_id t valid known keyed unique rows readable =
        let w = own_list list_id user_id t.watchlists in
        let listed = joined t.securities w t.items in
        let ms = members locale t.securities w t.items in
        let there = sorted-All (by_ticker_order locale) t.securities w t.items in
        let ids = sorted-Distinct (by_ticker_order locale) t.securities w t.items keyed in
        let (s, e, shows) =
          read_members ms rows (subst (λ ks. Distinct ks) (sym (keys-pairs_of ms)) ids)
            (subst (λ ts. Distinct ts) (sym (tickers_of-pairs_of ms))
              (tickers-Distinct t.securities ms unique there ids))
            (IsReadable-members t.securities ms readable there) in
        (
          record {
            items = map (to_item s) ms;
            read_path = s.read_path;
            cache_hits = s.cache_hits;
            cache_misses = s.cache_misses;
            as_of = to_iso now;
          },
          ms,
          rw
              (
                get_watchlist,
                default_watchlist_id-known list_id user_id t.watchlists t.users known,
                e,
              )
              refl,
          shows,
          unfold by_ticker_order in
              sort_by-IsOrdered (by_ticker_order locale) (λ a b. total a.1.ticker b.1.ticker)
                (λ a b c. trans a.1.ticker b.1.ticker c.1.ticker) listed,
          there,
          ids,
          λ k.
              contains-sort_by (by_ticker_order locale) k listed
              ∙ contains-joined t.securities w k t.items
              ∙ rw (own_items list_id user_id t.watchlists k t refl valid.fresh valid.owned) refl,
        )
