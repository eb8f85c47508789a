-- ===== src/Cache/Flush.antt =====
-- `flush_prices`: after it no price is cached.
use ticker_watch_case_study.Base.{
  ℕ, ◌≡◌, refl, true, ◌&&◌, none, List, [], ◌∷◌, arith, contains, if◌then◌else◌,
}
use ticker_watch_case_study.Base.Dict.{keys, lookup, erase, lookup-erase, lookup_absent}
use ticker_watch_case_study.Base.Text.{Text, text, text_key, starts_with}
use ticker_watch_case_study.Cache.{Redis, price_key, price_keys, delete_keys}

contains-price_keys :
    (k : Text) (ks : List Text)
    → contains k (price_keys ks) ≡ (contains k ks && starts_with (text "price:") k)
unfolding price_keys contains
contains-price_keys k [] = refl
contains-price_keys k (j ∷ ks) = ground (arith, contains-price_keys k ks, text_key.test_iff j k)

price_key-prefix : (t : Text) → starts_with (text "price:") (price_key t) ≡ true
unfolding starts_with price_key
price_key-prefix t = refl

module _ {F : Type 0} where
  lookup-delete_keys :
      (clock : ℕ) (k : Text) (ks : List Text) (r : Redis F)
      → lookup k (delete_keys clock ks r).1 ≡ (if contains k ks then none else lookup k r)
  unfolding delete_keys contains
  lookup-delete_keys clock k [] r = refl
  lookup-delete_keys clock k (j ∷ ks) r =
      ground (arith, lookup-delete_keys clock k ks (erase j r), lookup-erase j k r)

  -- the deletion of every key that the scan finds
  pub lookup-flush :
      (clock : ℕ) (t : Text) (r : Redis F)
      → lookup (price_key t) (delete_keys clock (price_keys (keys r)) r).1 ≡ none
  lookup-flush clock t r = ground (
    arith,
    lookup-delete_keys clock (price_key t) (price_keys (keys r)) r,
    contains-price_keys (price_key t) (keys r),
    price_key-prefix t,
    lookup_absent (price_key t) r,
  )
