-- ===== src/Sources/Laws.antt =====
-- What both sources promise: only tickers that were asked for, and no price that cannot be.
use ticker_watch_case_study.Base.{
  false, ◌≡◌, refl, ◌∙◌, Distinct, Option, none, some, List, [], ◌∷◌, arith, contains, Bool-cases,
  Option-cases, inl, inr,
}
use ticker_watch_case_study.Base.Dict.{Dict, lookup, insert, lookup-insert, lookup_absent, keys}
use ticker_watch_case_study.Base.Text.{Text, text_key, join, text}
use ticker_watch_case_study.Base.Result.{Result, ok}
use ticker_watch_case_study.Sources.{Numbers, max, Walk, walk_one, walk, priced, vendor_fetch}

module _ {F G : Type 0} (n : Numbers F G) (volatility change_ratio : F) where
  -- the price of a ticker that was not asked for, or that the walk does not know, is left alone
  lookup-walk_other :
      (t : Text) (tickers : List Text) (out : Dict Text F) (s : Walk F G)
      → contains t tickers ≡ false
      → lookup t (walk n volatility change_ratio tickers out s).0 ≡ lookup t out
  unfolding walk contains
  lookup-walk_other t [] out s h = refl
  lookup-walk_other t (x ∷ tickers) out s h = elim (Option-cases (lookup x s.last)) [
    | inl unknown ↦ rw (unknown, walk) (lookup-walk_other t tickers out s (ground arith))
    | inr (price, known) ↦
        let (p', s') = walk_one n volatility change_ratio x price s in
        ground
          (arith, known, lookup-walk_other t tickers (insert x p' out) s', lookup-insert x t p' out)
  ]

  -- the floor of the walk
  abbrev pub IsAboveFloor : F → Type 0
  IsAboveFloor p = n.lt p n.cent ≡ false

  pub record AllAboveFloor (m : Dict Text F) : Type 0 where
    pub at : (t : Text) (p : F) → lookup t m ≡ some p → IsAboveFloor p

  max_floor : (p : F) → n.lt n.cent n.cent ≡ false → IsAboveFloor (max n p n.cent)
  unfolding max
  max_floor p irreflexive = ground (arith, irreflexive)

  insert_floor :
      (t : Text) (p : F) (m : Dict Text F)
      → IsAboveFloor p
      → AllAboveFloor m
      → AllAboveFloor (insert t p m)
  insert_floor t p m hp hm = record {
    at = λ u q e. ground (arith, lookup-insert t u p m, hp, hm.at u q);
  }

  walk_one_floor :
      (t : Text) (p : F) (s : Walk F G)
      → n.lt n.cent n.cent ≡ false
      → IsAboveFloor p
      → AllAboveFloor s.last
      → IsAboveFloor (walk_one n volatility change_ratio t p s).0
        × AllAboveFloor (walk_one n volatility change_ratio t p s).1.last
  unfolding walk_one
  walk_one_floor t p s irreflexive hp hs =
      let (draw, rng) = n.random s.rng in
      let (noise, rng') = n.gauss n.zero volatility rng in
      let raw = n.round_cents (n.mul p (n.add n.one noise)) in
      let floor = max_floor raw irreflexive in
      elim (Bool-cases (n.lt draw change_ratio)) [
        | inl moves ↦ rw moves (floor, insert_floor t (max n raw n.cent) s.last floor hs)
        | inr stays ↦ rw stays (hp, hs)
      ]

  -- The walk never brings a price below one cent: if the known prices and those already put out are
  -- not below it, all prices put out and all known prices are not, whatever the generator draws.
  pub walk_floor :
      (tickers : List Text) (out : Dict Text F) (s : Walk F G)
      → n.lt n.cent n.cent ≡ false
      → AllAboveFloor out
      → AllAboveFloor s.last
      → AllAboveFloor (walk n volatility change_ratio tickers out s).0
        × AllAboveFloor (walk n volatility change_ratio tickers out s).1.last
  unfolding walk
  walk_floor [] out s irreflexive ho hs = (ho, hs)
  walk_floor (t ∷ tickers) out s irreflexive ho hs = elim (Option-cases (lookup t s.last)) [
    | inl unknown ↦ rw (unknown, walk) (walk_floor tickers out s irreflexive ho hs)
    | inr (price, known) ↦
        let (p', s') = walk_one n volatility change_ratio t price s in
        let (hp, hs') = walk_one_floor t price s irreflexive (hs.at t price known) hs in
        rw (known, walk)
          (walk_floor tickers (insert t p' out) s' irreflexive (insert_floor t p' out hp ho) hs')
  ]

  -- A fetch of the simulator gives no price to a ticker that was not asked for.
  pub walk_omits :
      (t : Text) (tickers : List Text) (s : Walk F G)
      → contains t tickers ≡ false
      → lookup t (walk n volatility change_ratio tickers [] s).0 ≡ none
  walk_omits t tickers s h = lookup-walk_other t tickers [] s h ∙ (unfold lookup in refl)

-- what the vendor's payload says of a ticker, where no ticker stands twice in it
abbrev pub quoted : {F : Type 0} → Option (Option F) → Option F
quoted none = none
quoted (some v) = v

lookup-priced :
    {F : Type 0} (t : Text) (payload : Dict Text (Option F)) (out : Dict Text F)
    → Distinct (keys payload)
    → lookup t (priced payload out)
      ≡ (elim (quoted (lookup t payload)) [ none ↦ lookup t out | some v ↦ some v ])
unfolding priced lookup
lookup-priced t [] out d = refl
lookup-priced t ((k, none) ∷ payload) out d =
    ground
      (arith, lookup-priced t payload out d.1, lookup_absent k payload d.0, text_key.test_iff k t)
lookup-priced t ((k, some v) ∷ payload) out d = ground (
  arith,
  lookup-priced t payload (insert k v out) d.1,
  lookup-insert k t v out,
  lookup_absent k payload d.0,
  text_key.test_iff k t,
)

-- A fetch from the vendor sends all tickers in one request, and gives every ticker exactly the price
-- that the answer has for it: a null is left out, and an exception is passed on.
pub vendor_fetch_lem :
    {F S : Type 0} (get : Text → S → Result (Dict Text (Option F)) × S) (t : Text)
    (tickers : List Text) (s : S) (payload : Dict Text (Option F))
    → Distinct (keys payload)
    → (get (join (text ",") (t ∷ tickers)) s).0 ≡ ok payload
    → (out : Dict Text F) × ((vendor_fetch get (t ∷ tickers) s).0 ≡ ok out)
      × ((u : Text) → lookup u out ≡ quoted (lookup u payload))
unfolding vendor_fetch
vendor_fetch_lem get t tickers s payload d h = (
  priced payload [],
  ground (arith, h),
  λ u. lookup-priced u payload [] d ∙ (unfold lookup in ground arith),
)
