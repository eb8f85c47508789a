-- ===== src/Sources.antt =====
-- src/watchlist/price_service/sources: the interface of base.py and its two implementations. A
-- source of type `S` is what a fetch reads and moves on: the vendor's transport or the walk.
pub mod Laws
pub mod Quotes
use ticker_watch_case_study.Base.{
  Bool, true, false, Option, none, some, List, [], ◌∷◌, if◌then◌else◌,
}
use ticker_watch_case_study.Base.Dict.{Dict, lookup, insert}
use ticker_watch_case_study.Base.Text.{Text, text, text_key, join}
use ticker_watch_case_study.Base.Result.{Result, ok, raised}

-- `PriceSource`
pub record PriceSource (F S : Type 0) : Type 0 where
  pub name : Text
  pub fetch : List Text → S → Result (Dict Text F) × S

-- Python's floats and its generator, as the simulator uses them. `gauss` takes mu and sigma.
pub record Numbers (F G : Type 0) : Type 0 where
  pub zero : F
  pub one : F
  pub cent : F
  pub add : F → F → F
  pub mul : F → F → F
  pub lt : F → F → Bool
  pub round_cents : F → F
  pub random : G → F × G
  pub gauss : F → F → G → F × G

-- `max(a, b)`
unfoldable pub max : {F G : Type 0} → Numbers F G → F → F → F
max n a b = if n.lt a b then b else a

-- the attributes of a `SimulatedSource` that a fetch changes
pub record Walk (F G : Type 0) : Type 0 where
  pub last : Dict Text F
  pub rng : G

module _ {F G : Type 0} (n : Numbers F G) (volatility change_ratio : F) where
  -- one ticker that the walk knows: its price, moved if the draw says so
  unfoldable pub walk_one : Text → F → Walk F G → F × Walk F G
  walk_one ticker price s =
      let (draw, rng) = n.random s.rng in
      let (noise, rng') = n.gauss n.zero volatility rng in
      let moved = max n (n.round_cents (n.mul price (n.add n.one noise))) n.cent in
      if n.lt draw change_ratio
      then (moved, record { last = insert ticker moved s.last; rng = rng' })
      else (price, record s { rng = rng })

  unfoldable pub walk : List Text → Dict Text F → Walk F G → Dict Text F × Walk F G
  walk [] out s = (out, s)
  walk (ticker ∷ tickers) out s = elim (lookup ticker s.last) [
    | none ↦ walk tickers out s
    | some price ↦
        let (price', s') = walk_one ticker price s in walk tickers (insert ticker price' out) s'
  ]

  -- `SimulatedSource`
  abbrev pub simulated_source : PriceSource F (Walk F G)
  simulated_source = record {
    name = text "simulated";
    fetch = λ tickers s. let (out, s') = walk tickers [] s in (ok out, s');
  }

-- `{t: float(v) for t, v in payload.items() if v is not None}`
unfoldable pub priced : {F : Type 0} → Dict Text (Option F) → Dict Text F → Dict Text F
priced [] out = out
priced ((t, none) ∷ payload) out = priced payload out
priced ((t, some v) ∷ payload) out = priced payload (insert t v out)

module _ {F S : Type 0} where
  read_payload : Result (Dict Text (Option F)) × S → Result (Dict Text F) × S
  read_payload (ok payload, s) = (ok (priced payload []), s)
  read_payload (raised e, s) = (raised e, s)

  -- `VendorSource.fetch`. `get` is the request for the prices of a comma-separated list, status check
  -- and JSON decoding included.
  unfoldable pub vendor_fetch :
      (Text → S → Result (Dict Text (Option F)) × S) → List Text → S → Result (Dict Text F) × S
  unfolding read_payload
  vendor_fetch get [] s = (ok [], s)
  vendor_fetch get (t ∷ tickers) s = read_payload (get (join (text ",") (t ∷ tickers)) s)

  abbrev pub vendor_source : (Text → S → Result (Dict Text (Option F)) × S) → PriceSource F S
  vendor_source get = record { name = text "api"; fetch = vendor_fetch get }
