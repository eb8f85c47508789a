-- ===== src/Tools/Reset.antt =====
-- tools/reset_prices.py: the stored and the cached prices are cleared, beside the price service.
use ticker_watch_case_study.Base.{ℕ, ◌≡◌, refl, ◌∙◌, Bool, none, length, [], All}
use ticker_watch_case_study.Base.Dict.{Dict, lookup}
use ticker_watch_case_study.Base.Text.{Text, text_key}
use ticker_watch_case_study.Base.Result.{Result, ok, raised, Fate, done, refused, lost, execute}
use ticker_watch_case_study.Settings.{Settings}
use ticker_watch_case_study.Sources.{PriceSource}
use ticker_watch_case_study.Cache.{Link, up, cut, price_key, flush_prices}
use ticker_watch_case_study.Cache.Flush.{lookup-flush}
use ticker_watch_case_study.Service.{World, Env}
use ticker_watch_case_study.Service.Tick.{handle_prices}
use ticker_watch_case_study.Service.Tick.Staleness.{IsQuiet, handle_prices_quiet}

module _ {F S : Type 0} where
  -- The DELETE on `latest_prices`, and the rows it took out. An exception ends the script. The loop
  -- over the keys is that of `flush_prices`.
  unfoldable pub reset_prices : Fate → Link → ℕ → World F S → Result (ℕ × ℕ) × World F S
  reset_prices fate link clock w =
      let (rows, table) = execute fate w.latest_prices (length w.latest_prices, []) in
      elim rows [
        | raised e ↦ (raised e, record w { latest_prices = table })
        | ok n ↦
            let (keys, redis) = flush_prices link clock w.redis in
            (
              (elim keys [ raised e ↦ raised e | ok k ↦ ok (n, k) ]),
              record w { latest_prices = table; redis = redis },
            )
      ]

  -- the stores are empty, and the service is what it was
  abbrev IsCleared : World F S → World F S → Type 0
  IsCleared w after =
      (after.latest_prices ≡ [])
      × ((t : Text) → lookup (price_key t) after.redis ≡ none)
      × (after.service ≡ w.service)

  reset_prices-IsCleared :
      (fate : Fate) (link : Link) (clock : ℕ) (counts : ℕ × ℕ) (w : World F S)
      → (reset_prices fate link clock w).0 ≡ ok counts
      → IsCleared w (reset_prices fate link clock w).1
  unfolding reset_prices execute flush_prices
  reset_prices-IsCleared done up clock counts w h = (refl, λ t. lookup-flush clock t w.redis, refl)
  reset_prices-IsCleared done (cut n e) clock counts w h = cc
  reset_prices-IsCleared (refused e) link clock counts w h = cc
  reset_prices-IsCleared (lost e) link clock counts w h = cc

  module _ (feq : F → F → Bool) (source : PriceSource F S) (settings : Settings) where
    -- A reset that ends without an exception leaves no stored and no cached price. If the price service
    -- runs on beside it and its next tick reads prices that are, as `==` has it, the remembered ones,
    -- then `latest_prices` is still empty after that tick, whatever the tick meets.
    pub reset_not_rebuilt :
        (fate : Fate) (link : Link) (clock : ℕ) (counts : ℕ × ℕ) (w : World F S) (env : Env F)
        (prices : Dict Text F)
        → (reset_prices fate link clock w).0 ≡ ok counts
        → All (IsQuiet feq source settings w.service.last_published) prices
        → ((reset_prices fate link clock w).1.latest_prices ≡ [])
          × ((t : Text) → lookup (price_key t) (reset_prices fate link clock w).1.redis ≡ none)
          × ((handle_prices feq source settings env
                (ok prices, (reset_prices fate link clock w).1)).1.latest_prices
              ≡ [])
    reset_not_rebuilt fate link clock counts w env prices ended quiet =
        let after = (reset_prices fate link clock w).1 in
        let (table, cache, same) = reset_prices-IsCleared fate link clock counts w ended in
        (
          table,
          cache,
          (handle_prices_quiet feq source settings env prices after (rw same quiet)).0 ∙ table,
        )
