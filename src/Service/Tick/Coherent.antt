-- ===== src/Service/Tick/Coherent.antt =====
-- What the cache holds, compared with what the service remembers.
pub mod Effect
pub mod Kept
pub mod Run
use ticker_watch_case_study.Base.{ℕ, ◌≡◌, ◌⊎◌, ◌≤◌, Bool, true, some}
use ticker_watch_case_study.Base.Dict.{Dict, lookup}
use ticker_watch_case_study.Base.Text.{Text, text_key}
use ticker_watch_case_study.Settings.{Settings}
use ticker_watch_case_study.Time.{Instant, to_iso}
use ticker_watch_case_study.Time.Order.{InRange}
use ticker_watch_case_study.Sources.{PriceSource}
use ticker_watch_case_study.Cache.{Document, document, Slot, dumps, price_key}
use ticker_watch_case_study.Service.{World, Env}

module _ {F S : Type 0} (feq : F → F → Bool) (source : PriceSource F S) (settings : Settings) where
  -- The slot of the ticker `t` holds a price that is not past the clock; and if its time is that of
  -- the price which the service remembers, it is this price, as `==` has it.
  abbrev pub IsCurrent : Instant → World F S → Text → ℕ → Slot F → Type 0
  IsCurrent clock w t id slot =
      (d : Document F) × (b : Instant) × (slot.value ≡ document d)
      × (d.effective_at ≡ some (to_iso b))
      × (b ≤ clock)
      × InRange b
      × ((price : F)
          → lookup t w.service.last_published ≡ some price
          → lookup t w.service.effective_at ≡ some b
          → (d.security_id ≡ some id) × ((q : F) × (d.price ≡ some q) × (feq q price ≡ true)))

  -- No stamp is past the clock, and every slot of a priced ticker is current, whether it has expired
  -- or not.
  pub record IsCoherent (clock : Instant) (w : World F S) : Type 0 where
    pub stamps :
        (t : Text) (at : Instant)
        → lookup t w.service.effective_at ≡ some at
        → (at ≤ clock) × InRange at
    pub slots :
        (t : Text) (id : ℕ) (slot : Slot F)
        → lookup t w.service.ticker_to_id ≡ some id
        → lookup (price_key t) w.redis ≡ some slot
        → IsCurrent clock w t id slot

  -- the slot holds what a tick with `prices` writes for its ticker
  abbrev pub IsWritten : Dict Text F → World F S → Text → Slot F → Type 0
  IsWritten prices after k slot =
      (t : Text) × (at : Instant) × (id : ℕ) × (price : F) × (price_key t ≡ k)
      × (lookup t after.service.effective_at ≡ some at)
      × (lookup t after.service.ticker_to_id ≡ some id)
      × (lookup t prices ≡ some price)
      × (slot.value
          ≡ dumps (record {
            security_id = id;
            price = price;
            effective_at = to_iso at;
            source = source.name;
          }))

  -- a tick leaves a slot alone or writes one of its prices there
  abbrev pub IsCached : Dict Text F → World F S → World F S → Type 0
  IsCached prices w after =
      (k : Text) (slot : Slot F)
      → lookup k after.redis ≡ some slot
      → (lookup k w.redis ≡ some slot) ⊎ IsWritten prices after k slot
