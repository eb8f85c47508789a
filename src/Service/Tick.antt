-- ===== src/Service/Tick.antt =====
-- `_current_prices`, `tick` and the body of `run_forever`'s loop.
pub mod Accounts
pub mod Stamps
pub mod Ends
pub mod Staleness
pub mod Runs
pub mod InStep
pub mod Coherent
pub mod Moved
use ticker_watch_case_study.Base.{
  ℕ, ◌+◌, ◌-◌, Bool, true, false, not, ◌&&◌, ◌||◌, Option, none, some, List, [], ◌∷◌, leb, length,
  select, if◌then◌else◌,
}
use ticker_watch_case_study.Base.Dict.{Dict, keys, lookup, insert, set_default, update}
use ticker_watch_case_study.Base.Text.{Text, text_key}
use ticker_watch_case_study.Base.Result.{
  Error, http_error, os_error, value_error, Result, ok, raised, Outcome,
}
use ticker_watch_case_study.Settings.{Settings}
use ticker_watch_case_study.Time.{Instant}
use ticker_watch_case_study.Sources.{PriceSource}
use ticker_watch_case_study.Service.{Stats, Service, World, Env}
use ticker_watch_case_study.Service.Writers.{write_cache, write_postgres, publish}

-- `except (httpx.HTTPError, OSError, ValueError)`
unfoldable pub is_fetch_failure : Error → Bool
is_fetch_failure http_error = true
is_fetch_failure os_error = true
is_fetch_failure value_error = true
is_fetch_failure _ = false

-- `d[t] = now` for each ticker
unfoldable pub stamp_all : Instant → List Text → Dict Text Instant → Dict Text Instant
stamp_all now [] m = m
stamp_all now (t ∷ ts) m = stamp_all now ts (insert t now m)

-- `d.setdefault(t, now)` for each ticker
unfoldable pub stamp_new : Instant → List Text → Dict Text Instant → Dict Text Instant
stamp_new now [] m = m
stamp_new now (t ∷ ts) m = stamp_new now ts (set_default t now m)

-- the first exception of the gathered coroutines; each of them has run
unfoldable pub first_raised : Outcome → Outcome → Outcome → Outcome
first_raised (raised e) b c = raised e
first_raised (ok u) (raised e) c = raised e
first_raised (ok u) (ok v) c = c

unfoldable pub is_empty {ℓ} : {A : Type ℓ} → List A → Bool
is_empty [] = true
is_empty (x ∷ xs) = false

-- `feq` is `==` on floats, which a NaN does not pass
module _ {F S : Type 0} (feq : F → F → Bool) (source : PriceSource F S) (settings : Settings) where
  -- `self._last_published.get(t) != p`
  unfoldable pub differs : Dict Text F → Text × F → Bool
  differs last (t, p) = elim (lookup t last) [ none ↦ true | some q ↦ not (feq q p) ]

  unfoldable pub changed_prices : Service F → Dict Text F → Dict Text F
  unfolding differs
  changed_prices self prices = select (differs self.last_published) prices

  unfoldable pub is_due : Env F → Service F → Bool
  is_due env self = leb settings.upstream_poll_interval (env.monotonic - self.last_upstream_fetch)

  -- the `try` around the fetch
  fetched : Env F → Result (Dict Text F) × S → World F S → Result (Dict Text F) × World F S
  unfolding is_fetch_failure
  fetched env (ok prices, st) w = (
    ok prices,
    record w {
      source_state = st;
      service = record w.service {
        upstream_prices = prices;
        last_upstream_fetch = env.monotonic;
        stats = record w.service.stats { upstream_calls = w.service.stats.upstream_calls + 1 };
      };
    },
  )
  fetched env (raised e, st) w =
      if is_fetch_failure e
      then (
        ok w.service.upstream_prices,
        record w {
          source_state = st;
          service = record w.service {
            stats = record w.service.stats {
              upstream_errors = w.service.stats.upstream_errors + 1;
            };
          };
        },
      )
      else (raised e, record w { source_state = st })

  unfoldable pub current_prices : Env F → List Text → World F S → Result (Dict Text F) × World F S
  unfolding fetched is_due
  current_prices env tickers w =
      if not (is_due env w.service) && not (is_empty w.service.upstream_prices)
      then (ok w.service.upstream_prices, w)
      else fetched env (source.fetch tickers w.source_state) w

  -- the stamps and the counters before the writes
  unfoldable pub note_changes : Env F → Dict Text F → Dict Text F → Service F → Service F
  note_changes env prices changed self = record self {
    effective_at =
        stamp_new env.now (keys prices) (stamp_all env.now (keys changed) self.effective_at);
    stats = record self.stats {
      updates_received = self.stats.updates_received + length prices;
      updates_changed = self.stats.updates_changed + length changed;
    };
  }

  -- `asyncio.gather` of the three writes
  unfoldable pub gather : Env F → Dict Text F → Dict Text F → World F S → Outcome × World F S
  unfolding first_raised
  gather env prices changed w =
      let (a, w1) = write_cache settings source.name env prices w in
      let (b, w2) = write_postgres settings source.name env changed w1 in
      let (c, w3) = publish settings source.name env changed w2 in (first_raised a b c, w3)

  -- `self._last_published.update(prices)`, unless the gather raised
  unfoldable pub remember : Dict Text F → Outcome × World F S → Outcome × World F S
  remember prices (raised e, w) = (raised e, w)
  remember prices (ok u, w) = (
    ok u,
    record w {
      service = record w.service { last_published = update prices w.service.last_published };
    },
  )

  -- the part of `tick` after the prices are read
  unfoldable pub handle_prices : Env F → Result (Dict Text F) × World F S → Outcome × World F S
  unfolding note_changes gather remember
  handle_prices env (raised e, w) = (raised e, w)
  handle_prices env (ok [], w) = (ok tt, w)
  handle_prices env (ok (p ∷ prices), w) =
      let changed = changed_prices w.service (p ∷ prices) in
      let w' = record w { service = note_changes env (p ∷ prices) changed w.service } in
      remember (p ∷ prices) (gather env (p ∷ prices) changed w')

  unfoldable pub tick : Env F → World F S → Outcome × World F S
  unfolding handle_prices current_prices
  tick env w =
      let w' = record w {
        service = record w.service {
          stats = record w.service.stats { ticks = w.service.stats.ticks + 1 };
        };
      } in
      handle_prices env (current_prices env (keys w.service.ticker_to_id) w')

  -- `run_forever`: an exception ends its own tick and no other
  unfoldable pub run : List (Env F) → World F S → World F S
  unfolding tick
  run [] w = w
  run (env ∷ envs) w = run envs (tick env w).1
