-- ===== src/Service/Writers.antt =====
-- `_write_cache`, `_write_postgres` and `_publish`: each changes its own store and its own counters.
pub mod Commute
pub mod Totals
pub mod Proposed
pub mod Upserted
pub mod Cached
use ticker_watch_case_study.Base.{
  ℕ, ◌+◌, ◌-◌, Bool, true, false, Option, none, some, List, [], ◌∷◌, ◌++◌, length, count_if,
  if◌then◌else◌,
}
use ticker_watch_case_study.Base.Dict.{Dict, lookup}
use ticker_watch_case_study.Base.Text.{Text, text, text_key}
use ticker_watch_case_study.Base.Result.{
  Error, http_error, redis_error, postgres_error, interface_error, os_error, value_error, Result,
  ok, raised, ◌>>=◌, Fate, done, refused, lost, Outcome,
}
use ticker_watch_case_study.Settings.{Settings, poll, push, Transport}
use ticker_watch_case_study.Time.{Instant, to_iso}
use ticker_watch_case_study.Cache.{Entry, Redis, set_prices_if_newer}
use ticker_watch_case_study.Securities.{Securities}
use ticker_watch_case_study.Prices.{NewPrice, LatestPrices, upsert_many}
use ticker_watch_case_study.Prices.Snapshot.{require, is_outage}
use ticker_watch_case_study.Service.{
  Stats, Service, Publication, BrokerReply, replies, no_reply, World, Env,
}

-- `except (asyncpg.PostgresError, asyncpg.InterfaceError, OSError)`
unfoldable pub is_postgres_failure : Error → Bool
is_postgres_failure postgres_error = true
is_postgres_failure interface_error = true
is_postgres_failure os_error = true
is_postgres_failure _ = false

-- `except (httpx.HTTPError, ValueError)`
unfoldable pub is_publish_failure : Error → Bool
is_publish_failure http_error = true
is_publish_failure value_error = true
is_publish_failure _ = false

module _ {F : Type 0} (source_name : Text) where
  -- the loop that builds the entries
  unfoldable pub entries : Service F → Dict Text F → Result (List (Entry F))
  unfolding require
  entries self [] = ok []
  entries self ((ticker, price) ∷ prices) = do
    at ← require (lookup ticker self.effective_at)
    id ← require (lookup ticker self.ticker_to_id)
    rest ← entries self prices
    ok (
        record {
          ticker = ticker;
          payload = record {
            security_id = id;
            price = price;
            effective_at = to_iso at;
            source = source_name;
          };
          effective_at_iso = to_iso at;
        }
        ∷ rest)

  -- the rows of the upsert
  unfoldable pub rows : Service F → Dict Text F → Result (List (NewPrice F))
  unfolding require
  rows self [] = ok []
  rows self ((ticker, price) ∷ changed) = do
    id ← require (lookup ticker self.ticker_to_id)
    at ← require (lookup ticker self.effective_at)
    rest ← rows self changed
    ok (record { security_id = id; price = price; effective_at = at; source = source_name } ∷ rest)

  -- the publish commands
  unfoldable pub commands : Service F → Dict Text F → Result (List (Publication F))
  unfolding require
  commands self [] = ok []
  commands self ((ticker, price) ∷ changed) = do
    id ← require (lookup ticker self.ticker_to_id)
    at ← require (lookup ticker self.effective_at)
    rest ← commands self changed
    ok (
        record {
          channel = text "ticker:" ++ ticker;
          security_id = id;
          ticker = ticker;
          price = price;
          effective_at = to_iso at;
          source = source_name;
        }
        ∷ rest)

-- the counters after the guarded writes, or the exception that is not caught
unfoldable pub count_cache : Result (ℕ × ℕ) → Stats → Outcome × Stats
count_cache (ok (written, rejected)) s = (
  ok tt,
  record s {
    cache_writes = s.cache_writes + written;
    cache_writes_rejected = s.cache_writes_rejected + rejected;
  },
)
count_cache (raised e) s =
    if is_outage e then (ok tt, record s { cache_errors = s.cache_errors + 1 }) else (raised e, s)

unfoldable pub count_postgres : Outcome → ℕ → Stats → Outcome × Stats
count_postgres (ok u) n s = (ok tt, record s { postgres_upserts = s.postgres_upserts + n })
count_postgres (raised e) n s =
    if is_postgres_failure e
    then (ok tt, record s { postgres_errors = s.postgres_errors + 1 })
    else (raised e, s)

module _ {F : Type 0} where
  -- one upsert and its fate
  unfoldable pub send_upsert :
      Fate → LatestPrices F → Result (LatestPrices F) → Outcome × LatestPrices F
  send_upsert (refused e) table result = (raised e, table)
  send_upsert done table (ok after) = (ok tt, after)
  send_upsert done table (raised e) = (raised e, table)
  send_upsert (lost e) table (ok after) = (raised e, after)
  send_upsert (lost e) table (raised e') = (raised e, table)

  unfoldable pub count_published : BrokerReply F → List (Publication F) → Stats → Outcome × Stats
  count_published (replies is_error) sent s =
      let failed = count_if is_error sent in
      (
        ok tt,
        record s {
          published = s.published + (length sent - failed);
          publish_errors = s.publish_errors + failed;
          publish_batches = s.publish_batches + 1;
        },
      )
  count_published (no_reply e) sent s =
      if is_publish_failure e
      then (ok tt, record s { publish_errors = s.publish_errors + length sent })
      else (raised e, s)

-- Each writer in two parts: what it reads from the service before its first await, which may raise
-- or be nothing to do, and the effect on its store and on the counters.
module _ {F : Type 0} (settings : Settings) (env : Env F) where
  unfoldable pub cache_step : Result (List (Entry F)) → Redis F → Stats → Outcome × Stats × Redis F
  cache_step (raised e) r s = (raised e, s, r)
  cache_step (ok es) r s =
      let (result, r') =
        set_prices_if_newer env.link env.redis_clock es settings.price_cache_ttl_seconds r in
      let (outcome, s') = count_cache result s in (outcome, s', r')

  unfoldable pub postgres_step :
      Securities
      → Option (Result (List (NewPrice F)))
      → LatestPrices F
      → Stats
      → Outcome × Stats × LatestPrices F
  postgres_step securities none table s = (ok tt, s, table)
  postgres_step securities (some (raised e)) table s = (raised e, s, table)
  postgres_step securities (some (ok rs)) table s =
      let (result, table') =
        send_upsert env.fate table (upsert_many securities env.postgres_now rs table) in
      let (outcome, s') = count_postgres result (length rs) s in (outcome, s', table')

  -- a batch is posted whatever comes back
  unfoldable pub publish_step :
      Option (Result (List (Publication F)))
      → List (List (Publication F))
      → Stats
      → Outcome × Stats × List (List (Publication F))
  publish_step none sent s = (ok tt, s, sent)
  publish_step (some (raised e)) sent s = (raised e, s, sent)
  publish_step (some (ok cmds)) sent s =
      let (outcome, s') = count_published env.broker cmds s in (outcome, s', cmds ∷ sent)

module _ {F : Type 0} (source_name : Text) where
  -- `if not changed: return`
  unfoldable pub postgres_plan : Service F → Dict Text F → Option (Result (List (NewPrice F)))
  postgres_plan self [] = none
  postgres_plan self (c ∷ changed) = some (rows source_name self (c ∷ changed))

  -- `if self._publisher is None or not changed: return`; a poll transport has no publisher
  unfoldable pub publish_plan :
      Transport → Service F → Dict Text F → Option (Result (List (Publication F)))
  publish_plan poll self changed = none
  publish_plan push self [] = none
  publish_plan push self (c ∷ changed) = some (commands source_name self (c ∷ changed))

module _ {F S : Type 0} (settings : Settings) (source_name : Text) (env : Env F) where
  unfoldable pub write_cache : Dict Text F → World F S → Outcome × World F S
  write_cache prices w =
      let (outcome, stats, r) =
        cache_step settings env (entries source_name w.service prices) w.redis w.service.stats in
      (outcome, record w { service = record w.service { stats = stats }; redis = r })

  unfoldable pub write_postgres : Dict Text F → World F S → Outcome × World F S
  write_postgres changed w =
      let (outcome, stats, table) =
        postgres_step settings env w.securities (postgres_plan source_name w.service changed)
          w.latest_prices w.service.stats in
      (outcome, record w { service = record w.service { stats = stats }; latest_prices = table })

  unfoldable pub publish : Dict Text F → World F S → Outcome × World F S
  publish changed w =
      let (outcome, stats, sent) =
        publish_step settings env (publish_plan source_name settings.transport w.service changed)
          w.sent w.service.stats in
      (outcome, record w { service = record w.service { stats = stats }; sent = sent })
