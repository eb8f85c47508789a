-- ===== src/Service.antt =====
-- src/watchlist/price_service/service.py: the state of `PriceService`, the stores that it writes,
-- and what the outside world does during one tick.
pub mod Writers
pub mod Tick
pub mod Startup
use ticker_watch_case_study.Base.{ℕ, Bool, Option, List}
use ticker_watch_case_study.Base.Dict.{Dict}
use ticker_watch_case_study.Base.Text.{Text}
use ticker_watch_case_study.Base.Result.{Error, Fate}
use ticker_watch_case_study.Time.{Instant}
use ticker_watch_case_study.Cache.{Redis, Link}
use ticker_watch_case_study.Securities.{Securities}
use ticker_watch_case_study.Prices.{LatestPrices}

-- `self.stats`
pub record Stats : Type 0 where
  pub ticks : ℕ
  pub updates_received : ℕ
  pub updates_changed : ℕ
  pub cache_writes : ℕ
  pub cache_writes_rejected : ℕ
  pub cache_errors : ℕ
  pub postgres_upserts : ℕ
  pub postgres_errors : ℕ
  pub upstream_calls : ℕ
  pub upstream_errors : ℕ
  pub published : ℕ
  pub publish_batches : ℕ
  pub publish_errors : ℕ

abbrev pub no_stats : Stats
no_stats = record {
  ticks = 0;
  updates_received = 0;
  updates_changed = 0;
  cache_writes = 0;
  cache_writes_rejected = 0;
  cache_errors = 0;
  postgres_upserts = 0;
  postgres_errors = 0;
  upstream_calls = 0;
  upstream_errors = 0;
  published = 0;
  publish_batches = 0;
  publish_errors = 0;
}

-- The attributes that a tick reads and changes. Monotonic times are microseconds.
pub record Service (F : Type 0) : Type 0 where
  pub ticker_to_id : Dict Text ℕ
  pub last_published : Dict Text F
  pub effective_at : Dict Text Instant
  pub last_upstream_fetch : ℕ
  pub upstream_prices : Dict Text F
  pub stats : Stats

-- `data` and `channel` of one publish command
pub record Publication (F : Type 0) : Type 0 where
  pub channel : Text
  pub security_id : ℕ
  pub ticker : Text
  pub price : F
  pub effective_at : Text
  pub source : Text

-- Centrifugo's answer to one batch: a reply for each command, which may be an error, or no answer
-- that can be used.
pub data BrokerReply (F : Type 0) : Type 0 where
  replies : (Publication F → Bool) → BrokerReply F
  no_reply : Error → BrokerReply F

-- The service with all that it writes to. `sent` are the batches posted to the broker, the latest
-- first.
pub record World (F S : Type 0) : Type 0 where
  pub service : Service F
  pub source_state : S
  pub redis : Redis F
  pub securities : Securities
  pub latest_prices : LatestPrices F
  pub sent : List (List (Publication F))

-- What one tick meets: its clocks, the connection to Redis, the fate of the upsert, the broker.
pub record Env (F : Type 0) : Type 0 where
  pub monotonic : ℕ
  pub now : Instant
  pub redis_clock : ℕ
  pub postgres_now : Instant
  pub link : Link
  pub fate : Fate
  pub broker : BrokerReply F
