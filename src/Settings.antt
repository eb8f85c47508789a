-- ===== src/Settings.antt =====
-- src/watchlist/shared/settings.py: the fields that the modelled code reads. Durations are whole
-- microseconds on the monotonic clock, whole seconds elsewhere.
use ticker_watch_case_study.Base.{ℕ, ◌*◌}
use ticker_watch_case_study.Base.Text.{Text, text}

pub data SourceName : Type 0 where
  api simulated : SourceName

pub data ReadSource : Type 0 where
  redis postgres : ReadSource

pub data Transport : Type 0 where
  poll push : Transport

unfoldable pub source_text : SourceName → Text
source_text api = text "api"
source_text simulated = text "simulated"

pub record Settings : Type 0 where
  pub price_source : SourceName
  pub upstream_poll_interval : ℕ
  pub price_cache_ttl_seconds : ℕ
  pub latest_price_source : ReadSource
  pub transport : Transport
  pub access_token_ttl_seconds : ℕ
  pub refresh_token_ttl_seconds : ℕ
  pub centrifugo_token_ttl_seconds : ℕ

-- the values that `Settings` has when the environment sets nothing
abbrev pub defaults : Settings
defaults = record {
  price_source = api;
  upstream_poll_interval = 5_000_000;
  price_cache_ttl_seconds = 60;
  latest_price_source = redis;
  transport = push;
  access_token_ttl_seconds = 15 * 60;
  refresh_token_ttl_seconds = 30 * 24 * 3600;
  centrifugo_token_ttl_seconds = 15 * 60;
}
