-- ===== src/Api/Health.antt =====
-- GET /health of src/watchlist/api/main.py.
use ticker_watch_case_study.Base.{
  ◌≡◌, Bool, true, false, ◌&&◌, List, [], ◌++◌, arith, inl, inr, ◌==◌, list_beq, if◌then◌else◌,
}
use ticker_watch_case_study.Base.Text.{Text, text, text_key}
use ticker_watch_case_study.Base.Result.{
  Error, os_error, postgres_error, runtime_error, redis_error, Result, ok, raised, ◌>>=◌,
  Result-cases,
}
use ticker_watch_case_study.Settings.{Settings, ReadSource, Transport}

-- how the checks of one request end: `SELECT 1`, whether the table is there, its sources, the ping
pub record Probes : Type 0 where
  pub select_one : Result (Unit {0})
  pub regclass : Result Bool
  pub sources : Result (List Text)
  pub ping : Result (Unit {0})

pub record HealthReport : Type 0 where
  pub status : Text
  pub postgres : Text
  pub redis : Text
  pub schema : Text
  pub transport : Transport
  pub latest_price_source : ReadSource
  pub price_sources_in_data : List Text

-- what the Postgres checks have found out when they end
pub record Found : Type 0 where
  pub check : Text
  pub schema_ready : Bool
  pub sources : List Text

-- `except (OSError, asyncpg.PostgresError, RuntimeError)`
unfoldable pub is_postgres_outage : Error → Bool
is_postgres_outage os_error = true
is_postgres_outage postgres_error = true
is_postgres_outage runtime_error = true
is_postgres_outage _ = false

-- `except (OSError, redis.exceptions.RedisError)`
unfoldable pub is_redis_outage : Error → Bool
is_redis_outage os_error = true
is_redis_outage redis_error = true
is_redis_outage _ = false

-- Postgres answered the queries behind the first
unfoldable pub schema_answered : Result Bool → Result (List Text) → Bool
schema_answered (raised e) sources = false
schema_answered (ok false) sources = true
schema_answered (ok true) (ok xs) = true
schema_answered (ok true) (raised e) = false

unfoldable pub is_ok {ℓ} : {A : Type ℓ} → Result A → Bool
is_ok (ok a) = true
is_ok (raised e) = false

-- every check that the request came to was answered
unfoldable pub all_answered : Probes → Bool
unfolding schema_answered is_ok
all_answered p = is_ok p.select_one && schema_answered p.regclass p.sources && is_ok p.ping

-- `name_of` is `type(exc).__name__`
module _ (name_of : Error → Text) where
  unfoldable pub error_text : Error → Text
  error_text e = text "error: " ++ name_of e

  -- the handler of the first `try`, which keeps what the checks had found
  unfoldable pub postgres_failed : Error → Bool → Result Found
  unfolding error_text is_postgres_outage
  postgres_failed e ready =
      if is_postgres_outage e
      then ok (record { check = error_text e; schema_ready = ready; sources = [] })
      else raised e

  unfoldable pub read_sources : Result (List Text) → Result Found
  unfolding postgres_failed
  read_sources (ok sources) =
      ok (record { check = text "ok"; schema_ready = true; sources = sources })
  read_sources (raised e) = postgres_failed e true

  unfoldable pub read_schema : Result Bool → Result (List Text) → Result Found
  unfolding postgres_failed read_sources
  read_schema (ok true) sources = read_sources sources
  read_schema (ok false) sources =
      ok (record { check = text "ok"; schema_ready = false; sources = [] })
  read_schema (raised e) sources = postgres_failed e false

  unfoldable pub check_postgres : Probes → Result Found
  unfolding postgres_failed read_schema
  check_postgres p = elim p.select_one [
    | ok u ↦ read_schema p.regclass p.sources
    | raised e ↦ postgres_failed e false
  ]

  unfoldable pub check_redis : Result (Unit {0}) → Result Text
  unfolding error_text is_redis_outage
  check_redis (ok u) = ok (text "ok")
  check_redis (raised e) = if is_redis_outage e then ok (error_text e) else raised e

  unfoldable pub health : Settings → Probes → Result HealthReport
  unfolding check_postgres check_redis
  health s p = do
    found ← check_postgres p
    redis ← check_redis p.ping
    ok (record {
      status =
          if (found.check == text "ok") && (redis == text "ok") then text "ok" else text "degraded";
      postgres = found.check;
      redis = redis;
      schema = if found.schema_ready then text "ready" else text "missing (run 'make migrate')";
      transport = s.transport;
      latest_price_source = s.latest_price_source;
      price_sources_in_data = found.sources;
    })

  postgres_failed-check :
      (e : Error) (ready : Bool) (found : Found)
      → postgres_failed e ready ≡ ok found
      → (found.check == text "ok") ≡ false
  unfolding postgres_failed error_text list_beq
  postgres_failed-check e ready found h = ground arith

  read_schema-check :
      (regclass : Result Bool) (sources : Result (List Text)) (found : Found)
      → read_schema regclass sources ≡ ok found
      → (found.check == text "ok") ≡ schema_answered regclass sources
  unfolding read_schema read_sources schema_answered list_beq
  read_schema-check (raised e) sources found h = postgres_failed-check e false found h
  read_schema-check (ok false) sources found h = ground arith
  read_schema-check (ok true) (ok xs) found h = ground arith
  read_schema-check (ok true) (raised e) found h = postgres_failed-check e true found h

  check_postgres-check :
      (p : Probes) (found : Found)
      → check_postgres p ≡ ok found
      → (found.check == text "ok") ≡ (is_ok p.select_one && schema_answered p.regclass p.sources)
  unfolding check_postgres is_ok
  check_postgres-check p found h = elim (Result-cases p.select_one) [
    | inl (u, e) ↦
        let h' = rw (check_postgres, e) at h in
        rw e (read_schema-check p.regclass p.sources found h')
    | inr (x, e) ↦
        let h' = rw (check_postgres, e) at h in rw e (postgres_failed-check x false found h')
  ]

  check_redis-check :
      (ping : Result (Unit {0})) (redis : Text)
      → check_redis ping ≡ ok redis
      → (redis == text "ok") ≡ is_ok ping
  unfolding check_redis error_text is_ok list_beq
  check_redis-check (ok u) redis h = ground arith
  check_redis-check (raised e) redis h = ground arith

  -- A health report says "ok" just if Redis answered its ping and Postgres each of the queries that it
  -- was sent, whether or not the schema is there; otherwise it says "degraded".
  pub health_status :
      (s : Settings) (p : Probes) (report : HealthReport)
      → health s p ≡ ok report
      → report.status ≡ (if all_answered p then text "ok" else text "degraded")
  unfolding health all_answered
  health_status s p report h = elim (Result-cases (check_postgres p)) [
    | inr (x, e) ↦ let h' = rw (health, e) at h in ground (arith, h')
    | inl (found, e) ↦ elim (Result-cases (check_redis p.ping)) [
      | inr (x, f) ↦ let h' = rw (health, e, f) at h in ground (arith, h')
      | inl (redis, f) ↦
          let h' = rw (health, e, f) at h in
          ground (arith, h', check_postgres-check p found e, check_redis-check p.ping redis f)
    ]
  ]
