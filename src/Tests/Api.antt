-- ===== src/Tests/Api.antt =====
-- The bearer check, the health report and two refreshes at once.
use ticker_watch_case_study.Base.{
  ℕ, ◌+◌, ◌/◌, ◌≡◌, refl, arith, true, false, ◌&&◌, Option, none, some, [], ◌∷◌, ltb, leb, list_beq,
  zero, suc, Option-cases, inl, inr, if◌then◌else◌,
}
use ticker_watch_case_study.Base.Dict.{lookup}
use ticker_watch_case_study.Base.Text.{Text, text, text_key}
use ticker_watch_case_study.Base.Result.{redis_error, ok, raised}
use ticker_watch_case_study.Settings.{defaults}
use ticker_watch_case_study.Time.{us_per_second}
use ticker_watch_case_study.Accounts.{
  get_refresh_token, get_by_id, revoke_refresh_token, revoke_where, is_live, revoked,
}
use ticker_watch_case_study.Accounts.Sessions.{Database, opened, get_user, to_user, issue_token}
use ticker_watch_case_study.Accounts.Sessions.Race.{
  Request, asked, answered, interleave, opened_by, race-opens,
}
use ticker_watch_case_study.Api.{
  response, http_exception, unhandled, JwtPayload, Jwt, current_user, connection_token,
  search_route,
}
use ticker_watch_case_study.Api.Bearer.{
  IsJwt, signing, current_user-issue_token, current_user-connection_token,
}
use ticker_watch_case_study.Api.Health.{
  Probes, HealthReport, health, check_postgres, check_redis, read_schema, read_sources, error_text,
  is_redis_outage, all_answered, health_status,
}
use ticker_watch_case_study.Tests.Accounts.{plain_text, before, alice_user, token_row}
use ticker_watch_case_study.Tests.Securities.{ascii, catalog}

-- a token that is the list of its members, with the length of the name first
abbrev written : JwtPayload → Text
written p = elim p.username [
  | none ↦ 0 ∷ p.sub ∷ p.iat ∷ p.exp ∷ []
  | some name ↦ 1 ∷ p.sub ∷ p.iat ∷ p.exp ∷ name
]

abbrev parsed_members : Text → Option JwtPayload
parsed_members (zero ∷ sub ∷ iat ∷ exp ∷ []) =
    some (record { sub = sub; username = none; iat = iat; exp = exp })
parsed_members (suc _ ∷ sub ∷ iat ∷ exp ∷ name) =
    some (record { sub = sub; username = some name; iat = iat; exp = exp })
parsed_members _ = none

abbrev timely : ℕ → Option JwtPayload → Option JwtPayload
timely now none = none
timely now (some p) = if leb p.iat now && ltb now p.exp then some p else none

abbrev plain_jwt : Jwt
plain_jwt = record {
  encode = written;
  decode = λ now token. timely (now / us_per_second) (parsed_members token);
}

parsed_members-written : (p : JwtPayload) → parsed_members (written p) ≡ some p
parsed_members-written p = elim (Option-cases p.username) [
  | inl anonymous ↦ ground (arith, anonymous)
  | inr (name, named) ↦ ground (arith, named)
]

plain_jwt-IsJwt : IsJwt plain_jwt
plain_jwt-IsJwt = record { round_trip = λ now p. ground (arith, parsed_members-written p) }

current_user-issue_token_example :
    current_user plain_jwt 5_000_000 (
      some
        (issue_token
          (signing plain_jwt plain_text)
          defaults
          1_000_000
          (text "t")
          1
          7
          (text "alice")).0)
    ≡ (if ltb (5_000_000 / us_per_second) (1_000_000 / us_per_second + 900)
        then response 200 record { id = 7; username = text "alice" }
        else http_exception 401)
current_user-issue_token_example =
    current_user-issue_token plain_jwt plain_text defaults 1_000_000 5_000_000 (text "t") 1 7
      (text "alice") plain_jwt-IsJwt (omega arith)

current_user-connection_token_example :
    current_user plain_jwt 5_000_000 (some (connection_token plain_jwt defaults 1_000_000 7).token)
    ≡ unhandled
current_user-connection_token_example =
    current_user-connection_token plain_jwt defaults 1_000_000 5_000_000 7 plain_jwt-IsJwt
      (omega arith) refl

search-empty : search_route ascii [] 20 catalog ≡ http_exception 422
unfolding search_route
search-empty = refl

-- Redis is away
abbrev probes : Probes
probes = record {
  select_one = ok tt;
  regclass = ok true;
  sources = ok (text "api" ∷ []);
  ping = raised redis_error;
}

abbrev report : HealthReport
report = record {
  status = text "degraded";
  postgres = text "ok";
  redis = text "error: RedisError";
  schema = text "ready";
  transport = defaults.transport;
  latest_price_source = defaults.latest_price_source;
  price_sources_in_data = text "api" ∷ [];
}

health-report : health (λ e. text "RedisError") defaults probes ≡ ok report
unfolding health check_postgres check_redis read_schema read_sources error_text is_redis_outage
    list_beq
health-report = refl

health_status_example : report.status ≡ (if all_answered probes then text "ok" else text "degraded")
health_status_example = health_status (λ e. text "RedisError") defaults probes report health-report

abbrev first : Request
first = record { token = text "next"; token_id = 3; now = 10 }

abbrev second : Request
second = record { token = text "other"; token_id = 4; now = 11 }

race-opens_example :
    (db' : Database) × (interleave plain_text defaults first second
        (true ∷ true ∷ false ∷ false ∷ true ∷ false ∷ [])
        (asked (text "good"))
        (asked (text "good"))
        before
      ≡ (
        answered (opened (opened_by plain_text defaults first alice_user)),
        answered (opened (opened_by plain_text defaults second alice_user)),
        db',
      ))
unfolding get_refresh_token get_user get_by_id lookup to_user revoke_refresh_token revoke_where
    is_live revoked list_beq
race-opens_example =
    race-opens plain_text defaults first second (text "good") (2, token_row (text "good") none)
      alice_user before refl refl refl refl refl refl refl
