-- ===== src/Api.antt =====
-- src/watchlist/api: the bearer check of deps.py, the routers, which turn what the handlers raise into
-- status codes, and the health report of main.py; and realtime_handler.py behind its router.
pub mod Bearer
pub mod Health
use ticker_watch_case_study.Base.{
  ℕ, ◌+◌, ◌*◌, ◌/◌, Bool, true, false, ◌&&◌, Option, none, some, List, leb, length, if◌then◌else◌,
}
use ticker_watch_case_study.Base.Text.{Text, text}
use ticker_watch_case_study.Base.Result.{
  Error, key_error, security_not_found, not_on_watchlist, Result, ok, raised, ◌>>=◌, Outcome,
}
use ticker_watch_case_study.Settings.{Settings}
use ticker_watch_case_study.Time.{Instant, us_per_second}
use ticker_watch_case_study.Accounts.Sessions.{
  Claims, Crypto, Session, User, AuthError, username_taken, invalid_credentials,
  invalid_refresh_token, unique_violation, Reply, opened, failed,
}
use ticker_watch_case_study.Securities.{Securities, Locale}
use ticker_watch_case_study.Securities.Search.{Security, search_handler}

-- A response with its status, or an exception that no route handles, which FastAPI answers with 500.
pub data Http (A : Type 0) : Type 0 where
  response : ℕ → A → Http A
  http_exception : ℕ → Http A
  unhandled : Http A

-- a JWT's members, as far as some code looks at them; `sub` is written as a text
pub record JwtPayload : Type 0 where
  pub sub : ℕ
  pub username : Option Text
  pub iat : ℕ
  pub exp : ℕ

-- the library with the secret and the algorithm of the settings; `decode` has none for a PyJWTError
pub record Jwt : Type 0 where
  pub encode : JwtPayload → Text
  pub decode : Instant → Text → Option JwtPayload

pub record Principal : Type 0 where
  pub id : ℕ
  pub username : Text

-- `jwt.encode` of an access token's claims
unfoldable pub encode_claims : Jwt → Claims → Text
encode_claims jwt c =
    jwt.encode record { sub = c.sub; username = some c.username; iat = c.iat; exp = c.exp }

-- `payload["username"]`, a KeyError where there is none
unfoldable pub principal_of : JwtPayload → Http Principal
principal_of p = elim p.username [
  | none ↦ unhandled
  | some name ↦ response 200 record { id = p.sub; username = name }
]

-- `current_user`, with the credentials of the Authorization header
unfoldable pub current_user : Jwt → Instant → Option Text → Http Principal
unfolding principal_of
current_user jwt now none = http_exception 401
current_user jwt now (some token) = elim (jwt.decode now token) [
  | none ↦ http_exception 401
  | some payload ↦ principal_of payload
]

-- a route that depends on `current_user`
unfoldable pub with_user : {A : Type 0} → Http Principal → (Principal → Http A) → Http A
with_user (response code p) route = route p
with_user (http_exception code) route = http_exception code
with_user unhandled route = unhandled

pub record ConnectionToken : Type 0 where
  pub token : Text
  pub expires_in : ℕ
  pub channel_prefix : Text

-- realtime_handler.py
unfoldable pub connection_token : Jwt → Settings → Instant → ℕ → ConnectionToken
connection_token jwt s now user_id =
    let ttl = s.centrifugo_token_ttl_seconds in
    record {
      token = jwt.encode record {
        sub = user_id;
        username = none;
        iat = now / us_per_second;
        exp = (now + ttl * us_per_second) / us_per_second;
      };
      expires_in = ttl;
      channel_prefix = text "ticker:";
    }

-- POST /auth/register, with what the handler replied
unfoldable pub register_route : Reply → Http Session
register_route (opened session) = response 201 session
register_route (failed username_taken) = http_exception 409
register_route (failed _) = unhandled

-- POST /auth/login
unfoldable pub login_route : Reply → Http Session
login_route (opened session) = response 200 session
login_route (failed invalid_credentials) = http_exception 401
login_route (failed _) = unhandled

-- POST /auth/refresh
unfoldable pub refresh_route : Reply → Http Session
refresh_route (opened session) = response 200 session
refresh_route (failed invalid_refresh_token) = http_exception 401
refresh_route (failed _) = unhandled

-- GET /auth/me, with what `get_user` found
unfoldable pub me_route : Option User → Http User
me_route none = http_exception 401
me_route (some user) = response 200 user

-- POST /watchlist/items and DELETE /watchlist/items/{security_id}
unfoldable pub add_route : Outcome → Http (Unit {0})
add_route (ok u) = response 204 u
add_route (raised security_not_found) = http_exception 404
add_route (raised _) = unhandled

unfoldable pub remove_route : Outcome → Http (Unit {0})
remove_route (ok u) = response 204 u
remove_route (raised not_on_watchlist) = http_exception 404
remove_route (raised _) = unhandled

found_route : Result (List Security) → Http (List Security)
found_route (ok rows) = response 200 rows
found_route (raised e) = unhandled

-- GET /securities/search: FastAPI refuses a query that is empty or longer than 64 characters and a
-- limit that is not from 1 to 100
unfoldable pub search_route : Locale → Text → ℕ → Securities → Http (List Security)
unfolding found_route search_handler
search_route locale q limit securities =
    if leb 1 (length q) && leb (length q) 64 && leb 1 limit && leb limit 100
    then found_route (search_handler locale q limit securities)
    else http_exception 422

-- POST /realtime/token
unfoldable pub token_route : Jwt → Settings → Instant → Option Text → Http ConnectionToken
unfolding current_user with_user connection_token
token_route jwt s now bearer =
    with_user (current_user jwt now bearer)
      (λ user. response 200 (connection_token jwt s now user.id))
