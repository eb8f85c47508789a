-- ===== src/Api/Bearer.antt =====
-- Which tokens the bearer check lets through.
use ticker_watch_case_study.Base.{
  ℕ, ◌+◌, ◌*◌, ◌/◌, ◌≤◌, ◌≡◌, true, ◌&&◌, none, some, ltb, leb, arith, if◌then◌else◌,
}
use ticker_watch_case_study.Base.Text.{Text}
use ticker_watch_case_study.Settings.{Settings}
use ticker_watch_case_study.Time.{Instant, us_per_second}
use ticker_watch_case_study.Accounts.Sessions.{Crypto, issue_token}
use ticker_watch_case_study.Api.{
  response, http_exception, unhandled, JwtPayload, Jwt, encode_claims, principal_of, current_user,
  connection_token,
}

-- What PyJWT documents of the tokens that the service signs: a token decodes to its members from `iat`
-- on and before `exp`, in seconds.
pub record IsJwt (jwt : Jwt) : Type 0 where
  pub round_trip :
      (now : Instant) (p : JwtPayload)
      → jwt.decode now (jwt.encode p) ≡ (
          if leb p.iat (now / us_per_second) && ltb (now / us_per_second) p.exp
          then some p
          else none)

-- the cryptography with this library for the access tokens
abbrev pub signing : Jwt → Crypto → Crypto
signing jwt c = record c { encode = encode_claims jwt }

-- An access token lets its user in until its lifetime is over, counted in whole seconds from the one
-- in which it was issued, and is answered with 401 from then on.
pub current_user-issue_token :
    (jwt : Jwt) (c : Crypto) (s : Settings) (issued now : Instant) (token : Text) (id user_id : ℕ)
    (username : Text)
    → IsJwt jwt
    → issued ≤ now
    → current_user jwt now (some (issue_token (signing jwt c) s issued token id user_id username).0)
      ≡ (if ltb (now / us_per_second) (issued / us_per_second + s.access_token_ttl_seconds)
          then response 200 record { id = user_id; username = username }
          else http_exception 401)
unfolding current_user issue_token encode_claims
current_user-issue_token jwt c s issued now token id user_id username law h =
    let ttl = s.access_token_ttl_seconds in
    let payload : JwtPayload = record {
      sub = user_id;
      username = some username;
      iat = issued / us_per_second;
      exp = (issued + ttl * us_per_second) / us_per_second;
    } in
    unfold principal_of in ground (arith, law.round_trip now payload)

-- A connection token for Centrifugo, while it lasts, makes the bearer check fail with an exception that
-- no route handles, and not with 401: it is signed with the same key and has no username.
pub current_user-connection_token :
    (jwt : Jwt) (s : Settings) (issued now : Instant) (user_id : ℕ)
    → IsJwt jwt
    → issued ≤ now
    → ltb (now / us_per_second) (issued / us_per_second + s.centrifugo_token_ttl_seconds) ≡ true
    → current_user jwt now (some (connection_token jwt s issued user_id).token) ≡ unhandled
unfolding current_user connection_token
current_user-connection_token jwt s issued now user_id law h lasts =
    let ttl = s.centrifugo_token_ttl_seconds in
    let payload : JwtPayload = record {
      sub = user_id;
      username = none;
      iat = issued / us_per_second;
      exp = (issued + ttl * us_per_second) / us_per_second;
    } in
    unfold principal_of in ground (arith, law.round_trip now payload)
