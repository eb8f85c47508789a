-- ===== src/Accounts/Sessions.antt =====
-- src/watchlist/modules/auth/auth_handler.py: registration, login, the exchange of refresh tokens and logout;
-- src/watchlist/shared/security.py: the access token's claims. One reading of the clock serves a
-- request. bcrypt, SHA-256, the JWT encoding and the random token are parameters.
pub mod Rotation
pub mod Login
pub mod Chain
pub mod Race
use ticker_watch_case_study.Base.{
  ℕ, ◌+◌, ◌*◌, ◌/◌, Bool, true, false, not, Option, none, some, List, leb, if◌then◌else◌,
}
use ticker_watch_case_study.Base.Dict.{Dict}
use ticker_watch_case_study.Base.Text.{Text}
use ticker_watch_case_study.Settings.{Settings}
use ticker_watch_case_study.Time.{Instant, us_per_second}
use ticker_watch_case_study.Accounts.{
  UserRow, TokenRow, Tokens, Watchlists, create, get_by_username, get_by_id, get_refresh_token,
  revoke_refresh_token, revoke_all_refresh_tokens, store_refresh_token,
}

-- the payload of an access token; `sub` is the user's id, which `encode` is to write as a text
pub record Claims : Type 0 where
  pub sub : ℕ
  pub username : Text
  pub iat : ℕ
  pub exp : ℕ

-- `hashpw` is with the salt that it draws; `checkpw` has none for its ValueError on a malformed hash
pub record Crypto : Type 0 where
  pub hashpw : Text → Text
  pub checkpw : Text → Text → Option Bool
  pub sha256 : Text → Text
  pub encode : Claims → Text

pub record User : Type 0 where
  pub id : ℕ
  pub username : Text
  pub email : Option Text
  pub first_name : Text
  pub last_name : Text

pub record Session : Type 0 where
  pub access_token : Text
  pub expires_in : ℕ
  pub refresh_token : Text
  pub user : User

pub data AuthError : Type 0 where
  username_taken invalid_credentials invalid_refresh_token unique_violation : AuthError

pub data Reply : Type 0 where
  opened : Session → Reply
  failed : AuthError → Reply

pub record Database : Type 0 where
  pub users : Dict ℕ UserRow
  pub watchlists : Watchlists
  pub tokens : Tokens

unfoldable pub to_user : ℕ → UserRow → User
to_user id row = record {
  id = id;
  username = row.username;
  email = row.email;
  first_name = row.first_name;
  last_name = row.last_name;
}

-- `async with conn.transaction()`: what an exception leaves behind is undone
unfoldable pub transaction : Database → Reply × Database → Reply × Database
transaction before (opened session, after) = (opened session, after)
transaction before (failed e, after) = (failed e, before)

-- `token` is the refresh token that the generator gives to a request, `token_id` the next id
module _ (c : Crypto) (s : Settings) (now : Instant) (token : Text) (token_id : ℕ) where
  unfoldable pub verify_password : Text → Text → Bool
  verify_password plain hashed = elim (c.checkpw plain hashed) [ none ↦ false | some b ↦ b ]

  unfoldable pub issue_token : ℕ → Text → Text × ℕ
  issue_token user_id username =
      let ttl = s.access_token_ttl_seconds in
      (
        c.encode record {
          sub = user_id;
          username = username;
          iat = now / us_per_second;
          exp = (now + ttl * us_per_second) / us_per_second;
        },
        ttl,
      )

  unfoldable pub issue_session : User → Database → Reply × Database
  unfolding issue_token store_refresh_token
  issue_session user db =
      let (access, ttl) = issue_token user.id user.username in
      elim (store_refresh_token token_id user.id (c.sha256 token)
        (now + s.refresh_token_ttl_seconds * us_per_second) db.tokens) [
          | none ↦ (failed unique_violation, db)
          | some tokens ↦ (
            opened record {
              access_token = access;
              expires_in = ttl;
              refresh_token = token;
              user = user;
            },
            record { users = db.users; watchlists = db.watchlists; tokens = tokens },
          )
        ]

  -- `user_id` and `list_id` are the ids that the sequences give next
  unfoldable pub register :
      ℕ → ℕ → Text → Text → Option Text → Text → Text → Database → Reply × Database
  unfolding create issue_session to_user
  register user_id list_id username password email first_name last_name db =
      let row : UserRow = record {
        username = username;
        email = email;
        first_name = first_name;
        last_name = last_name;
        password_hash = c.hashpw password;
      } in
      elim (create user_id list_id row db.users db.watchlists) [
        | none ↦ (failed username_taken, db)
        | some (users, lists) ↦
            issue_session (to_user user_id row)
              record { users = users; watchlists = lists; tokens = db.tokens }
      ]

  unfoldable pub login : Text → Text → Database → Reply × Database
  unfolding get_by_username verify_password issue_session to_user
  login username password db = elim (get_by_username username db.users) [
    | none ↦ (failed invalid_credentials, db)
    | some row ↦
        if not (verify_password password row.1.password_hash)
        then (failed invalid_credentials, db)
        else issue_session (to_user row.0 row.1) db
  ]

  unfoldable pub get_user : ℕ → Database → Option User
  unfolding get_by_id to_user
  get_user user_id db = elim (get_by_id user_id db.users) [
    | none ↦ none
    | some row ↦ some (to_user user_id row)
  ]

  unfoldable pub rotate : ℕ → User → Database → Reply × Database
  unfolding transaction issue_session revoke_refresh_token
  rotate old_id user db = transaction db (
      issue_session user record {
        users = db.users;
        watchlists = db.watchlists;
        tokens = revoke_refresh_token now old_id db.tokens;
      })

  unfoldable pub exchange : ℕ × TokenRow → Database → Reply × Database
  unfolding rotate get_user revoke_all_refresh_tokens
  exchange (id, row) db = elim row.revoked_at [
    | some t ↦ (
      failed invalid_refresh_token,
      record {
        users = db.users;
        watchlists = db.watchlists;
        tokens = (revoke_all_refresh_tokens now row.user_id db.tokens).1;
      },
    )
    | none ↦
        if leb row.expires_at now
        then (failed invalid_refresh_token, db)
        else elim (get_user row.user_id db) [
          | none ↦ (failed invalid_refresh_token, db)
          | some user ↦ rotate id user db
        ]
  ]

  unfoldable pub refresh : Text → Database → Reply × Database
  unfolding get_refresh_token exchange
  refresh refresh_token db = elim (get_refresh_token (c.sha256 refresh_token) db.tokens) [
    | none ↦ (failed invalid_refresh_token, db)
    | some found ↦ exchange found db
  ]

-- the session's token is retired; an unknown one is no error
unfoldable pub logout : Crypto → Instant → Text → Database → Database
unfolding get_refresh_token revoke_refresh_token
logout c now refresh_token db = elim (get_refresh_token (c.sha256 refresh_token) db.tokens) [
  | none ↦ db
  | some (id, row) ↦ record {
    users = db.users;
    watchlists = db.watchlists;
    tokens = revoke_refresh_token now id db.tokens;
  }
]
