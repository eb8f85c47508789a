-- ===== src/Tests/Accounts.antt =====
-- Runs of the session flow on concrete inputs, with stand-ins for the cryptography.
use ticker_watch_case_study.Base.{
  ℕ, ◌≡◌, refl, false, Option, none, some, [], ◌∷◌, nat_key, ◌==◌, list_beq, leb, count_if, map,
}
use ticker_watch_case_study.Base.Dict.{lookup, has}
use ticker_watch_case_study.Base.Text.{Text, text, text_key}
use ticker_watch_case_study.Settings.{defaults}
use ticker_watch_case_study.Time.{Instant}
use ticker_watch_case_study.Accounts.{
  UserRow, TokenRow, get_refresh_token, revoked, live_tokens, is_live, revoke_where,
  revoke_refresh_token, store_refresh_token, create, add_default, find_default, get_by_id,
  get_by_username,
}
use ticker_watch_case_study.Accounts.Sessions.{
  Crypto, Session, User, Reply, opened, failed, invalid_refresh_token, invalid_credentials,
  Database, refresh, exchange, rotate, transaction, issue_session, issue_token, get_user, to_user,
  login, register, logout, verify_password,
}
use ticker_watch_case_study.Accounts.Sessions.Chain.{refresh-again}
use ticker_watch_case_study.Accounts.Sessions.Login.{register-login}
use ticker_watch_case_study.Accounts.Sessions.Rotation.{
  ended, refresh-reuse, refresh-opened, refresh-once,
}

-- a hash that keeps the text, and an encoding that keeps the name
abbrev pub plain_text : Crypto
plain_text = record {
  hashpw = λ t. t;
  checkpw = λ plain hashed. some (list_beq plain hashed);
  sha256 = λ t. t;
  encode = λ claims. claims.username;
}

abbrev pub alice : UserRow
alice = record {
  username = text "alice";
  email = none;
  first_name = text "Alice";
  last_name = [];
  password_hash = text "secret";
}

abbrev pub alice_user : User
alice_user = record {
  id = 7;
  username = text "alice";
  email = none;
  first_name = text "Alice";
  last_name = [];
}

abbrev pub token_row : Text → Option Instant → TokenRow
token_row hash t = record { user_id = 7; token_hash = hash; expires_at = 100; revoked_at = t }

abbrev pub before : Database
before = record {
  users = (7, alice) ∷ [];
  watchlists = [];
  tokens = (1, token_row (text "spent") (some 5)) ∷ (2, token_row (text "good") none) ∷ [];
}

abbrev new_session : Session
new_session = record {
  access_token = text "alice";
  expires_in = 900;
  refresh_token = text "next";
  user = alice_user;
}

abbrev after : Database
after = record {
  users = (7, alice) ∷ [];
  watchlists = [];
  tokens =
      (1, token_row (text "spent") (some 5))
      ∷ (2, token_row (text "good") (some 10))
      ∷ (
        3,
        record {
          user_id = 7;
          token_hash = text "next";
          expires_at = 2_592_000_000_010;
          revoked_at = none;
        },
      )
      ∷ [];
}

refresh-good :
    refresh plain_text defaults 10 (text "next") 3 (text "good") before
    ≡ (opened new_session, after)
unfolding refresh exchange rotate transaction issue_session issue_token get_user to_user
    get_refresh_token get_by_id lookup revoke_refresh_token revoke_where store_refresh_token is_live
    revoked list_beq
refresh-good = refl

-- a token is over at its last instant
refresh-over :
    (refresh plain_text defaults 100 (text "next") 3 (text "good") before).0
    ≡ failed invalid_refresh_token
unfolding refresh exchange get_refresh_token list_beq
refresh-over = refl

login-wrong :
    (login plain_text defaults 10 (text "next") 3 (text "alice") (text "x") before).0
    ≡ failed invalid_credentials
unfolding login get_by_username verify_password list_beq
login-wrong = refl

logout-good : live_tokens 7 (logout plain_text 10 (text "good") before).tokens ≡ 0
unfolding logout live_tokens get_refresh_token revoke_refresh_token revoke_where is_live revoked
    count_if list_beq
logout-good = refl

abbrev spent_answer : Reply × Database
spent_answer = refresh plain_text defaults 10 (text "next") 3 (text "spent") before

refresh-reuse_example :
    (spent_answer.0 ≡ failed invalid_refresh_token)
    × (spent_answer.1.users ≡ before.users)
    × (spent_answer.1.watchlists ≡ before.watchlists)
    × (spent_answer.1.tokens ≡ map (ended 10 7) before.tokens)
    × (live_tokens 7 spent_answer.1.tokens ≡ 0)
    × ((j : ℕ) (other : TokenRow)
        → (other.user_id == 7) ≡ false
        → lookup j before.tokens ≡ some other
        → lookup j spent_answer.1.tokens ≡ some other)
unfolding get_refresh_token list_beq
refresh-reuse_example =
    refresh-reuse plain_text defaults 10 (text "next") 3 (text "spent") before 1
      (token_row (text "spent") (some 5)) 5 refl refl

refresh-opened_example :
    (old : ℕ × TokenRow) × (get_refresh_token (text "good") before.tokens ≡ some old)
    × (old.1.revoked_at ≡ none)
    × (leb old.1.expires_at 10 ≡ false)
    × (get_user plain_text defaults 10 (text "next") 3 old.1.user_id before ≡ some alice_user)
    × (text "next" ≡ text "next")
    × (get_refresh_token (text "good") after.tokens ≡ some (old.0, revoked 10 old.1))
refresh-opened_example =
    refresh-opened plain_text defaults 10 (text "next") 3 (text "good") before after new_session
      refresh-good

abbrev replay : Reply × Database
replay = refresh plain_text defaults 20 (text "other") 4 (text "good") after

refresh-once_example :
    (user_id : ℕ) × (get_user plain_text defaults 10 (text "next") 3 user_id before
      ≡ some alice_user)
    × (replay.0 ≡ failed invalid_refresh_token)
    × (live_tokens user_id replay.1.tokens ≡ 0)
refresh-once_example =
    refresh-once plain_text defaults 10 20 (text "next") (text "other") 3 4 (text "good") before
      after new_session refresh-good

-- the new token of `after`, ten microseconds later
abbrev replayed : Reply × Database
replayed = refresh plain_text defaults 20 (text "other") 4 (text "next") after

refresh-again_example :
    (next : Session) × (replayed.0 ≡ opened next)
    × (next.user ≡ alice_user)
    × (next.refresh_token ≡ text "other")
unfolding get_refresh_token list_beq
refresh-again_example =
    refresh-again plain_text defaults 10 20 (text "next") (text "other") 3 4 (text "good") before
      after new_session refresh-good refl refl

abbrev no_users : Database
no_users = record { users = []; watchlists = []; tokens = [] }

abbrev first_session : Session
first_session = record {
  access_token = text "alice";
  expires_in = 900;
  refresh_token = text "next";
  user = alice_user;
}

abbrev registered : Database
registered = record {
  users = (7, alice) ∷ [];
  watchlists = (4, record { user_id = 7; name = text "default" }) ∷ [];
  tokens =
      (
        3,
        record {
          user_id = 7;
          token_hash = text "next";
          expires_at = 2_592_000_000_010;
          revoked_at = none;
        },
      )
      ∷ [];
}

register-alice :
    register plain_text defaults 10
      (text "next")
      3
      7
      4
      (text "alice")
      (text "secret")
      none
      (text "Alice")
      []
      no_users
    ≡ (opened first_session, registered)
unfolding register create add_default has lookup find_default get_by_username issue_session
    issue_token to_user store_refresh_token get_refresh_token list_beq
register-alice = refl

register-login_example :
    (next : Session) × ((login plain_text defaults 20
        (text "other")
        4
        (text "alice")
        (text "secret")
        registered).0
      ≡ opened next)
    × (next.user ≡ alice_user)
unfolding list_beq get_refresh_token
register-login_example =
    register-login plain_text defaults 10 (text "next") 3 7 4 (text "alice") (text "secret") none
      (text "Alice") [] no_users registered first_session 20 (text "other") 4 register-alice refl
      refl
