-- ===== src/Tools/DemoUsers.antt =====
-- tools/create_users.py: the demo users, registered one after the other.
pub mod Again
use ticker_watch_case_study.Base.{
  ℕ, suc, Bool, true, false, Option, none, some, List, [], ◌∷◌, if◌then◌else◌,
}
use ticker_watch_case_study.Base.Text.{Text, text}
use ticker_watch_case_study.Settings.{Settings}
use ticker_watch_case_study.Time.{Instant}
use ticker_watch_case_study.Accounts.Sessions.{
  Crypto, Database, Reply, opened, failed, AuthError, username_taken, register,
}

pub record DemoUser : Type 0 where
  pub username : Text
  pub password : Text
  pub email : Text
  pub first : Text
  pub last : Text

-- `DEMO_USERS`
abbrev pub demo_users : List DemoUser
demo_users =
    record {
      username = text "user1";
      password = text "password";
      email = text "user1@example.com";
      first = text "User";
      last = text "One";
    }
    ∷ record {
      username = text "user2";
      password = text "password";
      email = text "user2@example.com";
      first = text "User";
      last = text "Two";
    }
    ∷ []

-- what one registration meets: the clock, the refresh token that is generated, the next ids
pub record Draw : Type 0 where
  pub now : Instant
  pub token : Text
  pub token_id : ℕ
  pub user_id : ℕ
  pub list_id : ℕ

-- `except auth_handler.UsernameTakenError`
unfoldable pub is_taken : AuthError → Bool
is_taken username_taken = true
is_taken _ = false

-- the `except`: what becomes of the loop, `rest` being its other turns
unfoldable pub carry_on :
    Reply → Database → Option AuthError × Database → Option AuthError × Database
unfolding is_taken
carry_on (opened session) db rest = rest
carry_on (failed e) db rest = if is_taken e then rest else (some e, db)

module _ (c : Crypto) (s : Settings) where
  unfoldable pub register_demo : Draw → DemoUser → Database → Reply × Database
  unfolding register
  register_demo d u db =
      register c s d.now d.token d.token_id d.user_id d.list_id u.username u.password (some u.email)
        u.first u.last db

  -- The loop of `main`, with the error that ends it. The registration `i` meets `draw i`.
  unfoldable pub create_users :
      (ℕ → Draw) → ℕ → List DemoUser → Database → Option AuthError × Database
  unfolding register_demo carry_on
  create_users draw i [] db = (none, db)
  create_users draw i (u ∷ users) db =
      let (reply, db') = register_demo (draw i) u db in
      carry_on reply db' (create_users draw (suc i) users db')
