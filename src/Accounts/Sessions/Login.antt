-- ===== src/Accounts/Sessions/Login.antt =====
-- src/watchlist/modules/auth/auth_handler.py: registration, and the login after it.
use ticker_watch_case_study.Base.{
  ℕ, ◌≡◌, refl, sym, ap, ◌∙◌, true, Option, none, some, [], ◌∷◌, ◌++◌, arith, Option-cases, inl,
  inr, nat_key,
}
use ticker_watch_case_study.Base.Text.{Text, text, text_key}
use ticker_watch_case_study.Base.Dict.{Dict, lookup, has}
use ticker_watch_case_study.Settings.{Settings}
use ticker_watch_case_study.Time.{Instant}
use ticker_watch_case_study.Accounts.{
  UserRow, Watchlists, create, find_default, add_default, get_by_username, get_refresh_token,
  store_refresh_token,
}
use ticker_watch_case_study.Accounts.Sessions.{
  Crypto, Session, User, opened, Database, issue_session, issue_token, login, register, to_user,
  verify_password,
}

pub get_by_username-append :
    (name : Text) (users : Dict ℕ UserRow) (id : ℕ) (row : UserRow)
    → get_by_username name users ≡ none
    → row.username ≡ name
    → get_by_username name (users ++ (id, row) ∷ []) ≡ some (id, row)
unfolding get_by_username
get_by_username-append name [] id row absent h =
    ground (arith, text_key.test_iff row.username name, h)
get_by_username-append name ((i, first) ∷ users) id row absent h =
    ground (arith, get_by_username-append name users id row, h)

-- the row that was added last is there
has-append :
    (id : ℕ) (row : UserRow) (users : Dict ℕ UserRow) → has id (users ++ (id, row) ∷ []) ≡ true
unfolding has lookup
has-append id row [] = ground (arith, nat_key.test_iff id id)
has-append id row ((j, first) ∷ users) = ground (arith, has-append id row users)

-- A new name is never refused: the user whose default watchlist is inserted is there.
pub create-new :
    (user_id list_id : ℕ) (row : UserRow) (users : Dict ℕ UserRow) (lists : Watchlists)
    → get_by_username row.username users ≡ none
    → (after : Watchlists) × (create user_id list_id row users lists
        ≡ some (users ++ (user_id, row) ∷ [], after))
unfolding create add_default
create-new user_id list_id row users lists new = elim (Option-cases (find_default user_id lists)) [
  | inl first ↦ (
    lists ++ (list_id, record { user_id = user_id; name = text "default" }) ∷ [],
    rw (create, new, add_default, first, has-append user_id row users) refl,
  )
  | inr (id, old) ↦ (lists, rw (create, new, add_default, old) refl)
]

issue_session-users :
    (c : Crypto) (s : Settings) (now : Instant) (token : Text) (token_id : ℕ)
    → (user : User) (db db' : Database) (session : Session)
    → issue_session c s now token token_id user db ≡ (opened session, db')
    → (session.user ≡ user) × (db'.users ≡ db.users)
unfolding issue_session store_refresh_token
issue_session-users c s now token token_id user db db' session h =
    elim (Option-cases (get_refresh_token (c.sha256 token) db.tokens)) [
      | inl free ↦
          let e = rw (issue_session, store_refresh_token, free) at h in
          (ground (arith, e), sym (ap (λ reply. reply.1.users) e))
      | inr (taken, q) ↦ ground arith
    ]

module _ (c : Crypto) (s : Settings) (now : Instant) (token : Text) (token_id user_id list_id : ℕ)
    (username password : Text) (email : Option Text) (first_name last_name : Text) where
  -- After a registration that opened a session, a login as the next request, at whatever time and
  -- with the same password, opens a session of the same user. Its conditions are that bcrypt accepts
  -- the hash that it made of the password and that the login's refresh token hashes to no stored
  -- hash.
  pub register-login :
      (db db' : Database) (session : Session) (now' : Instant) (token' : Text) (id' : ℕ)
      → register c s now token token_id user_id list_id username password email first_name last_name
          db
        ≡ (opened session, db')
      → c.checkpw password (c.hashpw password) ≡ some true
      → get_refresh_token (c.sha256 token') db'.tokens ≡ none
      → (next : Session) × ((login c s now' token' id' username password db').0 ≡ opened next)
        × (next.user ≡ session.user)
  unfolding register create login
  register-login db db' session now' token' id' h accepts free =
      elim (Option-cases (get_by_username username db.users)) [
        | inr (taken, q) ↦ let e = rw (register, create, q) at h in ground (arith, e)
        | inl new ↦
            let row : UserRow = record {
              username = username;
              email = email;
              first_name = first_name;
              last_name = last_name;
              password_hash = c.hashpw password;
            } in
            let (lists, created) = create-new user_id list_id row db.users db.watchlists new in
            let e = rw (register, created) at h in
            let (same, users) =
              issue_session-users c s now token token_id (to_user user_id row) _ db' session e in
            let known : get_by_username username db'.users ≡ some (user_id, row) =
              ap (get_by_username username) users
              ∙ get_by_username-append username db.users user_id row new refl in
            (
              record {
                access_token = (issue_token c s now' token' id' user_id username).0;
                expires_in = s.access_token_ttl_seconds;
                refresh_token = token';
                user = to_user user_id row;
              },
              rw (login, known, verify_password, accepts, issue_session, store_refresh_token, free)
                  refl,
              sym same,
            )
      ]
