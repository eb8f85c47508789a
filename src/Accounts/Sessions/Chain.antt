-- ===== src/Accounts/Sessions/Chain.antt =====
-- src/watchlist/modules/auth/auth_handler.py: a session that an exchange opened goes on, the new token
-- being good for the next exchange.
use ticker_watch_case_study.Base.{
  ℕ, ◌≡◌, inl, inr, refl, false, none, some, [], ◌∷◌, ◌++◌, arith, sym, ap, ◌∙◌, ◌+◌, ◌*◌, nat_key,
  leb, Option-cases,
}
use ticker_watch_case_study.Base.Text.{Text, text_key}
use ticker_watch_case_study.Settings.{Settings}
use ticker_watch_case_study.Time.{Instant, us_per_second}
use ticker_watch_case_study.Accounts.{
  TokenRow, Tokens, get_by_id, get_refresh_token, is_live, revoked, revoke_where,
  revoke_refresh_token, store_refresh_token,
}
use ticker_watch_case_study.Accounts.Sessions.{
  Crypto, Session, User, opened, Database, transaction, issue_session, issue_token, get_user,
  to_user, rotate, exchange, refresh,
}
use ticker_watch_case_study.Accounts.Sessions.Rotation.{transaction-opened, refresh-opened}

get-append :
    (hash : Text) (id : ℕ) (row : TokenRow) (tokens : Tokens)
    → get_refresh_token hash tokens ≡ none
    → row.token_hash ≡ hash
    → get_refresh_token hash (tokens ++ (id, row) ∷ []) ≡ some (id, row)
unfolding get_refresh_token
get-append hash id row [] free same = ground (arith, (text_key.test_iff row.token_hash hash).1 same)
get-append hash id row ((j, first) ∷ tokens) free same =
    ground (arith, free, get-append hash id row tokens)

-- to retire a token stores no new hash
get-revoke-none :
    (now : Instant) (hash : Text) (id : ℕ) (tokens : Tokens)
    → get_refresh_token hash tokens ≡ none
    → get_refresh_token hash (revoke_refresh_token now id tokens) ≡ none
unfolding get_refresh_token revoke_refresh_token revoke_where is_live revoked
get-revoke-none now hash id [] free = refl
get-revoke-none now hash id ((j, first) ∷ tokens) free =
    ground (arith, free, get-revoke-none now hash id tokens)

module _ (c : Crypto) (s : Settings) (now : Instant) (token : Text) (token_id : ℕ) where
  -- the row of a session's new token
  abbrev token_row : ℕ → TokenRow
  token_row user_id = record {
    user_id = user_id;
    token_hash = c.sha256 token;
    expires_at = now + s.refresh_token_ttl_seconds * us_per_second;
    revoked_at = none;
  }

  issue_session-stored :
      (user : User) (db db' : Database) (session : Session)
      → issue_session c s now token token_id user db ≡ (opened session, db')
      → (session.user ≡ user)
        × (db'.users ≡ db.users)
        × (get_refresh_token (c.sha256 token) db'.tokens ≡ some (token_id, token_row user.id))
  unfolding issue_session store_refresh_token
  issue_session-stored user db db' session h =
      elim (Option-cases (get_refresh_token (c.sha256 token) db.tokens)) [
        | inl free ↦
            let e = rw (issue_session, store_refresh_token, free) at h in
            let there =
              get-append (c.sha256 token) token_id (token_row user.id) db.tokens free refl in
            (
              ground (arith, e),
              sym (ap (λ reply. reply.1.users) e),
              ap (get_refresh_token (c.sha256 token)) (sym (ap (λ reply. reply.1.tokens) e))
                  ∙ there,
            )
        | inr (taken, q) ↦ ground arith
      ]

  get_user-id :
      (user_id : ℕ) (db : Database) (user : User)
      → get_user c s now token token_id user_id db ≡ some user
      → user.id ≡ user_id
  unfolding get_user to_user
  get_user-id user_id db user h = elim (Option-cases (get_by_id user_id db.users)) [
    | inl gone ↦ ground arith
    | inr (row, known) ↦ ground (arith, h, known)
  ]

  get_user-users :
      (user_id : ℕ) (db db' : Database)
      → db'.users ≡ db.users
      → get_user c s now token token_id user_id db' ≡ get_user c s now token token_id user_id db
  unfolding get_user
  get_user-users user_id db db' users = rw users refl

  -- an exchange that succeeds
  refresh-succeeds :
      (refresh_token : Text) (db : Database) (old : ℕ × TokenRow) (user : User)
      → get_refresh_token (c.sha256 refresh_token) db.tokens ≡ some old
      → old.1.revoked_at ≡ none
      → leb old.1.expires_at now ≡ false
      → get_user c s now token token_id old.1.user_id db ≡ some user
      → get_refresh_token (c.sha256 token) db.tokens ≡ none
      → (session : Session) × ((refresh c s now token token_id refresh_token db).0 ≡ opened session)
        × (session.user ≡ user)
        × (session.refresh_token ≡ token)
  unfolding refresh
  refresh-succeeds refresh_token db old user found live good known free = (
    record {
      access_token = (issue_token c s now token token_id user.id user.username).0;
      expires_in = s.access_token_ttl_seconds;
      refresh_token = token;
      user = user;
    },
    rw
        (
          refresh,
          found,
          exchange,
          live,
          good,
          known,
          rotate,
          issue_session,
          store_refresh_token,
          get-revoke-none now (c.sha256 token) old.0 db.tokens free,
        )
        (unfold transaction issue_token in refl),
    refl,
    refl,
  )

  -- what an exchange that opened a session leaves for the next one
  refresh-stored :
      (refresh_token : Text) (db db' : Database) (session : Session)
      → refresh c s now token token_id refresh_token db ≡ (opened session, db')
      → (get_refresh_token (c.sha256 session.refresh_token) db'.tokens
          ≡ some (token_id, token_row session.user.id))
        × (get_user c s now token token_id session.user.id db' ≡ some session.user)
  unfolding refresh
  refresh-stored refresh_token db db' session h =
      let (old, found, live, good, known, fresh, retired) =
        refresh-opened c s now token token_id refresh_token db db' session h in
      let e = rw (refresh, found, exchange, live, good, known) at h in
      let f : _ ≡ (opened session, db') = unfold rotate in e in
      let (same, users, stored) =
        issue_session-stored session.user _ db' session (transaction-opened db db' _ session f) in
      let id = get_user-id old.1.user_id db session.user known in
      (
        rw fresh stored,
        ap (λ i. get_user c s now token token_id i db') id
            ∙ get_user-users old.1.user_id db db' users
            ∙ known,
      )

-- A session that an exchange opened can be exchanged in its turn: its refresh token, presented in the
-- next request before its lifetime is over, opens a session of the same user with the next token, if
-- that one hashes to no stored hash.
pub refresh-again :
    (c : Crypto) (s : Settings) (now now' : Instant) (token token' : Text) (id id' : ℕ)
    → (refresh_token : Text) (db db' : Database) (session : Session)
    → refresh c s now token id refresh_token db ≡ (opened session, db')
    → leb (now + s.refresh_token_ttl_seconds * us_per_second) now' ≡ false
    → get_refresh_token (c.sha256 token') db'.tokens ≡ none
    → (next : Session) × ((refresh c s now' token' id' session.refresh_token db').0 ≡ opened next)
      × (next.user ≡ session.user)
      × (next.refresh_token ≡ token')
unfolding get_user
refresh-again c s now now' token token' id id' refresh_token db db' session h good free =
    let (stored, known) = refresh-stored c s now token id refresh_token db db' session h in
    refresh-succeeds c s now' token' id' session.refresh_token db' _ session.user stored refl good
      known free
