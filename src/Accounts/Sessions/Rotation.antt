-- ===== src/Accounts/Sessions/Rotation.antt =====
-- src/watchlist/modules/auth/auth_handler.py: a refresh token is good for one exchange, and one
-- that is presented again ends the sessions of its user.
use ticker_watch_case_study.Base.{
  ℕ, ◌≡◌, inl, inr, refl, false, none, some, [], ◌∷◌, ◌++◌, arith, sym, ap, ◌∙◌, nat_key, ◌==◌,
  count_if, leb, Bool-cases, Option-cases, map, if◌then◌else◌,
}
use ticker_watch_case_study.Base.Dict.{lookup}
use ticker_watch_case_study.Base.Text.{Text, text_key}
use ticker_watch_case_study.Settings.{Settings}
use ticker_watch_case_study.Time.{Instant}
use ticker_watch_case_study.Accounts.{
  TokenRow, Tokens, get_refresh_token, is_live, revoked, revoke_where, revoke_refresh_token,
  live_tokens, revoke_all_refresh_tokens, store_refresh_token,
}
use ticker_watch_case_study.Accounts.Sessions.{
  Crypto, Session, User, Reply, opened, failed, invalid_refresh_token, Database, transaction,
  issue_session, get_user, rotate, exchange, refresh,
}

no_live_left :
    (now : Instant) (user_id : ℕ) (tokens : Tokens)
    → live_tokens user_id (revoke_all_refresh_tokens now user_id tokens).1 ≡ 0
unfolding live_tokens revoke_all_refresh_tokens revoke_where is_live revoked count_if
no_live_left now user_id [] = refl
no_live_left now user_id ((id, row) ∷ tokens) = ground (arith, no_live_left now user_id tokens)

-- A row when the sessions of `user_id` end: a live one of the user's is revoked now.
abbrev pub ended : Instant → ℕ → ℕ × TokenRow → ℕ × TokenRow
ended now user_id (id, row) = elim row.revoked_at [
  | some t ↦ (id, row)
  | none ↦ if row.user_id == user_id then (id, record row { revoked_at = some now }) else (id, row)
]

revoke_all-ended :
    (now : Instant) (user_id : ℕ) (tokens : Tokens)
    → (revoke_all_refresh_tokens now user_id tokens).1 ≡ map (ended now user_id) tokens
unfolding revoke_all_refresh_tokens revoke_where is_live revoked
revoke_all-ended now user_id [] = refl
revoke_all-ended now user_id ((id, row) ∷ tokens) =
    ground (arith, revoke_all-ended now user_id tokens)

lookup-ended :
    (now : Instant) (user_id id : ℕ) (row : TokenRow) (tokens : Tokens)
    → (row.user_id == user_id) ≡ false
    → lookup id tokens ≡ some row
    → lookup id (map (ended now user_id) tokens) ≡ some row
unfolding lookup
lookup-ended now user_id id row [] other h = h
lookup-ended now user_id id row ((j, first) ∷ tokens) other h =
    ground (arith, lookup-ended now user_id id row tokens other)

-- a retired token stays where it was, with the time of its retirement
get-revoke :
    (now : Instant) (hash : Text) (id : ℕ) (row : TokenRow) (tokens more : Tokens)
    → get_refresh_token hash tokens ≡ some (id, row)
    → row.revoked_at ≡ none
    → get_refresh_token hash (revoke_refresh_token now id tokens ++ more)
      ≡ some (id, revoked now row)
unfolding get_refresh_token revoke_refresh_token revoke_where is_live revoked
get-revoke now hash id row [] more found h = cc
get-revoke now hash id row ((j, first) ∷ tokens) more found h =
    ground (arith, get-revoke now hash id row tokens more, text_key.test_iff first.token_hash hash)

pub transaction-opened :
    (before after : Database) (reply : Reply × Database) (session : Session)
    → transaction before reply ≡ (opened session, after)
    → reply ≡ (opened session, after)
unfolding transaction
transaction-opened before after (opened x, db) session h = h
transaction-opened before after (failed e, db) session h = ground (arith, h)

module _ (c : Crypto) (s : Settings) (now : Instant) (token : Text) (token_id : ℕ) where
  issue_session-opened :
      (user : User) (db db' : Database) (session : Session)
      → issue_session c s now token token_id user db ≡ (opened session, db')
      → (session.user ≡ user)
        × (session.refresh_token ≡ token)
        × (more : Tokens) × (db'.tokens ≡ db.tokens ++ more)
  unfolding issue_session store_refresh_token
  issue_session-opened user db db' session h =
      elim (Option-cases (get_refresh_token (c.sha256 token) db.tokens)) [
        | inl free ↦
            let e = rw (issue_session, store_refresh_token, free) at h in
            (ground (arith, e), ground (arith, e), _, sym (ap (λ reply. reply.1.tokens) e))
        | inr (taken, q) ↦ ground arith
      ]

  -- Presenting a refresh token that has been retired opens no session. Users and watchlists stay as
  -- they are, and of the stored tokens just the live ones of its user are changed: they are revoked
  -- at the time of the request. So its user has no live token, and the rows of every other user are
  -- as they were.
  pub refresh-reuse :
      (refresh_token : Text) (db : Database) (id : ℕ) (row : TokenRow) (t : Instant)
      → get_refresh_token (c.sha256 refresh_token) db.tokens ≡ some (id, row)
      → row.revoked_at ≡ some t
      → ((refresh c s now token token_id refresh_token db).0 ≡ failed invalid_refresh_token)
        × ((refresh c s now token token_id refresh_token db).1.users ≡ db.users)
        × ((refresh c s now token token_id refresh_token db).1.watchlists ≡ db.watchlists)
        × ((refresh c s now token token_id refresh_token db).1.tokens
            ≡ map (ended now row.user_id) db.tokens)
        × (live_tokens row.user_id (refresh c s now token token_id refresh_token db).1.tokens ≡ 0)
        × ((j : ℕ) (other : TokenRow)
            → (other.user_id == row.user_id) ≡ false
            → lookup j db.tokens ≡ some other
            → lookup j (refresh c s now token token_id refresh_token db).1.tokens ≡ some other)
  unfolding refresh exchange
  refresh-reuse refresh_token db id row t found h =
      let all = revoke_all-ended now row.user_id db.tokens in
      rw (refresh, found, exchange, h)
        (
          refl,
          refl,
          refl,
          all,
          no_live_left now row.user_id db.tokens,
          λ j other apart there.
              rw all (lookup-ended now row.user_id j other db.tokens apart there),
        )

  -- A session is opened only for a live token that is not over, and only for a user who exists; it
  -- carries a new refresh token, and the token that was presented is retired.
  pub refresh-opened :
      (refresh_token : Text) (db db' : Database) (session : Session)
      → refresh c s now token token_id refresh_token db ≡ (opened session, db')
      → (old : ℕ × TokenRow) × (get_refresh_token (c.sha256 refresh_token) db.tokens ≡ some old)
        × (old.1.revoked_at ≡ none)
        × (leb old.1.expires_at now ≡ false)
        × (get_user c s now token token_id old.1.user_id db ≡ some session.user)
        × (session.refresh_token ≡ token)
        × (get_refresh_token (c.sha256 refresh_token) db'.tokens ≡ some (old.0, revoked now old.1))
  unfolding refresh exchange
  refresh-opened refresh_token db db' session h =
      elim (Option-cases (get_refresh_token (c.sha256 refresh_token) db.tokens)) [
        | inl unknown ↦ let e = rw (refresh, unknown) at h in ground (arith, e)
        | inr (old, found) ↦ elim (Option-cases old.1.revoked_at) [
          | inr (t, retired) ↦
              let e = rw (refresh, found, exchange, retired) at h in ground (arith, e)
          | inl live ↦ elim (Bool-cases (leb old.1.expires_at now)) [
            | inl over ↦ let e = rw (refresh, found, exchange, live, over) at h in ground (arith, e)
            | inr good ↦ elim (Option-cases (get_user c s now token token_id old.1.user_id db)) [
              | inl gone ↦
                  let e = rw (refresh, found, exchange, live, good, gone) at h in ground (arith, e)
              | inr (user, known) ↦
                  let e = rw (refresh, found, exchange, live, good, known) at h in
                  let f : _ ≡ (opened session, db') = unfold rotate in e in
                  let (same, fresh, more, kept) =
                    issue_session-opened user _ db' session
                      (transaction-opened db db' _ session f) in
                  (
                    old,
                    found,
                    live,
                    good,
                    known ∙ ap some (sym same),
                    fresh,
                    ap (get_refresh_token (c.sha256 refresh_token)) kept
                        ∙ get-revoke now (c.sha256 refresh_token) old.0 old.1 db.tokens more found
                            live,
                  )
            ]
          ]
        ]
      ]

-- After an exchange that opened a session, presenting the old token in the next request, at
-- whatever time, fails and leaves the user without a live token: the session just opened has ended
-- too.
pub refresh-once :
    (c : Crypto) (s : Settings) (now now' : Instant) (token token' : Text) (id id' : ℕ)
    → (refresh_token : Text) (db db' : Database) (session : Session)
    → refresh c s now token id refresh_token db ≡ (opened session, db')
    → (user_id : ℕ) × (get_user c s now token id user_id db ≡ some session.user)
      × ((refresh c s now' token' id' refresh_token db').0 ≡ failed invalid_refresh_token)
      × (live_tokens user_id (refresh c s now' token' id' refresh_token db').1.tokens ≡ 0)
refresh-once c s now now' token token' id id' refresh_token db db' session h =
    let (old, found, live, good, known, fresh, retired) =
      refresh-opened c s now token id refresh_token db db' session h in
    let (fails, users, lists, tokens, none_live, others) =
      refresh-reuse c s now' token' id' refresh_token db' old.0 (revoked now old.1) now retired
        (unfold revoked in refl) in
    (old.1.user_id, known, fails, unfold revoked in none_live)
