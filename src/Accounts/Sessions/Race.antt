-- ===== src/Accounts/Sessions/Race.antt =====
-- `refresh` of src/watchlist/modules/auth/auth_handler.py statement by statement, for requests that run
-- at the same time: the lookup of the token, the checks behind it, and the transaction.
use ticker_watch_case_study.Base.{
  ℕ, ◌≡◌, refl, ◌+◌, ◌*◌, Bool, true, false, none, some, List, [], ◌∷◌, ◌++◌, leb, arith,
  if◌then◌else◌,
}
use ticker_watch_case_study.Base.Text.{Text}
use ticker_watch_case_study.Settings.{Settings}
use ticker_watch_case_study.Time.{Instant, us_per_second}
use ticker_watch_case_study.Accounts.{
  TokenRow, Tokens, get_refresh_token, revoke_refresh_token, revoke_all_refresh_tokens,
  store_refresh_token,
}
use ticker_watch_case_study.Accounts.Sessions.{
  Crypto, Session, User, Reply, opened, failed, invalid_refresh_token, Database, get_user,
  transaction, issue_session, issue_token, rotate, exchange, refresh,
}

-- Where a request stands: before its lookup, with the row that it found, past the checks, answered.
pub data Stage : Type 0 where
  asked : Text → Stage
  found : ℕ × TokenRow → Stage
  cleared : ℕ → User → Stage
  answered : Reply → Stage

-- what a request brings along: the new refresh token, the id that its row gets, and its clock
pub record Request : Type 0 where
  pub token : Text
  pub token_id : ℕ
  pub now : Instant

module _ (c : Crypto) (s : Settings) where
  -- the next statement of a request
  unfoldable pub step : Request → Stage → Database → Stage × Database
  unfolding get_user revoke_all_refresh_tokens rotate
  step q (asked t) db = elim (get_refresh_token (c.sha256 t) db.tokens) [
    | none ↦ (answered (failed invalid_refresh_token), db)
    | some row ↦ (found row, db)
  ]
  step q (found (id, row)) db = elim row.revoked_at [
    | some t ↦ (
      answered (failed invalid_refresh_token),
      record db { tokens = (revoke_all_refresh_tokens q.now row.user_id db.tokens).1 },
    )
    | none ↦
        if leb row.expires_at q.now
        then (answered (failed invalid_refresh_token), db)
        else elim (get_user c s q.now q.token q.token_id row.user_id db) [
          | none ↦ (answered (failed invalid_refresh_token), db)
          | some user ↦ (cleared id user, db)
        ]
  ]
  step q (cleared id user) db =
      let (reply, db') = rotate c s q.now q.token q.token_id id user db in (answered reply, db')
  step q (answered reply) db = (answered reply, db)

  -- two requests on one database: who makes the next statement, `true` for the first
  unfoldable pub interleave :
      Request → Request → List Bool → Stage → Stage → Database → Stage × Stage × Database
  unfolding step
  interleave p q [] a b db = (a, b, db)
  interleave p q (true ∷ schedule) a b db =
      let (a', db') = step p a db in interleave p q schedule a' b db'
  interleave p q (false ∷ schedule) a b db =
      let (b', db') = step q b db in interleave p q schedule a b' db'

  -- the statements of one request alone
  unfoldable pub alone : Request → Text → Database → Stage × Database
  unfolding step
  alone q t db = let (a, db1) = step q (asked t) db in let (b, db2) = step q a db1 in step q b db2

  -- Run alone, the statements come to `refresh`.
  pub alone-refresh :
      (q : Request) (t : Text) (db : Database)
      → alone q t db ≡ (
        answered (refresh c s q.now q.token q.token_id t db).0,
        (refresh c s q.now q.token q.token_id t db).1,
      )
  unfolding alone refresh exchange
  alone-refresh q t db = ground arith

  -- what the transaction of a request leaves, if its new token hashes to no stored hash
  abbrev pub opened_by : Request → User → Session
  opened_by q user = record {
    access_token = (issue_token c s q.now q.token q.token_id user.id user.username).0;
    expires_in = s.access_token_ttl_seconds;
    refresh_token = q.token;
    user = user;
  }

  abbrev rotated_by : Request → ℕ → User → Tokens → Tokens
  rotated_by q id user tokens =
      revoke_refresh_token q.now id tokens
      ++ (
        q.token_id,
        record {
          user_id = user.id;
          token_hash = c.sha256 q.token;
          expires_at = q.now + s.refresh_token_ttl_seconds * us_per_second;
          revoked_at = none;
        },
      )
        ∷ []

  step-cleared :
      (q : Request) (id : ℕ) (user : User) (db : Database)
      → get_refresh_token (c.sha256 q.token) (revoke_refresh_token q.now id db.tokens) ≡ none
      → step q (cleared id user) db ≡ (
        answered (opened (opened_by q user)),
        record db { tokens = rotated_by q id user db.tokens },
      )
  unfolding step issue_token
  step-cleared q id user db free =
      rw (rotate, issue_session, store_refresh_token, free) (unfold transaction in refl)

  step-found :
      (q : Request) (old : ℕ × TokenRow) (user : User) (db : Database)
      → old.1.revoked_at ≡ none
      → leb old.1.expires_at q.now ≡ false
      → get_user c s q.now q.token q.token_id old.1.user_id db ≡ some user
      → step q (found old) db ≡ (cleared old.0 user, db)
  unfolding step
  step-found q old user db live good known = rw (step, live, good, known) refl

  step-asked :
      (q : Request) (t : Text) (old : ℕ × TokenRow) (db : Database)
      → get_refresh_token (c.sha256 t) db.tokens ≡ some old
      → step q (asked t) db ≡ (found old, db)
  unfolding step
  step-asked q t old db here = rw (step, here) refl

  -- Two requests that present one refresh token both get a session, if each has looked the token up
  -- and checked it before either retires it. The token is live, neither request is past its end, its
  -- user exists, and the new tokens hash to no stored hash.
  pub race-opens :
      (p q : Request) (t : Text) (old : ℕ × TokenRow) (user : User) (db : Database)
      → get_refresh_token (c.sha256 t) db.tokens ≡ some old
      → old.1.revoked_at ≡ none
      → leb old.1.expires_at p.now ≡ false
      → leb old.1.expires_at q.now ≡ false
      → get_user c s p.now p.token p.token_id old.1.user_id db ≡ some user
      → get_refresh_token (c.sha256 p.token) (revoke_refresh_token p.now old.0 db.tokens) ≡ none
      → get_refresh_token
          (c.sha256 q.token)
          (revoke_refresh_token q.now old.0 (rotated_by p old.0 user db.tokens))
        ≡ none
      → (db' : Database) × (interleave p q
            (true ∷ true ∷ false ∷ false ∷ true ∷ false ∷ [])
            (asked t)
            (asked t)
            db
          ≡ (answered (opened (opened_by p user)), answered (opened (opened_by q user)), db'))
  unfolding interleave get_user
  race-opens p q t old user db here live good_p good_q known free_p free_q =
      let db1 = record db { tokens = rotated_by p old.0 user db.tokens } in
      let db2 = record db { tokens = rotated_by q old.0 user db1.tokens } in
      (
        db2,
        ground (
          arith,
          step-asked p t old db here,
          step-found p old user db live good_p known,
          step-asked q t old db here,
          step-found q old user db live good_q known,
          step-cleared p old.0 user db free_p,
          step-cleared q old.0 user db1 free_q,
        ),
      )
