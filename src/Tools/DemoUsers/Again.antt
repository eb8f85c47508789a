-- ===== src/Tools/DemoUsers/Again.antt =====
-- The script can be run again.
use mathlib.Core.Path.{subst}
use ticker_watch_case_study.Base.{
  ℕ, suc, ◌≡◌, refl, ap, ◌∙◌, sym, Option, none, some, List, [], ◌∷◌, ◌++◌, All, arith,
  Option-cases, Bool-cases, inl, inr, ◌⊎◌,
}
use ticker_watch_case_study.Base.Text.{Text, text_key}
use ticker_watch_case_study.Base.Dict.{Dict}
use ticker_watch_case_study.Settings.{Settings}
use ticker_watch_case_study.Accounts.{
  UserRow, create, get_by_username, get_refresh_token, store_refresh_token,
}
use ticker_watch_case_study.Accounts.Sessions.{
  Crypto, Database, Reply, opened, failed, username_taken, AuthError, register, issue_session,
  to_user,
}
use ticker_watch_case_study.Accounts.Sessions.Login.{get_by_username-append, create-new}
use ticker_watch_case_study.Tools.DemoUsers.{
  DemoUser, Draw, is_taken, carry_on, register_demo, create_users,
}

-- the table has the user name
abbrev pub IsUser : Database → Text → Type 0
IsUser db name = (row : ℕ × UserRow) × (get_by_username name db.users ≡ some row)

get_by_username-kept :
    (name : Text) (users : Dict ℕ UserRow) (x row : ℕ × UserRow)
    → get_by_username name users ≡ some row
    → get_by_username name (users ++ x ∷ []) ≡ some row
unfolding get_by_username
get_by_username-kept name [] x row h = cc
get_by_username-kept name (r ∷ users) x row h =
    ground (arith, get_by_username-kept name users x row, h)

module _ (c : Crypto) (s : Settings) where
  issue_session-keeps :
      (d : Draw) (u : _) (db : Database)
      → (issue_session c s d.now d.token d.token_id u db).1.users ≡ db.users
  unfolding issue_session store_refresh_token
  issue_session-keeps d u db =
      elim (Option-cases (get_refresh_token (c.sha256 d.token) db.tokens)) [
        | inl free ↦ rw (issue_session, store_refresh_token, free) refl
        | inr (taken, q) ↦ rw (issue_session, store_refresh_token, q) refl
      ]

  -- the users after a registration: those before, or one more
  register_demo-users :
      (d : Draw) (u : DemoUser) (db : Database)
      → ((row : ℕ × UserRow) × (get_by_username u.username db.users ≡ some row)
          × (register_demo c s d u db ≡ (failed username_taken, db)))
        ⊎ ((row : UserRow) × (row.username ≡ u.username)
            × (get_by_username u.username db.users ≡ none)
            × ((register_demo c s d u db).1.users ≡ db.users ++ (d.user_id, row) ∷ []))
  unfolding register_demo register create
  register_demo-users d u db = elim (Option-cases (get_by_username u.username db.users)) [
    | inr (row, q) ↦ inl (row, q, rw (register_demo, register, create, q) refl)
    | inl new ↦
        let row : UserRow = record {
          username = u.username;
          email = some u.email;
          first_name = u.first;
          last_name = u.last;
          password_hash = c.hashpw u.password;
        } in
        let (lists, created) = create-new d.user_id d.list_id row db.users db.watchlists new in
        inr (
          row,
          refl,
          new,
          rw (register_demo, register, created) (issue_session-keeps d (to_user d.user_id row) _),
        )
  ]

  -- a user that was there is there after a registration
  register_demo-kept :
      (d : Draw) (u : DemoUser) (name : Text) (db : Database)
      → IsUser db name
      → IsUser (register_demo c s d u db).1 name
  register_demo-kept d u name db (row, there) = elim (register_demo-users d u db) [
    | inl (taken, q, same) ↦ rw same (row, there)
    | inr (new, named, absent, users) ↦ (
      row,
      ap (get_by_username name) users
          ∙ get_by_username-kept name db.users (d.user_id, new) row there,
    )
  ]

  register_demo-IsUser :
      (d : Draw) (u : DemoUser) (db : Database) → IsUser (register_demo c s d u db).1 u.username
  register_demo-IsUser d u db = elim (register_demo-users d u db) [
    | inl (taken, q, same) ↦ rw same (taken, q)
    | inr (new, named, absent, users) ↦ (
      (d.user_id, new),
      ap (get_by_username u.username) users
          ∙ get_by_username-append u.username db.users d.user_id new absent named,
    )
  ]

  -- one turn of the loop that does not end the script
  create_users-next :
      (draw : ℕ → Draw) (i : ℕ) (u : DemoUser) (users : List DemoUser) (db : Database)
      → (create_users c s draw i (u ∷ users) db).0 ≡ none
      → create_users c s draw i (u ∷ users) db
        ≡ create_users c s draw (suc i) users (register_demo c s (draw i) u db).1
  unfolding create_users carry_on
  create_users-next draw i u users db h = go (register_demo c s (draw i) u db).0 refl
    where
      go :
          (reply : Reply)
          → (register_demo c s (draw i) u db).0 ≡ reply
          → create_users c s draw i (u ∷ users) db
            ≡ create_users c s draw (suc i) users (register_demo c s (draw i) u db).1
      go (opened session) e = rw (create_users, carry_on, e) refl
      go (failed e') e = elim (Bool-cases (is_taken e')) [
        | inl taken ↦ rw (create_users, carry_on, e, taken) refl
        | inr other ↦
            let no = rw (create_users, carry_on, e, other) at h in absurd (ground (arith, no))
      ]

  create_users-kept :
      (draw : ℕ → Draw) (i : ℕ) (users : List DemoUser) (name : Text) (db : Database)
      → (create_users c s draw i users db).0 ≡ none
      → IsUser db name
      → IsUser (create_users c s draw i users db).1 name
  create_users-kept draw i [] name db h there = unfold create_users in there
  create_users-kept draw i (u ∷ users) name db h there =
      let next = create_users-next draw i u users db h in
      let db' = (register_demo c s (draw i) u db).1 in
      rw next (
        create_users-kept draw (suc i) users name db' (ap (λ r. r.0) (sym next) ∙ h)
          (register_demo-kept (draw i) u name db there))

  create_users-IsUser :
      (draw : ℕ → Draw) (i : ℕ) (users : List DemoUser) (db : Database)
      → (create_users c s draw i users db).0 ≡ none
      → All (λ u. IsUser (create_users c s draw i users db).1 u.username) users
  create_users-IsUser draw i [] db h = tt
  create_users-IsUser draw i (u ∷ users) db h =
      let next = create_users-next draw i u users db h in
      let db' = (register_demo c s (draw i) u db).1 in
      let h' = ap (λ r. r.0) (sym next) ∙ h in
      subst (λ (r : Option AuthError × Database). All (λ v. IsUser r.1 v.username) (u ∷ users))
        (sym next)
        (
          create_users-kept draw (suc i) users u.username db' h'
              (register_demo-IsUser (draw i) u db),
          create_users-IsUser draw (suc i) users db' h',
        )

  create_users-same :
      (draw : ℕ → Draw) (i : ℕ) (users : List DemoUser) (db : Database)
      → All (λ u. IsUser db u.username) users
      → create_users c s draw i users db ≡ (none, db)
  unfolding create_users carry_on is_taken
  create_users-same draw i [] db h = refl
  create_users-same draw i (u ∷ users) db ((row, there), hs) =
      elim (register_demo-users (draw i) u db) [
        | inr (new, named, absent, more) ↦ absurd (ground (arith, there, absent))
        | inl (taken, q, same) ↦
            ap
              (λ (r : Reply × Database). carry_on r.0 r.1 (create_users c s draw (suc i) users r.1))
              same
            ∙ create_users-same draw (suc i) users db hs
      ]

  -- When the script has ended without an error every demo user is registered, and to run it again,
  -- whenever and with whatever tokens and ids, ends without an error and changes nothing.
  pub create_users-again :
      (draw draw' : ℕ → Draw) (i j : ℕ) (users : List DemoUser) (db : Database)
      → (create_users c s draw i users db).0 ≡ none
      → All (λ u. IsUser (create_users c s draw i users db).1 u.username) users
        × (create_users c s draw' j users (create_users c s draw i users db).1
            ≡ (none, (create_users c s draw i users db).1))
  create_users-again draw draw' i j users db h =
      let known = create_users-IsUser draw i users db h in
      (known, create_users-same draw' j users (create_users c s draw i users db).1 known)
