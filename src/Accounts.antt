-- ===== src/Accounts.antt =====
-- src/watchlist/modules/auth/auth_controller.py: the queries on `users`, `watchlists` and
-- `refresh_tokens`. A table is a dictionary on its primary key, which a sequence hands out: a new
-- row goes last.
pub mod Sessions
use ticker_watch_case_study.Base.{
  ℕ, suc, Bool, true, false, ◌&&◌, Option, none, some, List, [], ◌∷◌, ◌++◌, nat_key, ◌==◌,
  if◌then◌else◌, count_if,
}
use ticker_watch_case_study.Base.Dict.{Dict, lookup, has}
use ticker_watch_case_study.Base.Text.{Text, text, text_key}
use ticker_watch_case_study.Base.Result.{Result, ok, raised, postgres_error}
use ticker_watch_case_study.Time.{Instant}

-- a row of `users`, on its id
pub record UserRow : Type 0 where
  pub username : Text
  pub email : Option Text
  pub first_name : Text
  pub last_name : Text
  pub password_hash : Text

-- a row of `refresh_tokens`, on its id
pub record TokenRow : Type 0 where
  pub user_id : ℕ
  pub token_hash : Text
  pub expires_at : Instant
  pub revoked_at : Option Instant

abbrev pub Tokens : Type 0
Tokens = Dict ℕ TokenRow

unfoldable pub get_by_username : Text → Dict ℕ UserRow → Option (ℕ × UserRow)
get_by_username username [] = none
get_by_username username (user ∷ users) =
    if user.1.username == username then some user else get_by_username username users

unfoldable pub get_by_id : ℕ → Dict ℕ UserRow → Option UserRow
get_by_id = lookup

unfoldable pub get_refresh_token : Text → Tokens → Option (ℕ × TokenRow)
get_refresh_token hash [] = none
get_refresh_token hash (token ∷ tokens) =
    if token.1.token_hash == hash then some token else get_refresh_token hash tokens

-- `revoked_at IS NULL`
unfoldable pub is_live : TokenRow → Bool
is_live row = elim row.revoked_at [ none ↦ true | some t ↦ false ]

-- `SET revoked_at = now()`
unfoldable pub revoked : Instant → TokenRow → TokenRow
revoked now row = record {
  user_id = row.user_id;
  token_hash = row.token_hash;
  expires_at = row.expires_at;
  revoked_at = some now;
}

unfoldable pub revoke_where : Instant → (ℕ → TokenRow → Bool) → Tokens → Tokens
unfolding is_live revoked
revoke_where now test [] = []
revoke_where now test ((id, row) ∷ tokens) =
    (id, if test id row && is_live row then revoked now row else row) ∷ revoke_where now test tokens

unfoldable pub revoke_refresh_token : Instant → ℕ → Tokens → Tokens
unfolding revoke_where
revoke_refresh_token now token_id = revoke_where now (λ id row. id == token_id)

-- the live tokens of a user, which is what the statement's tag counts
unfoldable pub live_tokens : ℕ → Tokens → ℕ
unfolding is_live
live_tokens user_id = count_if (λ token. token.1.user_id == user_id && is_live token.1)

unfoldable pub revoke_all_refresh_tokens : Instant → ℕ → Tokens → ℕ × Tokens
unfolding revoke_where live_tokens
revoke_all_refresh_tokens now user_id tokens =
    (live_tokens user_id tokens, revoke_where now (λ id row. row.user_id == user_id) tokens)

-- `token_hash` is unique, and `token_id` is the sequence's next value. A refused row is none.
unfoldable pub store_refresh_token : ℕ → ℕ → Text → Instant → Tokens → Option Tokens
unfolding get_refresh_token
store_refresh_token token_id user_id hash expires_at tokens = elim (get_refresh_token hash tokens) [
  | some taken ↦ none
  | none ↦ some (
      tokens
      ++ (
        token_id,
        record { user_id = user_id; token_hash = hash; expires_at = expires_at; revoked_at = none },
      )
        ∷ [])
]

-- a row of `watchlists`, on its id
pub record WatchlistRow : Type 0 where
  pub user_id : ℕ
  pub name : Text

abbrev pub Watchlists : Type 0
Watchlists = Dict ℕ WatchlistRow

unfoldable pub find_default : ℕ → Watchlists → Option ℕ
find_default user_id [] = none
find_default user_id ((id, list) ∷ lists) =
    if list.user_id == user_id && list.name == text "default"
    then some id
    else find_default user_id lists

-- `INSERT ... ON CONFLICT (user_id, name)`, which leaves a row that is there as it is; `list_id` is
-- the sequence's next value. `user_id` references `users`: the row of a user who is not there is
-- refused, which is none.
unfoldable pub add_default : ℕ → ℕ → Dict ℕ UserRow → Watchlists → Option Watchlists
unfolding find_default
add_default list_id user_id users lists = elim (find_default user_id lists) [
  | some id ↦ some lists
  | none ↦
      if has user_id users
      then some (lists ++ (list_id, record { user_id = user_id; name = text "default" }) ∷ [])
      else none
]

-- The INSERT is sent only where no row is found, so that the row it returns is a new one. A foreign
-- key that refuses it is an exception of Postgres.
unfoldable pub default_watchlist_id : ℕ → ℕ → Dict ℕ UserRow → Watchlists → Result (ℕ × Watchlists)
unfolding find_default add_default
default_watchlist_id list_id user_id users lists = elim (find_default user_id lists) [
  | some id ↦ ok (id, lists)
  | none ↦ elim (add_default list_id user_id users lists) [
    | none ↦ raised postgres_error
    | some after ↦ ok (list_id, after)
  ]
]

-- `username` is unique. A refused user is none, and then the transaction leaves nothing.
unfoldable pub create :
    ℕ → ℕ → UserRow → Dict ℕ UserRow → Watchlists → Option (Dict ℕ UserRow × Watchlists)
unfolding get_by_username add_default
create user_id list_id row users lists = elim (get_by_username row.username users) [
  | some taken ↦ none
  | none ↦
      let added = users ++ (user_id, row) ∷ [] in
      elim (add_default list_id user_id added lists) [
        | none ↦ none
        | some after ↦ some (added, after)
      ]
]
