-- ===== src/Tests/Tools.antt =====
-- A reset beside a running service, and the demo users registered twice.
use ticker_watch_case_study.Base.{
  ℕ, ◌≡◌, refl, none, some, [], ◌∷◌, All, nat_beq, nat_key, list_beq,
}
use ticker_watch_case_study.Base.Dict.{lookup, has}
use ticker_watch_case_study.Base.Text.{Text, text, text_key, text_lt}
use ticker_watch_case_study.Base.Result.{ok, done, execute}
use ticker_watch_case_study.Settings.{defaults}
use ticker_watch_case_study.Cache.{up, price_key, price_keys, flush_prices, delete_keys}
use ticker_watch_case_study.Service.Tick.{handle_prices, differs}
use ticker_watch_case_study.Accounts.{
  get_by_username, create, add_default, find_default, get_refresh_token, store_refresh_token,
}
use ticker_watch_case_study.Accounts.Sessions.{
  Database, register, issue_session, issue_token, to_user,
}
use ticker_watch_case_study.Tools.Reset.{reset_prices, reset_not_rebuilt}
use ticker_watch_case_study.Tools.DemoUsers.{
  Draw, demo_users, register_demo, create_users, carry_on,
}
use ticker_watch_case_study.Tools.DemoUsers.Again.{IsUser, create_users-again}
use ticker_watch_case_study.Tools.Capture.{capture, name_rows, price_rows, quote_of, ticker_order}
use ticker_watch_case_study.Base.Sort.{sort_by, insert_by}
use ticker_watch_case_study.Tests.Service.{nvda, source, world, env}
use ticker_watch_case_study.Tests.Accounts.{plain_text}

world_reset : (reset_prices done up 10 world).0 ≡ ok (1, 0)
unfolding reset_prices execute flush_prices delete_keys price_keys
world_reset = refl

reset_not_rebuilt_example :
    ((reset_prices done up 10 world).1.latest_prices ≡ [])
    × ((t : Text) → lookup (price_key t) (reset_prices done up 10 world).1.redis ≡ none)
    × ((handle_prices nat_beq source defaults env
          (ok ((nvda, 170) ∷ []), (reset_prices done up 10 world).1)).1.latest_prices
        ≡ [])
unfolding differs lookup list_beq
reset_not_rebuilt_example =
    reset_not_rebuilt nat_beq source defaults done up 10 (1, 0) world env ((nvda, 170) ∷ [])
      world_reset (refl, tt)

abbrev draw : ℕ → Draw
draw i = record { now = 10; token = i ∷ []; token_id = i; user_id = i; list_id = i }

abbrev again : ℕ → Draw
again i = record { now = 20; token = text "late"; token_id = 9; user_id = 9; list_id = 9 }

abbrev nobody : Database
nobody = record { users = []; watchlists = []; tokens = [] }

demo_registered : (create_users plain_text defaults draw 1 demo_users nobody).0 ≡ none
unfolding create_users carry_on register_demo register create get_by_username add_default has lookup
    find_default issue_session issue_token to_user store_refresh_token get_refresh_token list_beq
demo_registered = refl

create_users-again_example :
    All
      (λ u. IsUser (create_users plain_text defaults draw 1 demo_users nobody).1 u.username)
      demo_users
    × (create_users plain_text defaults again 1 demo_users
          (create_users plain_text defaults draw 1 demo_users nobody).1
        ≡ (none, (create_users plain_text defaults draw 1 demo_users nobody).1))
create_users-again_example =
    create_users-again plain_text defaults draw again 1 1 demo_users nobody demo_registered

-- the vendor lists a ticker that it cannot price
capture_run :
    capture {F = ℕ}
      (ok ((text "T", text "AT&T") ∷ (text "ATVI", text "Activision") ∷ []))
      (λ query. ok ((text "T", some 27) ∷ (text "ATVI", none) ∷ []))
      (text "now")
      (record { securities = none; prices = none })
    ≡ (
      ok tt,
      record {
        securities = some ((text "ATVI", text "Activision") ∷ (text "T", text "AT&T") ∷ []);
        prices = some ((text "T", (27, text "now")) ∷ []);
      },
    )
unfolding capture name_rows price_rows quote_of ticker_order sort_by insert_by text_lt lookup
    list_beq
capture_run = refl
