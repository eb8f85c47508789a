-- ===== src/Tests.antt =====
-- Runs on concrete inputs, and the theorems applied where their hypotheses hold. Prices are whole
-- numbers here.
mod Prices
mod Service
mod Accounts
mod Securities
mod Seed
mod Watchlists
mod Vendor
mod Startup
mod Lifetime
mod Tools
mod Api
use ticker_watch_case_study.Base.{
  ℕ, ◌+◌, ◌≤◌, ◌≡◌, ◌⊎◌, inl, inr, refl, Bool, true, false, not, Option, none, some, List, [], ◌∷◌,
  arith, All, Distinct, length, map, contains, nat_key, nat_beq, ltb, leb, list_beq, select,
  count_if,
}
use ticker_watch_case_study.Base.Dict.{Dict, keys, lookup, insert, erase, update, set_default, has}
use ticker_watch_case_study.Base.Text.{Text, text, text_key, text_lt, join, starts_with}
use ticker_watch_case_study.Base.Result.{
  Error, redis_error, postgres_error, http_error, Result, ok, raised, Outcome, Fate, done, refused,
  lost, answer, execute,
}
use ticker_watch_case_study.Settings.{
  Settings, defaults, SourceName, api, simulated, ReadSource, redis, postgres, push, source_text,
}
use ticker_watch_case_study.Time.{Instant, to_iso}
use ticker_watch_case_study.Time.Calendar.{date_of}
use ticker_watch_case_study.Time.Digits.{pad}
use ticker_watch_case_study.Time.Order.{InRange, text_lt-to_iso, length-to_iso}
use ticker_watch_case_study.Cache
use ticker_watch_case_study.Cache.{
  Redis, Slot, Cached, document, Document, Payload, Entry, Link, up, cut, dumps, price_key, get,
  is_newer, cas, pipeline, set_prices_if_newer, decode_all, get_prices,
}
use ticker_watch_case_study.Cache.Guard.{
  stamp_at, offer, offers, cas-accepts, set_prices_if_newer_counts, IsTimed,
  set_prices_if_newer_later,
}

abbrev epoch : Instant
epoch = 0

abbrev later : Instant
later = 90_061_000_007

-- `later` is a day, an hour, a minute, a second and seven microseconds after the epoch
to_iso-later : to_iso later ≡ text "1970-01-02T01:01:01.000007Z"
unfolding to_iso pad date_of starts_with
to_iso-later = refl

epoch-InRange : InRange epoch
unfolding date_of
epoch-InRange = record { year_lt = omega arith }

later-InRange : InRange later
unfolding date_of
later-InRange = record { year_lt = omega arith }

text_lt-to_iso_example : text_lt (to_iso epoch) (to_iso later) ≡ ltb epoch later
text_lt-to_iso_example = text_lt-to_iso epoch later epoch-InRange later-InRange

abbrev key : Text
key = price_key (text "NVDA")

abbrev payload_at : Instant → ℕ → Payload ℕ
payload_at at price = record {
  security_id = 1;
  price = price;
  effective_at = to_iso at;
  source = text "api";
}

abbrev entry_at : Instant → ℕ → Entry ℕ
entry_at at price = record {
  ticker = text "NVDA";
  payload = payload_at at price;
  effective_at_iso = to_iso at;
}

-- one cached price, stamped later than the epoch, at clock 10
abbrev cached : Redis ℕ
cached = (key, record { value = dumps (payload_at later 170); expires = 60 }) ∷ []

cached_stamp : stamp_at 10 key cached ≡ some (to_iso later)
unfolding stamp_at get lookup list_beq price_key dumps
cached_stamp = refl

abbrev offered : List (Entry ℕ)
offered = entry_at epoch 5 ∷ entry_at later 171 ∷ []

-- the second of the two writes is accepted
counts_run : (set_prices_if_newer up 10 offered 60 cached).0 ≡ ok (1, 1)
unfolding set_prices_if_newer pipeline cas get is_newer lookup insert list_beq price_key dumps
    count_if text_lt to_iso pad date_of starts_with
counts_run = refl

timed : (at : Instant) → InRange at → (price : ℕ) → IsTimed (entry_at at price)
timed at r price = record { at = at; in_range = r; stamped = refl; same = refl }

set_prices_if_newer_later_example :
    (b : Instant) × (stamp_at 10 key
        (set_prices_if_newer (cut 1 redis_error) 10 offered 60 cached).1
      ≡ some (to_iso b))
    × (later ≤ b)
set_prices_if_newer_later_example =
    set_prices_if_newer_later 10 60 key cached later (omega arith) later-InRange cached_stamp
      (cut 1 redis_error) offered (timed epoch epoch-InRange 5, (timed later later-InRange 171, tt))
