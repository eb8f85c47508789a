-- ===== src/Tests/Service.antt =====
-- Ticks of a service with one security, and fetches of both sources.
use ticker_watch_case_study.Base.{
  ℕ, ◌+◌, ◌-◌, ◌*◌, ◌≡◌, refl, false, Option, none, some, List, [], ◌∷◌, arith, contains, nat_key,
  nat_beq, ltb, list_beq,
}
use ticker_watch_case_study.Base.Dict.{Dict, lookup, insert}
use ticker_watch_case_study.Base.Text.{Text, text, text_key}
use ticker_watch_case_study.Base.Result.{http_error, postgres_error, Result, ok, done, refused}
use ticker_watch_case_study.Settings.{defaults}
use ticker_watch_case_study.Cache.{Entry, up}
use ticker_watch_case_study.Time
use ticker_watch_case_study.Sources
use ticker_watch_case_study.Sources.{
  PriceSource, Numbers, max, Walk, walk_one, walk, vendor_fetch, vendor_source,
}
use ticker_watch_case_study.Sources.Laws.{AllAboveFloor}
use ticker_watch_case_study.Service.{Service, World, Env, replies, no_reply, no_stats}
use ticker_watch_case_study.Service.Writers
use ticker_watch_case_study.Service.Writers.{
  entries, rows, commands, write_cache, write_postgres, publish,
}
use ticker_watch_case_study.Service.Writers.Commute.{in_turn, in_reverse, writers_commute}
use ticker_watch_case_study.Service.Writers.Totals.{IsForeseen}
use ticker_watch_case_study.Service.Tick
use ticker_watch_case_study.Service.Tick.{
  differs, is_due, current_prices, handle_prices, changed_prices, tick,
}
use ticker_watch_case_study.Service.Tick.Ends.{handle_prices_ok}
use ticker_watch_case_study.Service.Tick.Moved.{first_seen_at, handle_prices_moves}
use ticker_watch_case_study.Service.Tick.Staleness.{handle_prices_quiet, refused_upsert_not_retried}

abbrev pub nvda : Text
nvda = text "NVDA"

-- a vendor that answers every request with the same price
abbrev quotes : Text → ℕ → Result (Dict Text (Option ℕ)) × ℕ
quotes query n = (ok ((nvda, some 171) ∷ []), n + 1)

abbrev pub source : PriceSource ℕ ℕ
source = vendor_source quotes

abbrev pub service : Service ℕ
service = record {
  ticker_to_id = (nvda, 1) ∷ [];
  last_published = (nvda, 170) ∷ [];
  effective_at = (nvda, 5) ∷ [];
  last_upstream_fetch = 0;
  upstream_prices = (nvda, 170) ∷ [];
  stats = no_stats;
}

abbrev pub world : World ℕ ℕ
world = record {
  service = service;
  source_state = 0;
  redis = [];
  securities =
      (1, record { ticker = nvda; name = nvda; exchange = none; is_synthetic = false }) ∷ [];
  latest_prices =
      (1, record { price = 170; effective_at = 5; source = text "api"; updated_at = 5 }) ∷ [];
  sent = [];
}

-- a tick ten seconds later, with everything up
abbrev pub env : Env ℕ
env = record {
  monotonic = 10_000_000;
  now = 10_000_000;
  redis_clock = 10;
  postgres_now = 10_000_000;
  link = up;
  fate = done;
  broker = replies (λ p. false);
}

-- the same tick with Postgres and the broker away
abbrev outage : Env ℕ
outage = record env { fate = refused postgres_error; broker = no_reply http_error }

abbrev moved : Dict Text ℕ
moved = (nvda, 171) ∷ []

writers_commute_example :
    (in_turn (write_cache defaults nvda env moved) (write_postgres defaults nvda env moved) world
      ≡ in_reverse
          (write_cache defaults nvda env moved)
          (write_postgres defaults nvda env moved)
          world)
    × (in_turn (write_cache defaults nvda env moved) (publish defaults nvda env moved) world
        ≡ in_reverse (write_cache defaults nvda env moved) (publish defaults nvda env moved) world)
    × (in_turn (write_postgres defaults nvda env moved) (publish defaults nvda env moved) world
        ≡ in_reverse
            (write_postgres defaults nvda env moved)
            (publish defaults nvda env moved)
            world)
writers_commute_example = writers_commute defaults nvda env moved moved world

outage-IsForeseen : IsForeseen outage
unfolding Writers.is_postgres_failure Writers.is_publish_failure
outage-IsForeseen = record { link = tt; fate = refl; broker = refl }

outage_ok : (handle_prices nat_beq source defaults outage (ok moved, world)).0 ≡ ok tt
unfolding lookup list_beq
outage_ok =
    handle_prices_ok nat_beq source defaults outage outage-IsForeseen moved world ((1, refl), tt)

handle_prices_moves_example :
    lookup nvda
      (handle_prices nat_beq source defaults outage (ok moved, world)).1.service.effective_at
    ≡ first_seen_at nat_beq source defaults
        (lookup nvda service.last_published)
        (lookup nvda moved)
        (lookup nvda service.effective_at)
        outage.now
unfolding contains
handle_prices_moves_example =
    handle_prices_moves nat_beq source defaults outage (nvda, 171) [] world nvda (refl, tt)

handle_prices_quiet_example :
    ((handle_prices nat_beq source defaults env (ok ((nvda, 170) ∷ []), world)).1.latest_prices
      ≡ world.latest_prices)
    × ((handle_prices nat_beq source defaults env (ok ((nvda, 170) ∷ []), world)).1.sent ≡ [])
unfolding differs lookup list_beq
handle_prices_quiet_example =
    handle_prices_quiet nat_beq source defaults env ((nvda, 170) ∷ []) world (refl, tt)

abbrev after_outage : World ℕ ℕ
after_outage = (handle_prices nat_beq source defaults outage (ok moved, world)).1

outage_ends : handle_prices nat_beq source defaults outage (ok moved, world) ≡ (ok tt, after_outage)
outage_ends = λ i. (outage_ok i, after_outage)

refused_upsert_not_retried_example :
    (after_outage.latest_prices ≡ world.latest_prices)
    × ((handle_prices nat_beq source defaults env (ok moved, after_outage)).1.latest_prices
        ≡ world.latest_prices)
unfolding contains
refused_upsert_not_retried_example =
    refused_upsert_not_retried nat_beq source defaults outage env postgres_error (nvda, 171) []
      world after_outage refl (refl, tt) (refl, tt) outage_ends

abbrev built : List (Entry ℕ)
built =
    record {
      ticker = nvda;
      payload = record {
        security_id = 1;
        price = 171;
        effective_at = Time.to_iso 5;
        source = nvda;
      };
      effective_at_iso = Time.to_iso 5;
    }
    ∷ []

abbrev after_fetch : World ℕ ℕ
after_fetch = record world {
  source_state = 1;
  service = record service {
    upstream_prices = moved;
    last_upstream_fetch = 10_000_000;
    stats = record no_stats { upstream_calls = 1 };
  };
}

fetch_run : current_prices nat_beq source defaults env (nvda ∷ []) world ≡ (ok moved, after_fetch)
unfolding current_prices Tick.is_empty is_due vendor_fetch Sources.priced insert
fetch_run = refl

-- prices in cents, a generator that counts down and never moves a price up
abbrev pub cents : Numbers ℕ ℕ
cents = record {
  zero = 0;
  one = 1;
  cent = 1;
  add = λ a b. a + b;
  mul = λ a b. a * b;
  lt = ltb;
  round_cents = λ a. a - 2;
  random = λ g. (0, g);
  gauss = λ mu sigma g. (0, g);
}

abbrev pub book : Walk ℕ ℕ
book = record { last = (nvda, 2) ∷ []; rng = 0 }

book-AllAboveFloor : AllAboveFloor cents 5 5 book.last
unfolding lookup
book-AllAboveFloor = record { at = λ t p e. ground arith }

empty-AllAboveFloor : AllAboveFloor cents 5 5 []
unfolding lookup
empty-AllAboveFloor = record { at = λ t p e. ground arith }

walk_run : (walk cents 5 5 (nvda ∷ []) [] book).0 ≡ (nvda, 1) ∷ []
unfolding walk walk_one max lookup insert list_beq
walk_run = refl
