-- ===== src/Service/Writers/Totals.antt =====
-- What each writer needs to end without an exception: an id and a stamp for every ticker, and no
-- failure but those that it catches.
use ticker_watch_case_study.Base.{
  ℕ, true, ◌≡◌, refl, List, [], ◌∷◌, All, arith, some, nat_key, inl, inr,
}
use ticker_watch_case_study.Base.Dict.{Dict, lookup, insert}
use ticker_watch_case_study.Base.Text.{Text, text_key}
use ticker_watch_case_study.Base.Result.{
  Error, postgres_error, ok, raised, Fate, done, refused, lost, Result-cases,
}
use ticker_watch_case_study.Settings.{Settings}
use ticker_watch_case_study.Time.{Instant}
use ticker_watch_case_study.Cache.{Link, up, cut, Entry, Redis, set_prices_if_newer}
use ticker_watch_case_study.Securities.{Securities}
use ticker_watch_case_study.Prices.{NewPrice, LatestPrices, row_of, upsert_rows, upsert_many}
use ticker_watch_case_study.Prices.Snapshot.{is_outage}
use ticker_watch_case_study.Service.{
  Stats, Service, Env, BrokerReply, replies, no_reply, Publication,
}
use ticker_watch_case_study.Service.Writers.{
  entries, rows, commands, cache_step, postgres_step, publish_step, count_cache, count_postgres,
  count_published, send_upsert, is_postgres_failure, is_publish_failure,
}

-- the failures that the writers catch
abbrev pub LinkFails : Link → Type 0
LinkFails up = Unit
LinkFails (cut n e) = is_outage e ≡ true

abbrev pub FateFails : Fate → Type 0
FateFails done = Unit
FateFails (refused e) = is_postgres_failure e ≡ true
FateFails (lost e) = is_postgres_failure e ≡ true

abbrev pub BrokerFails : {F : Type 0} → BrokerReply F → Type 0
BrokerFails (replies f) = Unit
BrokerFails (no_reply e) = is_publish_failure e ≡ true

pub record IsForeseen {F : Type 0} (env : Env F) : Type 0 where
  pub link : LinkFails env.link
  pub fate : FateFails env.fate
  pub broker : BrokerFails env.broker

module _ {F : Type 0} where
  -- the ticker has an id and a stamp
  abbrev pub IsReady : Service F → Text × F → Type 0
  IsReady self e =
      ((id : ℕ) × (lookup e.0 self.ticker_to_id ≡ some id))
      × ((at : Instant) × (lookup e.0 self.effective_at ≡ some at))

  module _ (name : Text) (self : Service F) where
    pub entries_total :
        (prices : Dict Text F)
        → All (IsReady self) prices
        → (es : List (Entry F)) × (entries name self prices ≡ ok es)
    unfolding entries
    entries_total [] h = ([], refl)
    entries_total ((t, p) ∷ prices) (((id, a), (at, b)), hs) =
        let (rest, e) = entries_total prices hs in
        elim (Result-cases (entries name self ((t, p) ∷ prices))) [
          | inl built ↦ built
          | inr (x, failed) ↦ absurd (ground (arith, a, b, e, failed))
        ]

    pub rows_total :
        (prices : Dict Text F)
        → All (IsReady self) prices
        → (rs : List (NewPrice F)) × (rows name self prices ≡ ok rs)
    unfolding rows
    rows_total [] h = ([], refl)
    rows_total ((t, p) ∷ prices) (((id, a), (at, b)), hs) =
        let (rest, e) = rows_total prices hs in
        elim (Result-cases (rows name self ((t, p) ∷ prices))) [
          | inl built ↦ built
          | inr (x, failed) ↦ absurd (ground (arith, a, b, e, failed))
        ]

    pub commands_total :
        (prices : Dict Text F)
        → All (IsReady self) prices
        → (cs : List (Publication F)) × (commands name self prices ≡ ok cs)
    unfolding commands
    commands_total [] h = ([], refl)
    commands_total ((t, p) ∷ prices) (((id, a), (at, b)), hs) =
        let (rest, e) = commands_total prices hs in
        elim (Result-cases (commands name self ((t, p) ∷ prices))) [
          | inl built ↦ built
          | inr (x, failed) ↦ absurd (ground (arith, a, b, e, failed))
        ]

  pub cache_step_ok :
      (settings : Settings) (env : Env F) (es : List (Entry F)) (r : Redis F) (s : Stats)
      → LinkFails env.link
      → (cache_step settings env (ok es) r s).0 ≡ ok tt
  unfolding cache_step set_prices_if_newer count_cache
  cache_step_ok settings env [] r s h = refl
  cache_step_ok settings env (e ∷ es) r s h = ground arith

  upsert_rows_error :
      (securities : Securities) (now : Instant) (written : List ℕ) (rs : List (NewPrice F))
      (table : LatestPrices F) (e : Error)
      → upsert_rows securities now written rs table ≡ raised e
      → e ≡ postgres_error
  unfolding upsert_rows
  upsert_rows_error securities now written [] table e h = cc
  upsert_rows_error securities now written (r ∷ rs) table e h = ground (
    arith,
    upsert_rows_error securities now written rs table e,
    upsert_rows_error securities now (r.security_id ∷ written) rs
        (insert r.security_id (row_of now r) table) e,
  )

  pub postgres_step_ok :
      (settings : Settings) (env : Env F) (securities : Securities) (rs : List (NewPrice F))
      (table : LatestPrices F) (s : Stats)
      → FateFails env.fate
      → (postgres_step settings env securities (some (ok rs)) table s).0 ≡ ok tt
  unfolding postgres_step send_upsert count_postgres upsert_many is_postgres_failure
  postgres_step_ok settings env securities rs table s h =
      elim (Result-cases (upsert_rows securities env.postgres_now [] rs table)) [
        | inl (table', written) ↦ ground (arith, written)
        | inr (e, failed) ↦
            ground
              (arith, failed, upsert_rows_error securities env.postgres_now [] rs table e failed)
      ]

  pub publish_step_ok :
      (settings : Settings) (env : Env F) (cs : List (Publication F))
      (sent : List (List (Publication F))) (s : Stats)
      → BrokerFails env.broker
      → (publish_step settings env (some (ok cs)) sent s).0 ≡ ok tt
  unfolding publish_step count_published
  publish_step_ok settings env cs sent s h = ground arith
