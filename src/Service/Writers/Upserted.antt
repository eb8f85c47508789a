-- ===== src/Service/Writers/Upserted.antt =====
-- What a write to Postgres that is executed and answered leaves for the security of each ticker.
use ticker_watch_case_study.Base.{ℕ, ◌≡◌, refl, List, [], ◌∷◌, All, Distinct, nat_key}
use ticker_watch_case_study.Base.Dict.{Dict, keys, lookup}
use ticker_watch_case_study.Base.Text.{Text, text_key}
use ticker_watch_case_study.Base.Result.{ok, done}
use ticker_watch_case_study.Settings.{Settings}
use ticker_watch_case_study.Securities.{Securities}
use ticker_watch_case_study.Prices.{NewPrice, LatestPrices}
use ticker_watch_case_study.Prices.Upsert.{newest_of, upsert_many_lem}
use ticker_watch_case_study.Service.{Stats, Service, Env}
use ticker_watch_case_study.Service.Writers.{postgres_step, postgres_plan, rows, send_upsert}
use ticker_watch_case_study.Service.Writers.Proposed.{
  AreApart, AreKnown, rows-Distinct, rows-IsKnown,
}
use ticker_watch_case_study.Service.Writers.Totals.{IsReady, rows_total}

module _ {F : Type 0} (settings : Settings) (env : Env F) (name : Text) (self : Service F)
    (securities : Securities) (apart : AreApart self.ticker_to_id)
    (known : AreKnown self.ticker_to_id securities) (answered : env.fate ≡ done) where
  -- the rows that were sent, and what each security has after them
  pub upserted :
      (changed : Dict Text F) (table : LatestPrices F) (stats : Stats)
      → All (IsReady self) changed
      → Distinct (keys changed)
      → (rs : List (NewPrice F)) × (rows name self changed ≡ ok rs)
        × ((id : ℕ)
            → lookup id
                (postgres_step settings env securities
                  (postgres_plan name self changed)
                  table
                  stats).2
              ≡ newest_of securities env.postgres_now id rs (lookup id table))
  unfolding postgres_plan postgres_step send_upsert newest_of rows
  upserted [] table stats ready d = ([], refl, λ id. refl)
  upserted (c ∷ changed) table stats ready d =
      let (rs, built) = rows_total name self (c ∷ changed) ready in
      let now = env.postgres_now in
      let (table', success, result) =
        upsert_many_lem securities now rs table
          (rows-IsKnown name self securities now apart (c ∷ changed) rs known built)
          (rows-Distinct name self securities now apart (c ∷ changed) rs built d) in
      (rs, built, λ id. rw (built, answered, success) (result id))
