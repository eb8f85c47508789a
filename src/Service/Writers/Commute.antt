-- ===== src/Service/Writers/Commute.antt =====
-- The writers do not interfere: in whatever order they run, each has its outcome and the stores and
-- counters end the same.
use ticker_watch_case_study.Base.{◌≡◌, refl, ap, List, [], ◌∷◌, arith, Option, some}
use ticker_watch_case_study.Base.Dict.{Dict}
use ticker_watch_case_study.Base.Text.{Text, text_key}
use ticker_watch_case_study.Base.Result.{Result, Outcome}
use ticker_watch_case_study.Cache.{Entry, Redis}
use ticker_watch_case_study.Securities.{Securities}
use ticker_watch_case_study.Prices.{NewPrice, LatestPrices}
use ticker_watch_case_study.Settings.{Settings, Transport, poll, push}
use ticker_watch_case_study.Cache.{Entry}
use ticker_watch_case_study.Prices.{NewPrice}
use ticker_watch_case_study.Service.{Stats, Service, Publication, World, Env}
use ticker_watch_case_study.Service.Writers.{
  entries, rows, commands, cache_step, postgres_step, publish_step, postgres_plan, publish_plan,
  count_cache, count_postgres, count_published, write_cache, write_postgres, publish,
}

module _ {F : Type 0} (name : Text) (self : Service F) (s : Stats) where
  abbrev counted : Service F
  counted = record self { stats = s }

  entries-stats : (prices : Dict Text F) → entries name counted prices ≡ entries name self prices
  unfolding entries
  entries-stats [] = refl
  entries-stats ((t, p) ∷ prices) = rw (entries-stats prices)

  rows-stats : (prices : Dict Text F) → rows name counted prices ≡ rows name self prices
  unfolding rows
  rows-stats [] = refl
  rows-stats ((t, p) ∷ prices) = rw (rows-stats prices)

  commands-stats : (prices : Dict Text F) → commands name counted prices ≡ commands name self prices
  unfolding commands
  commands-stats [] = refl
  commands-stats ((t, p) ∷ prices) = rw (commands-stats prices)

-- Two steps on the counters do not see one another.
record Apart {X Y : Type 0} (f : Stats → Outcome × Stats × X) (g : Stats → Outcome × Stats × Y)
    : Type 0 where
  first : (s : Stats) → ((f (g s).1).0 ≡ (f s).0) × ((f (g s).1).2 ≡ (f s).2)
  second : (s : Stats) → ((g (f s).1).0 ≡ (g s).0) × ((g (f s).1).2 ≡ (g s).2)
  both : (s : Stats) → (f (g s).1).1 ≡ (g (f s).1).1

module _ {F : Type 0} (settings : Settings) (env : Env F) (securities : Securities) (r : Redis F)
    (table : LatestPrices F) (sent : List (List (Publication F))) where
  cache_postgres-Apart :
      (es : Result (List (Entry F))) (rs : Option (Result (List (NewPrice F))))
      → Apart (cache_step settings env es r) (postgres_step settings env securities rs table)
  unfolding cache_step postgres_step count_cache count_postgres
  cache_postgres-Apart es rs = record {
    first = λ s. ground arith;
    second = λ s. ground arith;
    both = λ s. ground arith;
  }

  cache_publish-Apart :
      (es : Result (List (Entry F))) (cs : Option (Result (List (Publication F))))
      → Apart (cache_step settings env es r) (publish_step settings env cs sent)
  unfolding cache_step publish_step count_cache count_published
  cache_publish-Apart es cs = record {
    first = λ s. ground arith;
    second = λ s. ground arith;
    both = λ s. ground arith;
  }

  postgres_publish-Apart :
      (rs : Option (Result (List (NewPrice F)))) (cs : Option (Result (List (Publication F))))
      → Apart (postgres_step settings env securities rs table) (publish_step settings env cs sent)
  unfolding postgres_step publish_step count_postgres count_published
  postgres_publish-Apart rs cs = record {
    first = λ s. ground arith;
    second = λ s. ground arith;
    both = λ s. ground arith;
  }

module _ {F : Type 0} (name : Text) (self : Service F) (s : Stats) where
  postgres_plan-stats :
      (changed : Dict Text F)
      → postgres_plan name (counted name self s) changed ≡ postgres_plan name self changed
  unfolding postgres_plan
  postgres_plan-stats [] = refl
  postgres_plan-stats (c ∷ changed) = ap some (rows-stats name self s (c ∷ changed))

  publish_plan-stats :
      (transport : Transport) (changed : Dict Text F)
      → publish_plan name transport (counted name self s) changed
        ≡ publish_plan name transport self changed
  unfolding publish_plan
  publish_plan-stats poll changed = refl
  publish_plan-stats push [] = refl
  publish_plan-stats push (c ∷ changed) = ap some (commands-stats name self s (c ∷ changed))

-- two writers one after the other: the first one's outcome, the second one's, the world
unfoldable pub in_turn :
    {W : Type 0} → (W → Outcome × W) → (W → Outcome × W) → W → Outcome × Outcome × W
in_turn f g w = let (a, w1) = f w in let (b, w2) = g w1 in (a, b, w2)

-- the same two in the other order, with the outcomes in the first order
unfoldable pub in_reverse :
    {W : Type 0} → (W → Outcome × W) → (W → Outcome × W) → W → Outcome × Outcome × W
in_reverse f g w = let (b, w1) = g w in let (a, w2) = f w1 in (a, b, w2)

module _ {F S : Type 0} (settings : Settings) (name : Text) (env : Env F)
    (prices changed : Dict Text F) (w : World F S) where
  cache_postgres :
      in_turn (write_cache settings name env prices) (write_postgres settings name env changed) w
      ≡ in_reverse
          (write_cache settings name env prices)
          (write_postgres settings name env changed)
          w
  unfolding in_turn in_reverse write_cache write_postgres
  cache_postgres =
      let s = w.service.stats in
      let es = entries name w.service prices in
      let rs = postgres_plan name w.service changed in
      let s1 = (cache_step settings env es w.redis s).1 in
      let s2 = (postgres_step settings env w.securities rs w.latest_prices s).1 in
      let apart =
        cache_postgres-Apart settings env w.securities w.redis w.latest_prices w.sent es rs in
      rw (postgres_plan-stats name w.service s1 changed, entries-stats name w.service s2 prices)
        (cc (
          (apart.first s).0,
          (apart.first s).1,
          (apart.second s).0,
          (apart.second s).1,
          apart.both s,
        ))

  cache_publish :
      in_turn (write_cache settings name env prices) (publish settings name env changed) w
      ≡ in_reverse (write_cache settings name env prices) (publish settings name env changed) w
  unfolding in_turn in_reverse write_cache publish
  cache_publish =
      let s = w.service.stats in
      let es = entries name w.service prices in
      let cs = publish_plan name settings.transport w.service changed in
      let s1 = (cache_step settings env es w.redis s).1 in
      let s2 = (publish_step settings env cs w.sent s).1 in
      let apart =
        cache_publish-Apart settings env w.securities w.redis w.latest_prices w.sent es cs in
      rw
        (
          publish_plan-stats name w.service s1 settings.transport changed,
          entries-stats name w.service s2 prices,
        )
        (cc (
          (apart.first s).0,
          (apart.first s).1,
          (apart.second s).0,
          (apart.second s).1,
          apart.both s,
        ))

  postgres_publish :
      in_turn (write_postgres settings name env changed) (publish settings name env changed) w
      ≡ in_reverse (write_postgres settings name env changed) (publish settings name env changed) w
  unfolding in_turn in_reverse write_postgres publish
  postgres_publish =
      let s = w.service.stats in
      let rs = postgres_plan name w.service changed in
      let cs = publish_plan name settings.transport w.service changed in
      let s1 = (postgres_step settings env w.securities rs w.latest_prices s).1 in
      let s2 = (publish_step settings env cs w.sent s).1 in
      let apart =
        postgres_publish-Apart settings env w.securities w.redis w.latest_prices w.sent rs cs in
      rw
        (
          publish_plan-stats name w.service s1 settings.transport changed,
          postgres_plan-stats name w.service s2 changed,
        )
        (cc (
          (apart.first s).0,
          (apart.first s).1,
          (apart.second s).0,
          (apart.second s).1,
          apart.both s,
        ))

  -- Any two of the three writers may run in either order: each has the same outcome, and the
  -- service, its counters and all the stores end the same.
  pub writers_commute :
      (in_turn (write_cache settings name env prices) (write_postgres settings name env changed) w
        ≡ in_reverse
            (write_cache settings name env prices)
            (write_postgres settings name env changed)
            w)
      × (in_turn (write_cache settings name env prices) (publish settings name env changed) w
          ≡ in_reverse (write_cache settings name env prices) (publish settings name env changed) w)
      × (in_turn (write_postgres settings name env changed) (publish settings name env changed) w
          ≡ in_reverse
              (write_postgres settings name env changed)
              (publish settings name env changed)
              w)
  writers_commute = (cache_postgres, cache_publish, postgres_publish)
