-- ===== src/Service/Tick/Accounts.antt =====
-- The counters account for every price, and the vendor is called no more often than its interval.
use ticker_watch_case_study.Base.{
  ◌+◌, Bool, false, ◌≡◌, List, [], ◌∷◌, arith, length, count_if-le-length, inl, inr, ◌⊎◌,
}
use ticker_watch_case_study.Base.Dict.{Dict}
use ticker_watch_case_study.Base.Text.{Text, text_key}
use ticker_watch_case_study.Base.Result.{ok, Result-cases}
use ticker_watch_case_study.Settings.{Settings, push}
use ticker_watch_case_study.Sources.{PriceSource}
use ticker_watch_case_study.Cache.{up, Entry}
use ticker_watch_case_study.Cache.Guard.{set_prices_if_newer_counts}
use ticker_watch_case_study.Service.{
  Stats, Service, World, Env, BrokerReply, replies, no_reply, Publication,
}
use ticker_watch_case_study.Service.Writers.{
  entries, commands, publish_plan, publish, publish_step, write_cache, cache_step, count_cache,
  count_published,
}
use ticker_watch_case_study.Service.Tick.{is_due, is_empty, current_prices}

module _ {F : Type 0} (name : Text) (self : Service F) where
  length-entries :
      (prices : Dict Text F) (es : List (Entry F))
      → entries name self prices ≡ ok es
      → length es ≡ length prices
  unfolding entries
  length-entries [] es h = ground arith
  length-entries ((t, p) ∷ prices) es h = elim (Result-cases (entries name self prices)) [
    | inl (rest, e) ↦ ground (arith, e, length-entries prices rest e)
    | inr (x, e) ↦ ground (arith, e)
  ]

  length-commands :
      (changed : Dict Text F) (cmds : List (Publication F))
      → commands name self changed ≡ ok cmds
      → length cmds ≡ length changed
  unfolding commands
  length-commands [] cmds h = ground arith
  length-commands ((t, p) ∷ changed) cmds h = elim (Result-cases (commands name self changed)) [
    | inl (rest, e) ↦ ground (arith, e, length-commands changed rest e)
    | inr (x, e) ↦ ground (arith, e)
  ]

count_published_total :
    {F : Type 0} (reply : BrokerReply F) (sent : List (Publication F)) (s : Stats)
    → (count_published reply sent s).0 ≡ ok tt
    → (count_published reply sent s).1.published + (count_published reply sent s).1.publish_errors
      ≡ s.published + s.publish_errors + length sent
unfolding count_published
count_published_total (replies is_error) sent s h = omega (arith, count_if-le-length is_error sent)
count_published_total (no_reply e) sent s h = ground arith

module _ {F S : Type 0} (settings : Settings) (name : Text) (env : Env F) where
  -- While Redis answers, each price that is offered to the cache is counted once, as written or as
  -- rejected; `write_cache` then ends without an exception whenever its entries can be built.
  pub write_cache_accounts :
      (prices : Dict Text F) (es : List (Entry F)) (w : World F S)
      → env.link ≡ up
      → entries name w.service prices ≡ ok es
      → ((write_cache settings name env prices w).0 ≡ ok tt)
        × ((write_cache settings name env prices w).1.service.stats.cache_writes
              + (write_cache settings name env prices w).1.service.stats.cache_writes_rejected
            ≡ w.service.stats.cache_writes + w.service.stats.cache_writes_rejected + length prices)
  unfolding write_cache cache_step count_cache
  write_cache_accounts prices es w link built =
      let (x, y, counted, total) =
        set_prices_if_newer_counts env.redis_clock settings.price_cache_ttl_seconds es w.redis in
      (
        ground (arith, link, built, counted),
        ground (arith, link, built, counted, total, length-entries name w.service prices es built),
      )

  -- Under push, a publish that ends without an exception counts each changed price once, as
  -- published or as an error, whether the broker answers or not.
  publish_accounts :
      (changed : Dict Text F) (w : World F S)
      → settings.transport ≡ push
      → (publish settings name env changed w).0 ≡ ok tt
      → (publish settings name env changed w).1.service.stats.published
          + (publish settings name env changed w).1.service.stats.publish_errors
        ≡ w.service.stats.published + w.service.stats.publish_errors + length changed
  unfolding publish publish_plan publish_step
  publish_accounts [] w t h = ground (arith, t)
  publish_accounts (c ∷ changed) w t h =
      elim (Result-cases (commands name w.service (c ∷ changed))) [
        | inl (cmds, built) ↦ ground (
          arith,
          t,
          built,
          length-commands name w.service (c ∷ changed) cmds built,
          count_published_total env.broker cmds w.service.stats,
        )
        | inr (e, failed) ↦ ground (arith, t, failed)
      ]

module _ {F S : Type 0} (feq : F → F → Bool) (source : PriceSource F S) (settings : Settings)
    (env : Env F) (w : World F S) where
  -- Between two due times, and once some prices have been read, a tick serves those prices: it does
  -- not fetch, and changes nothing.
  current_prices_rate :
      (p : Text × F) (prices : Dict Text F) (tickers : List Text)
      → is_due feq source settings env w.service ≡ false
      → w.service.upstream_prices ≡ p ∷ prices
      → current_prices feq source settings env tickers w ≡ (ok (p ∷ prices), w)
  unfolding current_prices is_empty
  current_prices_rate p prices tickers wait known = ground (arith, wait, known)

  -- A read that ends without an exception either changes nothing, or makes exactly one fetch, counted
  -- as a call or as an error; after an error it returns the prices of the read before.
  pub current_prices_calls :
      (tickers : List Text) (prices : Dict Text F) (w' : World F S)
      → current_prices feq source settings env tickers w ≡ (ok prices, w')
      → ((w' ≡ w) × (prices ≡ w.service.upstream_prices))
        ⊎ ((w'.source_state ≡ (source.fetch tickers w.source_state).1)
            × (w'.service.upstream_prices ≡ prices)
            × (((source.fetch tickers w.source_state).0 ≡ ok prices)
                  × (w'.service.stats.upstream_calls ≡ w.service.stats.upstream_calls + 1)
                  × (w'.service.last_upstream_fetch ≡ env.monotonic)
                ⊎ ((prices ≡ w.service.upstream_prices)
                    × (w'.service.stats.upstream_errors ≡ w.service.stats.upstream_errors + 1)
                    × (w'.service.last_upstream_fetch ≡ w.service.last_upstream_fetch))))
  unfolding current_prices
  current_prices_calls tickers prices w' h = ground arith
