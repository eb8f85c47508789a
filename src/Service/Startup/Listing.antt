-- ===== src/Service/Startup/Listing.antt =====
-- What the catalog step leaves: tickers with the ids of their securities, and for the vendor none of
-- those that only fill the table up.
use mathlib.Core.Path.{subst, sym}
use ticker_watch_case_study.Base.{
  ℕ, ◌≡◌, refl, Bool, true, not, ◌||◌, some, List, [], ◌∷◌, arith, map, All, Distinct, select,
  nat_key, ◌==◌, Bool-cases, inl, inr,
}
use ticker_watch_case_study.Base.Dict.{Dict, keys, lookup, insert, dict_of}
use ticker_watch_case_study.Base.Sort.{sort_by, All-sort_by}
use ticker_watch_case_study.Base.Dict.Members.{all_found}
use ticker_watch_case_study.Base.Text.{Text, text_key}
use ticker_watch_case_study.Base.Result.{ok, Result-cases}
use ticker_watch_case_study.Settings.{Settings, SourceName}
use ticker_watch_case_study.Securities.{
  SecurityRow, Securities, Locale, by_ticker_order, all_tickers, upsert_many,
}
use ticker_watch_case_study.Securities.Catalog.{IsTable, upsert_many-IsTable}
use ticker_watch_case_study.Service.{World}
use ticker_watch_case_study.Service.Startup.{
  StartEnv, vendor_rows, or_seed, include_synthetic, ids_of, load_catalog, sync_catalog,
}

-- The id is that of a security with this ticker, one that the source may be asked for.
abbrev pub IsListed : SourceName → Securities → Text × ℕ → Type 0
IsListed source securities e =
    (row : SecurityRow) × (lookup e.1 securities ≡ some row)
    × (row.ticker ≡ e.0)
    × ((include_synthetic source || not row.is_synthetic) ≡ true)

abbrev IsRow : Securities → ℕ × SecurityRow → Type 0
IsRow securities s = lookup s.0 securities ≡ some s.1

All-select :
    (P : ℕ × SecurityRow → Type 0) (test : ℕ × SecurityRow → Bool) (rows : Securities)
    → All P rows
    → All (λ s. P s × (test s ≡ true)) (select test rows)
unfolding select
All-select P test [] h = tt
All-select P test (s ∷ rows) h = elim (Bool-cases (test s)) [
  | inl kept ↦ rw kept ((h.0, kept), All-select P test rows h.1)
  | inr dropped ↦ rw dropped (All-select P test rows h.1)
]

All-insert :
    (P : Text × ℕ → Type 0) (t : Text) (i : ℕ) (d : Dict Text ℕ)
    → P (t, i)
    → All P d
    → All P (insert t i d)
unfolding insert
All-insert P t i [] h hs = (h, tt)
All-insert P t i ((u, j) ∷ d) h hs = elim (Bool-cases (u == t)) [
  | inl same ↦
      rw same (subst (λ (x : Text). P (x, i)) (sym ((text_key.test_iff u t).0 same)) h, hs.1)
  | inr other ↦ rw other (hs.0, All-insert P t i d h hs.1)
]

All-ids :
    (P : Text × ℕ → Type 0) (rows : Securities) (d : Dict Text ℕ)
    → All (λ s. P (s.1.ticker, s.0)) rows
    → All P d
    → All P (dict_of (map (λ s. (s.1.ticker, s.0)) rows) d)
unfolding dict_of
All-ids P [] d h hd = hd
All-ids P ((i, r) ∷ rows) d h hd =
    All-ids P rows (insert r.ticker i d) h.1 (All-insert P r.ticker i d h.0 hd)

All-weaken-IsListed :
    (source : SourceName) (securities rows : Securities)
    → All
        (λ s. IsRow securities s × ((include_synthetic source || not s.1.is_synthetic) ≡ true))
        rows
    → All (λ s. IsListed source securities (s.1.ticker, s.0)) rows
All-weaken-IsListed source securities [] h = tt
All-weaken-IsListed source securities ((i, r) ∷ rows) h =
    ((r, h.0.0, refl, h.0.1), All-weaken-IsListed source securities rows h.1)

-- the tickers of a table whose ids differ
ids_of-IsListed :
    (locale : Locale) (source : SourceName) (securities : Securities)
    → Distinct (keys securities)
    → All
        (IsListed source securities)
        (ids_of (all_tickers locale (include_synthetic source) securities))
unfolding ids_of all_tickers
ids_of-IsListed locale source securities d =
    let kept = λ (s : ℕ × SecurityRow). include_synthetic source || not s.1.is_synthetic in
    let rows = select kept securities in
    All-ids (IsListed source securities) (sort_by (by_ticker_order locale) rows) []
      (All-sort_by (by_ticker_order locale) (λ s. IsListed source securities (s.1.ticker, s.0)) rows
        (All-weaken-IsListed source securities rows
          (All-select (IsRow securities) kept securities (all_found securities d))))
      tt

module _ {F S : Type 0} (locale : Locale) (settings : Settings) where
  load_catalog-IsListed :
      (env : StartEnv F) (found : List (Text × Text) × ℕ) (w : World F S)
      → IsTable env.next_id w.securities
      → All
          (IsListed settings.price_source (load_catalog locale settings env found w).1.securities)
          (load_catalog locale settings env found w).1.service.ticker_to_id
  unfolding load_catalog
  load_catalog-IsListed env (rows, calls) w h =
      let listing = or_seed env.seed_catalog rows in
      ids_of-IsListed locale settings.price_source (upsert_many env.next_id listing w.securities)
        (upsert_many-IsTable env.next_id listing w.securities h).ids

  -- When the catalog step succeeds, every ticker that will be priced has the id of a security with
  -- this ticker, and with the vendor as the source that security is not a synthetic one. Before the
  -- step, tickers and ids are unique and no id is past the sequence.
  pub sync_catalog-IsListed :
      (env : StartEnv F) (w : World F S)
      → IsTable env.next_id w.securities
      → (sync_catalog locale settings env w).0 ≡ ok tt
      → All
          (IsListed settings.price_source (sync_catalog locale settings env w).1.securities)
          (sync_catalog locale settings env w).1.service.ticker_to_id
  unfolding sync_catalog
  sync_catalog-IsListed env w table h =
      elim (Result-cases (vendor_rows settings.price_source env.catalog_reply)) [
        | inl (found, e) ↦ rw (sync_catalog, e) (load_catalog-IsListed env found w table)
        | inr (e, failed) ↦ let f = rw (sync_catalog, failed) at h in ground (arith, f)
      ]
