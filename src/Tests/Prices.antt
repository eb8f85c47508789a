-- ===== src/Tests/Prices.antt =====
-- The snapshot, the upsert and the reconciliation on small tables.
use ticker_watch_case_study.Base.{
  ℕ, ◌≡◌, inl, inr, some, list_beq, refl, false, none, List, [], ◌∷◌, All, contains, nat_key,
}
use ticker_watch_case_study.Base.Dict.{lookup, insert}
use ticker_watch_case_study.Base.Text.{Text, text, text_key}
use ticker_watch_case_study.Base.Result.{redis_error, postgres_error, ok, done, lost}
use ticker_watch_case_study.Settings.{simulated, redis, postgres, source_text}
use ticker_watch_case_study.Cache.{up, cut, Document, document, Redis, get, price_key}
use ticker_watch_case_study.Securities.{SecurityRow, Securities}
use ticker_watch_case_study.Prices.{PriceRow, LatestPrices, NewPrice, upsert_many}
use ticker_watch_case_study.Prices.Upsert.{newest_of, upsert_many_lem}
use ticker_watch_case_study.Prices.Snapshot
use ticker_watch_case_study.Prices.Snapshot.{
  PriceSnapshot, Price, Reader, first_step, new_reader, read,
}
use ticker_watch_case_study.Prices.Snapshot.Fallback.{prefer, through_postgres, read_down}
use ticker_watch_case_study.Prices.Snapshot.Hits.{IsReadable}
use ticker_watch_case_study.Prices.Snapshot.Cached.{cached_by, read_cached}
use ticker_watch_case_study.Prices.Reconcile.{reconcile_source}
use ticker_watch_case_study.Prices.Reconcile.Sources.{
  IsFrom, HasQuote, reconcile_source-IsFrom, reconcile_source-HasQuote,
}

abbrev securities : Securities
securities =
    (
      1,
      record { ticker = text "NVDA"; name = text "Nvidia"; exchange = none; is_synthetic = false },
    )
    ∷ []

abbrev row : PriceRow ℕ
row = record { price = 170; effective_at = 5; source = text "api"; updated_at = 6 }

abbrev table : LatestPrices ℕ
table = (1, row) ∷ []

abbrev proposed : List (NewPrice ℕ)
proposed = record { security_id = 1; price = 171; effective_at = 9; source = text "api" } ∷ []

upsert_many_lem_example :
    (t : LatestPrices ℕ) × (upsert_many securities 10 proposed table ≡ ok t)
    × ((id : ℕ) → lookup id t ≡ newest_of securities 10 id proposed (lookup id table))
unfolding lookup contains
upsert_many_lem_example =
    upsert_many_lem securities 10 proposed table ((securities_row, refl), tt) (refl, tt)
  where
    securities_row : SecurityRow
    securities_row = record {
      ticker = text "NVDA";
      name = text "Nvidia";
      exchange = none;
      is_synthetic = false;
    }

abbrev written : LatestPrices ℕ
written = (1, record { price = 171; effective_at = 9; source = text "api"; updated_at = 10 }) ∷ []

upsert_run : upsert_many securities 10 proposed table ≡ ok written
unfolding upsert_many lookup contains insert
upsert_run = refl

read_down_example :
    read redis (cut 0 redis_error) 10 [] done table ((1, text "NVDA") ∷ [])
    ≡ through_postgres (read postgres up 10 [] done table ((1, text "NVDA") ∷ []))
unfolding first_step
read_down_example =
    read_down 0 10 10 redis_error up [] [] done table (1, text "NVDA") []
      (unfold Snapshot.is_outage in refl)

-- Redis has a later price of NVDA than the table, and nothing of F
abbrev nvda_document : Document ℕ
nvda_document = record {
  security_id = some 1;
  price = some 171;
  effective_at = some (text "later");
  source = some (text "api");
}

abbrev cache : Redis ℕ
cache = (text "price:NVDA", record { value = document nvda_document; expires = 60 }) ∷ []

abbrev asked : List (ℕ × Text)
asked = (1, text "NVDA") ∷ (2, text "F") ∷ []

asked-IsReadable : All (IsReadable 10 cache) asked
unfolding get lookup price_key list_beq
asked-IsReadable = (inr (nvda_document, 171, text "later", refl, refl, refl), (inl refl, tt))

cached_nvda :
    cached_by 10 cache redis (1, text "NVDA")
    ≡ some
        (record { security_id = 1; price = 171; effective_at = text "later"; source = text "api" })
unfolding get lookup price_key list_beq
cached_nvda = refl

read_cached_example :
    (s : PriceSnapshot ℕ) × (read redis up 10 cache done table asked ≡ ok s)
    × (lookup 1 s.prices ≡ prefer (cached_by 10 cache redis (1, text "NVDA")) (lookup 1 table) 1)
unfolding contains lookup list_beq
read_cached_example =
    read_cached 10 cache redis table asked 1 (text "NVDA") (refl, tt) (refl, (refl, tt))
      (refl, (refl, tt)) asked-IsReadable refl

reconcile_source-IsFrom_example :
    All (IsFrom (source_text simulated)) (reconcile_source simulated done done 20 table).1
unfolding source_text
reconcile_source-IsFrom_example = reconcile_source-IsFrom simulated 20 table (inl refl, tt)

reconcile_source-HasQuote_example :
    HasQuote 1 row (reconcile_source simulated done (lost postgres_error) 20 table).1
unfolding lookup
reconcile_source-HasQuote_example =
    reconcile_source-HasQuote simulated done (lost postgres_error) 20 1 row table refl refl
