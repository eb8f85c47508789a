-- ===== src/Tests/Vendor.antt =====
-- The stand-in with three tickers, one of them without a price.
use ticker_watch_case_study.Base.{ℕ, ◌≡◌, refl, none, [], ◌∷◌, list_beq, contains}
use ticker_watch_case_study.Base.Dict.{Dict, lookup, has}
use ticker_watch_case_study.Base.Text.{Text, text, text_key, strip, lacks}
use ticker_watch_case_study.Base.Result.{http_error, ok, raised}
use ticker_watch_case_study.Sources.{walk, vendor_fetch}
use ticker_watch_case_study.Vendor.{VendorMock, http_exception, prices_route, require_key, wanted}
use ticker_watch_case_study.Vendor.Adapter.{IsName, ask, vendor_fetch-walk, vendor_fetch-rejected}
use ticker_watch_case_study.Tests.Service.{cents}

abbrev nvda : Text
nvda = text "NVDA"

abbrev atvi : Text
atvi = text "ATVI"

abbrev mock : VendorMock ℕ ℕ
mock = record {
  catalog = (nvda, text "Nvidia") ∷ (atvi, text "Activision") ∷ [];
  book = record { last = (nvda, 170) ∷ []; rng = 0 };
}

wanted_spaces : wanted (text " NVDA, ,ATVI ") ≡ nvda ∷ atvi ∷ []
unfolding wanted
wanted_spaces = refl

no_key : (prices_route cents 5 5 (text "k") none nvda mock).0 ≡ http_exception 403
unfolding prices_route require_key
no_key = refl

nvda-IsName : IsName nvda
unfolding strip lacks
nvda-IsName = record { no_comma = refl; head = _; tail = _; trimmed = refl; same = refl }

atvi-IsName : IsName atvi
unfolding strip lacks
atvi-IsName = record { no_comma = refl; head = _; tail = _; trimmed = refl; same = refl }

vendor_fetch-walk_example :
    (out : Dict Text ℕ) × ((vendor_fetch (ask cents 5 5 (text "k")) (nvda ∷ atvi ∷ []) mock).0
      ≡ ok out)
    × ((vendor_fetch (ask cents 5 5 (text "k")) (nvda ∷ atvi ∷ []) mock).1.book
        ≡ (walk cents 5 5 (nvda ∷ atvi ∷ []) [] mock.book).1)
    × ((u : Text) → lookup u out ≡ lookup u (walk cents 5 5 (nvda ∷ atvi ∷ []) [] mock.book).0)
unfolding has lookup list_beq
vendor_fetch-walk_example =
    vendor_fetch-walk cents 5 5 (text "k") nvda (atvi ∷ []) mock (nvda-IsName, (atvi-IsName, tt))
      (refl, (refl, tt))

vendor_fetch-rejected_example :
    vendor_fetch (ask cents 5 5 (text "k")) (atvi ∷ nvda ∷ []) (record mock { catalog = [] })
    ≡ (raised http_error, record mock { catalog = [] })
unfolding contains has lookup list_beq
vendor_fetch-rejected_example =
    vendor_fetch-rejected cents 5 5 (text "k") atvi (nvda ∷ []) nvda (record mock { catalog = [] })
      (atvi-IsName, (nvda-IsName, tt)) refl refl
