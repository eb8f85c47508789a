-- ===== src/Service/Writers/Cached.antt =====
-- What the cache writer puts into its entries.
use ticker_watch_case_study.Base.{
  ℕ, ◌≡◌, refl, some, List, [], ◌∷◌, All, arith, Option-cases, inl, inr,
}
use ticker_watch_case_study.Base.Dict.{Dict, lookup}
use ticker_watch_case_study.Base.Text.{Text, text_key}
use ticker_watch_case_study.Base.Result.{ok, Result-cases}
use ticker_watch_case_study.Time.{Instant, to_iso}
use ticker_watch_case_study.Cache.{Entry}
use ticker_watch_case_study.Service.{Service}
use ticker_watch_case_study.Service.Writers.{entries}

module _ {F : Type 0} (name : Text) (self : Service F) where
  -- the entry is that of a price with `P`, with what the service holds for its ticker
  abbrev pub IsEntry : (Text × F → Type 0) → Entry F → Type 0
  IsEntry P e =
      (at : Instant) × (id : ℕ) × (price : F) × (lookup e.ticker self.effective_at ≡ some at)
      × (lookup e.ticker self.ticker_to_id ≡ some id)
      × P (e.ticker, price)
      × (e.payload
          ≡ record { security_id = id; price = price; effective_at = to_iso at; source = name })

  pub entries-IsEntry :
      (P : Text × F → Type 0) (prices : Dict Text F) (es : List (Entry F))
      → All P prices
      → entries name self prices ≡ ok es
      → All (IsEntry P) es
  unfolding entries
  entries-IsEntry P [] es ps h = let e : es ≡ [] = ground (arith, h) in rw e tt
  entries-IsEntry P ((t, price) ∷ prices) es ps h =
      elim (Option-cases (lookup t self.effective_at)) [
        | inl absent ↦ absurd (ground (arith, h, absent))
        | inr (at, a) ↦ elim (Option-cases (lookup t self.ticker_to_id)) [
          | inl absent ↦ absurd (ground (arith, h, a, absent))
          | inr (id, b) ↦ elim (Result-cases (entries name self prices)) [
            | inr (x, failed) ↦ absurd (ground (arith, h, a, b, failed))
            | inl (rest, c) ↦
                let first : Entry F = record {
                  ticker = t;
                  payload = record {
                    security_id = id;
                    price = price;
                    effective_at = to_iso at;
                    source = name;
                  };
                  effective_at_iso = to_iso at;
                } in
                let e : es ≡ first ∷ rest = ground (arith, h, a, b, c) in
                rw e ((at, id, price, a, b, ps.0, refl), entries-IsEntry P prices rest ps.1 c)
          ]
        ]
      ]
