-- ===== src/Sources/Quotes.antt =====
-- A fetch of the simulator gives quotes: one price for each ticker, and only of tickers that it was
-- asked for.
use ticker_watch_case_study.Base.{
  ℕ, true, ◌≡◌, Distinct, some, List, [], ◌∷◌, All, arith, contains, ◌==◌, Bool-cases, Option-cases,
  inl, inr,
}
use ticker_watch_case_study.Base.Dict.{Dict, lookup, insert, insert-Distinct, keys}
use ticker_watch_case_study.Base.Dict.Members.{contains-keys}
use ticker_watch_case_study.Base.Text.{Text, text_key}
use ticker_watch_case_study.Sources.{Numbers, Walk, walk_one, walk}

module _ {F : Type 0} (P : Text → Type 0) where
  insert-All :
      (t : Text) (p : F) (d : Dict Text F)
      → P t
      → All (λ e. P e.0) d
      → All (λ e. P e.0) (insert t p d)
  unfolding insert
  insert-All t p [] h hs = (h, tt)
  insert-All t p ((u, q) ∷ d) h hs = elim (Bool-cases (u == t)) [
    | inl same ↦ rw same (hs.0, hs.1)
    | inr other ↦ rw other (hs.0, insert-All t p d h hs.1)
  ]

module _ {F G : Type 0} (n : Numbers F G) (volatility change_ratio : F) where
  walk-Distinct :
      (tickers : List Text) (out : Dict Text F) (s : Walk F G)
      → Distinct (keys out)
      → Distinct (keys (walk n volatility change_ratio tickers out s).0)
  unfolding walk
  walk-Distinct [] out s d = d
  walk-Distinct (t ∷ tickers) out s d = elim (Option-cases (lookup t s.last)) [
    | inl unknown ↦ rw (unknown, walk) (walk-Distinct tickers out s d)
    | inr (price, known) ↦
        let (p', s') = walk_one n volatility change_ratio t price s in
        rw (known, walk) (walk-Distinct tickers (insert t p' out) s' (insert-Distinct t p' out d))
  ]

  walk-All :
      (P : Text → Type 0) (tickers : List Text) (out : Dict Text F) (s : Walk F G)
      → All P tickers
      → All (λ e. P e.0) out
      → All (λ e. P e.0) (walk n volatility change_ratio tickers out s).0
  unfolding walk
  walk-All P [] out s h k = k
  walk-All P (t ∷ tickers) out s h k = elim (Option-cases (lookup t s.last)) [
    | inl unknown ↦ rw (unknown, walk) (walk-All P tickers out s h.1 k)
    | inr (price, known) ↦
        let (p', s') = walk_one n volatility change_ratio t price s in
        rw (known, walk) (walk-All P tickers (insert t p' out) s' h.1 (insert-All P t p' out h.0 k))
  ]

  listed_keys :
      (ids : Dict Text ℕ) (tickers : List Text)
      → ((t : Text) → contains t tickers ≡ true → contains t (keys ids) ≡ true)
      → All (λ t. (id : ℕ) × (lookup t ids ≡ some id)) tickers
  unfolding contains
  listed_keys ids [] sub = tt
  listed_keys ids (t ∷ tickers) sub = (
    (elim (Option-cases (lookup t ids)) [
      | inl absent ↦
          let there = sub t (ground (arith, text_key.test_iff t t)) in
          absurd (ground (arith, there, absent, contains-keys t ids))
      | inr (id, found) ↦ (id, found)
    ]),
    listed_keys ids tickers (λ u h. sub u (ground (arith, h))),
  )

  pub walk_quotes :
      (ids : Dict Text ℕ) (s : Walk F G)
      → Distinct (keys (walk n volatility change_ratio (keys ids) [] s).0)
        × All
            (λ e. (id : ℕ) × (lookup e.0 ids ≡ some id))
            (walk n volatility change_ratio (keys ids) [] s).0
  walk_quotes ids s = (
    walk-Distinct (keys ids) [] s tt,
    walk-All (λ t. (id : ℕ) × (lookup t ids ≡ some id)) (keys ids) [] s
        (listed_keys ids (keys ids) (λ t h. h)) tt,
  )
