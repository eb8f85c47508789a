-- ===== src/Cache/Guard.antt =====
-- The guard on `effective_at`, for one write and for a pipeline of them.
use mathlib.Core.Path.{subst}
use ticker_watch_case_study.Base.{
  ℕ, suc, ◌+◌, ◌-◌, inl, inr, ◌≤◌, ◌<◌, ◌≡◌, refl, ap, ◌∙◌, false, ◌&&◌, Option, none, some, List,
  [], ◌∷◌, arith, ltb, leb, Bool-cases, length, count_if, count_if-le-length, take, All, take-All,
  ◌==◌, if◌then◌else◌,
}
use ticker_watch_case_study.Base.Dict.{lookup-insert}
use ticker_watch_case_study.Base.Text.{Text, text_key, text_lt}
use ticker_watch_case_study.Base.Result.{ok}
use ticker_watch_case_study.Time.{Instant, to_iso}
use ticker_watch_case_study.Time.Order.{InRange, text_lt-to_iso}
use ticker_watch_case_study.Cache.{
  Cached, document, malformed, Redis, Entry, Payload, Link, up, cut, dumps, price_key, live, get,
  is_newer, cas, pipeline, set_prices_if_newer,
}

-- What a key carries after an offer: the later of the two, the offered one if they are equal.
unfoldable pub offer : Option Text → Text → Option Text
offer none s = some s
offer (some e) s = if text_lt s e then some e else some s

module _ {F : Type 0} where
  -- the stamp that a key carries
  abbrev stamp_of : Option (Cached F) → Option Text
  stamp_of none = none
  stamp_of (some malformed) = none
  stamp_of (some (document d)) = d.effective_at

  unfoldable pub stamp_at : ℕ → Text → Redis F → Option Text
  stamp_at clock k r = stamp_of (get clock k r)

  pub get-cas :
      (clock ttl : ℕ) (key k : Text) (value : Cached F) (stamp : Text) (r : Redis F)
      → 0 < ttl
      → get clock k (cas clock key value stamp ttl r).1
        ≡ (if (cas clock key value stamp ttl r).0 && (key == k) then some value else get clock k r)
  unfolding cas get live
  get-cas clock ttl key k value stamp r h =
      ground (arith, lookup-insert key k (record { value = value; expires = clock + ttl }) r)

  is_newer-stamp :
      (o : Option (Cached F)) (stamp : Text)
      → is_newer o stamp ≡ (elim (stamp_of o) [ none ↦ false | some e ↦ text_lt stamp e ])
  unfolding is_newer
  is_newer-stamp none stamp = refl
  is_newer-stamp (some malformed) stamp = refl
  is_newer-stamp (some (document d)) stamp = refl

  -- Over a live cached price stamped `to_iso a`, a write stamped `to_iso b` is accepted exactly when
  -- `b` is not before `a`, for instants of the years that a datetime has.
  pub cas-accepts :
      (clock ttl : ℕ) (key : Text) (value : Cached F) (a b : Instant) (r : Redis F)
      → InRange a
      → InRange b
      → stamp_at clock key r ≡ some (to_iso a)
      → (cas clock key value (to_iso b) ttl r).0 ≡ leb a b
  unfolding cas stamp_at
  cas-accepts clock ttl key value a b r ra rb h =
      rw (is_newer-stamp (get clock key r) (to_iso b), h) (ground (arith, text_lt-to_iso b a rb ra))

  unfoldable pub offers : Text → List (Entry F) → Option Text → Option Text
  unfolding offer
  offers k [] o = o
  offers k (e ∷ entries) o =
      offers k entries (if price_key e.ticker == k then offer o e.effective_at_iso else o)

  -- the caller passes the payload's own stamp
  abbrev pub IsStamped : Entry F → Type 0
  IsStamped e = e.payload.effective_at ≡ e.effective_at_iso

  stamp_at-cas :
      (clock ttl : ℕ) (key k : Text) (p : Payload F) (r : Redis F)
      → 0 < ttl
      → stamp_at clock k (cas clock key (dumps p) p.effective_at ttl r).1
        ≡ (if key == k then offer (stamp_at clock k r) p.effective_at else stamp_at clock k r)
  unfolding stamp_at cas offer dumps
  stamp_at-cas clock ttl key k p r h = ground (
    arith,
    get-cas clock ttl key k (dumps p) p.effective_at r h,
    is_newer-stamp (get clock key r) p.effective_at,
    text_key.test_iff key k,
  )

  -- The pipeline refines the map that keeps, for each key, the latest stamp ever offered.
  stamp_at-pipeline :
      (clock ttl : ℕ) (k : Text) (entries : List (Entry F)) (r : Redis F)
      → 0 < ttl
      → All IsStamped entries
      → stamp_at clock k (pipeline clock ttl entries r).1 ≡ offers k entries (stamp_at clock k r)
  unfolding pipeline offers
  stamp_at-pipeline clock ttl k [] r h st = refl
  stamp_at-pipeline clock ttl k (e ∷ entries) r h st =
      let r' = (cas clock (price_key e.ticker) (dumps e.payload) e.effective_at_iso ttl r).1 in
      stamp_at-pipeline clock ttl k entries r' h st.1
      ∙ ap (offers k entries) (
          subst
            (λ (x : Text).
              stamp_at clock k (cas clock (price_key e.ticker) (dumps e.payload) x ttl r).1 ≡ (
                if price_key e.ticker == k
                then offer (stamp_at clock k r) x
                else stamp_at clock k r))
            st.0 (stamp_at-cas clock ttl (price_key e.ticker) k e.payload r h))

  length-pipeline :
      (clock ttl : ℕ) (entries : List (Entry F)) (r : Redis F)
      → length (pipeline clock ttl entries r).0 ≡ length entries
  unfolding pipeline
  length-pipeline clock ttl [] r = refl
  length-pipeline clock ttl (e ∷ entries) r =
      let r' = (cas clock (price_key e.ticker) (dumps e.payload) e.effective_at_iso ttl r).1 in
      ap suc (length-pipeline clock ttl entries r')

  -- (written, rejected) counts every entry exactly once when the connection holds.
  pub set_prices_if_newer_counts :
      (clock ttl : ℕ) (entries : List (Entry F)) (r : Redis F)
      → (w : ℕ) × (x : ℕ) × ((set_prices_if_newer up clock entries ttl r).0 ≡ ok (w, x))
        × (w + x ≡ length entries)
  unfolding set_prices_if_newer
  set_prices_if_newer_counts clock ttl [] r = (0, 0, refl, omega arith)
  set_prices_if_newer_counts clock ttl (e ∷ entries) r =
      let results = (pipeline clock ttl (e ∷ entries) r).0 in
      let written = count_if (λ b. b) results in
      (
        written,
        length results - written,
        refl,
        omega
            (arith, count_if-le-length (λ b. b) results, length-pipeline clock ttl (e ∷ entries) r),
      )

  -- an entry that the price service builds: stamped by `to_iso` of an instant, twice
  pub record IsTimed (e : Entry F) : Type 0 where
    pub at : Instant
    pub in_range : InRange at
    pub stamped : e.effective_at_iso ≡ to_iso at
    pub same : IsStamped e

  offers_later :
      (k : Text) (entries : List (Entry F)) (a : Instant)
      → InRange a
      → All IsTimed entries
      → (b : Instant) × (offers k entries (some (to_iso a)) ≡ some (to_iso b)) × (a ≤ b)
  unfolding offers
  offers_later k [] a ra t = (a, refl, omega arith)
  offers_later k (e ∷ entries) a ra (t, ts) = elim (Bool-cases (price_key e.ticker == k)) [
    | inl hit ↦ elim (Bool-cases (ltb t.at a)) [
      | inl older ↦
          rw (hit, t.stamped, text_lt-to_iso t.at a t.in_range ra, older)
            (offers_later k entries a ra ts)
      | inr newer ↦
          let (b, eq, le) = offers_later k entries t.at t.in_range ts in
          (b, rw (hit, t.stamped, text_lt-to_iso t.at a t.in_range ra, newer) eq, ground arith)
    ]
    | inr miss ↦ rw miss (offers_later k entries a ra ts)
  ]

  timed-IsStamped : (xs : List (Entry F)) → All IsTimed xs → All IsStamped xs
  timed-IsStamped [] h = tt
  timed-IsStamped (x ∷ xs) h = (h.0.same, timed-IsStamped xs h.1)

  module _ (clock ttl : ℕ) (k : Text) (r : Redis F) (a : Instant) (positive : 0 < ttl)
      (ra : InRange a) (cached : stamp_at clock k r ≡ some (to_iso a)) where
    pipeline_later :
        (entries : List (Entry F))
        → All IsTimed entries
        → (b : Instant) × (stamp_at clock k (pipeline clock ttl entries r).1 ≡ some (to_iso b))
          × (a ≤ b)
    pipeline_later entries t =
        rw (stamp_at-pipeline clock ttl k entries r positive (timed-IsStamped entries t), cached)
          (offers_later k entries a ra t)

    -- Guarded writes never replace a cached price by an older one, wherever the connection fails, if
    -- each entry carries, as its argument and in its payload, the text that `to_iso` makes of one
    -- instant within the calendar, and the lifetime is positive: a live key whose stamp is that of an
    -- instant `a` within the calendar is still live, with the stamp of an instant not before `a`.
    pub set_prices_if_newer_later :
        (link : Link) (entries : List (Entry F))
        → All IsTimed entries
        → (b : Instant) × (stamp_at clock k (set_prices_if_newer link clock entries ttl r).1
            ≡ some (to_iso b))
          × (a ≤ b)
    unfolding set_prices_if_newer
    set_prices_if_newer_later link [] t = (a, cached, omega arith)
    set_prices_if_newer_later up (e ∷ entries) t = pipeline_later (e ∷ entries) t
    set_prices_if_newer_later (cut n error) (e ∷ entries) t =
        pipeline_later (take n (e ∷ entries)) (take-All IsTimed n (e ∷ entries) t)
