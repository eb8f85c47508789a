-- ===== src/Service/Writers/Proposed.antt =====
-- The rows of one upsert against the tickers that changed: one row for each, for its own security.
use ticker_watch_case_study.Base.{
  ℕ, ◌≡◌, refl, sym, ◌∙◌, false, Option, none, some, List, [], ◌∷◌, All, arith, Distinct, contains,
  nat_key, ◌==◌, Bool-cases, Option-cases, inl, inr,
}
use ticker_watch_case_study.Base.Dict.{Dict, keys, lookup, lookup_absent}
use ticker_watch_case_study.Base.Text.{Text, text_key}
use ticker_watch_case_study.Base.Result.{ok, Result-cases}
use ticker_watch_case_study.Time.{Instant}
use ticker_watch_case_study.Securities.{Securities, SecurityRow}
use ticker_watch_case_study.Prices.{NewPrice, PriceRow}
use ticker_watch_case_study.Prices.Upsert.{newest, newest_of, ids, IsKnown}
use ticker_watch_case_study.Service.{Service}
use ticker_watch_case_study.Service.Writers.{rows}

-- different tickers have different ids
abbrev pub AreApart : Dict Text ℕ → Type 0
AreApart ids = (t u : Text) (id : ℕ) → lookup t ids ≡ some id → lookup u ids ≡ some id → t ≡ u

-- every id is that of a security
abbrev pub AreKnown : Dict Text ℕ → Securities → Type 0
AreKnown ids securities =
    (t : Text) (id : ℕ)
    → lookup t ids ≡ some id
    → (s : SecurityRow) × (lookup id securities ≡ some s)

module _ {F : Type 0} (name : Text) (self : Service F) where
  abbrev pub proposal : ℕ → F → Instant → NewPrice F
  proposal id price at = record {
    security_id = id;
    price = price;
    effective_at = at;
    source = name;
  }

  -- what a success says of the first ticker
  rows-cons :
      (t : Text) (price : F) (changed : Dict Text F) (rs : List (NewPrice F))
      → rows name self ((t, price) ∷ changed) ≡ ok rs
      → (id : ℕ) × (at : Instant) × (rest : List (NewPrice F)) × (lookup t self.ticker_to_id
          ≡ some id)
        × (lookup t self.effective_at ≡ some at)
        × (rows name self changed ≡ ok rest)
        × (rs ≡ proposal id price at ∷ rest)
  unfolding rows
  rows-cons t price changed rs h = elim (Option-cases (lookup t self.ticker_to_id)) [
    | inl absent ↦ absurd (ground (arith, h, absent))
    | inr (id, a) ↦ elim (Option-cases (lookup t self.effective_at)) [
      | inl absent ↦ absurd (ground (arith, h, a, absent))
      | inr (at, b) ↦ elim (Result-cases (rows name self changed)) [
        | inr (e, failed) ↦ absurd (ground (arith, h, a, b, failed))
        | inl (rest, c) ↦ (id, at, rest, a, b, c, ground (arith, h, a, b, c))
      ]
    ]
  ]

  module _ (securities : Securities) (now : Instant) (apart : AreApart self.ticker_to_id) where
    rows-new :
        (t : Text) (id : ℕ) (changed : Dict Text F) (rs : List (NewPrice F))
        → rows name self changed ≡ ok rs
        → lookup t self.ticker_to_id ≡ some id
        → contains t (keys changed) ≡ false
        → contains id (ids securities now rs) ≡ false
    unfolding contains rows
    rows-new t id [] rs h here new = ground (arith, h)
    rows-new t id ((u, price) ∷ changed) rs h here new =
        let (uid, at, rest, a, b, c, e) = rows-cons u price changed rs h in
        rw e (
          ground (
            arith,
            rows-new t id changed rest c here,
            apart u t id,
            a,
            here,
            new,
            nat_key.test_iff uid id,
            text_key.test_iff u t,
          ))

    pub rows-Distinct :
        (changed : Dict Text F) (rs : List (NewPrice F))
        → rows name self changed ≡ ok rs
        → Distinct (keys changed)
        → Distinct (ids securities now rs)
    unfolding rows
    rows-Distinct [] rs h d = let e : rs ≡ [] = ground (arith, h) in rw e tt
    rows-Distinct ((u, price) ∷ changed) rs h d =
        let (uid, at, rest, a, b, c, e) = rows-cons u price changed rs h in
        rw e (rows-new u uid changed rest c a d.0, rows-Distinct changed rest c d.1)

    -- the row of the security comes first
    newest_of-first :
        (id : ℕ) (price : F) (at : Instant) (rest : List (NewPrice F)) (o : Option (PriceRow F))
        → newest_of securities now id (proposal id price at ∷ rest) o
          ≡ newest_of securities now id rest (some (newest securities now (proposal id price at) o))
    unfolding newest_of
    newest_of-first id price at rest o = ground (arith, nat_key.test_iff id id)

    newest_of-skip :
        (uid id : ℕ) (price : F) (at : Instant) (rest : List (NewPrice F)) (o : Option (PriceRow F))
        → (uid == id) ≡ false
        → newest_of securities now id (proposal uid price at ∷ rest) o
          ≡ newest_of securities now id rest o
    unfolding newest_of
    newest_of-skip uid id price at rest o h = ground (arith, h)

    -- What the rows make of the security of `t`: the newest of what it has and the row for `t`, if `t`
    -- is among the changed tickers.
    pub newest_of-rows :
        (t : Text) (id : ℕ) (at : Instant) (changed : Dict Text F) (rs : List (NewPrice F))
        (o : Option (PriceRow F))
        → rows name self changed ≡ ok rs
        → lookup t self.ticker_to_id ≡ some id
        → lookup t self.effective_at ≡ some at
        → Distinct (keys changed)
        → newest_of securities now id rs o ≡ (elim (lookup t changed) [
          | none ↦ o
          | some price ↦ some (newest securities now (proposal id price at) o)
        ])
    unfolding newest_of lookup rows
    newest_of-rows t id at [] rs o h here stamp d = let e : rs ≡ [] = ground (arith, h) in rw e refl
    newest_of-rows t id at ((u, price) ∷ changed) rs o h here stamp d =
        let (uid, uat, rest, a, b, c, e) = rows-cons u price changed rs h in
        elim (Bool-cases (u == t)) [
          | inr other ↦
              let differ : (uid == id) ≡ false = ground (
                arith,
                apart u t id,
                a,
                here,
                other,
                nat_key.test_iff uid id,
                text_key.test_iff u t,
              ) in
              rw (e, other)
                (newest_of-skip uid id price uat rest o differ
                  ∙ newest_of-rows t id at changed rest o c here stamp d.1)
          | inl same ↦
              let u_t : u ≡ t = (text_key.test_iff u t).0 same in
              let uid_id : uid ≡ id = ground (arith, u_t, a, here) in
              let uat_at : uat ≡ at = ground (arith, u_t, b, stamp) in
              let absent : lookup t changed ≡ none = lookup_absent t changed (rw (sym u_t) d.0) in
              let new = some (newest securities now (proposal id price at) o) in
              rw (e, same, uid_id, uat_at)
                (newest_of-first id price at rest o
                  ∙ newest_of-rows t id at changed rest new c here stamp d.1
                  ∙ rw absent refl)
        ]

    -- the row of any other ticker's security stays
    pub newest_of-others :
        (t : Text) (id : ℕ) (changed : Dict Text F) (rs : List (NewPrice F))
        (o : Option (PriceRow F))
        → rows name self changed ≡ ok rs
        → lookup t self.ticker_to_id ≡ some id
        → contains t (keys changed) ≡ false
        → newest_of securities now id rs o ≡ o
    unfolding newest_of contains rows
    newest_of-others t id [] rs o h here new = let e : rs ≡ [] = ground (arith, h) in rw e refl
    newest_of-others t id ((u, price) ∷ changed) rs o h here new =
        let (uid, uat, rest, a, b, c, e) = rows-cons u price changed rs h in
        let differ : (uid == id) ≡ false =
          ground
            (arith, apart u t id, a, here, new, nat_key.test_iff uid id, text_key.test_iff u t) in
        rw e (
          newest_of-skip uid id price uat rest o differ
          ∙ newest_of-others t id changed rest o c here (ground (arith, new)))

    pub rows-IsKnown :
        (changed : Dict Text F) (rs : List (NewPrice F))
        → AreKnown self.ticker_to_id securities
        → rows name self changed ≡ ok rs
        → All (IsKnown securities now) rs
    unfolding rows
    rows-IsKnown [] rs known h = let e : rs ≡ [] = ground (arith, h) in rw e tt
    rows-IsKnown ((u, price) ∷ changed) rs known h =
        let (uid, at, rest, a, b, c, e) = rows-cons u price changed rs h in
        rw e (known u uid a, rows-IsKnown changed rest known c)
