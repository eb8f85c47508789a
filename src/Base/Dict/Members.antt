-- ===== src/Base/Dict/Members.antt =====
-- Entries of a dict: its updates, selections and what holds of all of them.
use ticker_watch_case_study.Base.Lists.{All, select}
use mathlib.Core.Logic.{inl, inr}
use ticker_watch_case_study.Base.Tests.{Bool-cases, if◌then◌else◌}
use ticker_watch_case_study.Base.Equality.{Hashable, ◌==◌, contains, Distinct}
use mathlib.Core.Bool.{Bool, true, false}
use mathlib.Core.Path.{◌≡◌, refl, sym, subst}
use mathlib.Core.Option.{none, some}
use mathlib.Core.List.{[], ◌∷◌}
use native.Mathlib.Omega.{arith}
use ticker_watch_case_study.Base.Dict.{
  Dict, keys, lookup, insert, lookup-insert, lookup_absent, update,
}

module _ {ℓ κ} {K : Type ℓ} {V : Type κ} where
  module _ ⦃e : Hashable K⦄ where
    -- a later pair with the same key would win: there is none
    pub lookup-update :
        (k : K) (other m : Dict K V)
        → Distinct (keys other)
        → lookup k (update other m)
          ≡ (elim (lookup k other) [ none ↦ lookup k m | some v ↦ some v ])
    unfolding lookup update
    lookup-update k [] m h = refl
    lookup-update k ((j, v) ∷ other) m h = ground (
      arith,
      lookup-update k other (insert j v m) h.1,
      lookup-insert j k v m,
      lookup_absent j other h.0,
      e.test_iff j k,
    )

    -- `{k: v for k, v in m.items() if test(k, v)}`
    pub lookup-select :
        (k : K) (test : K × V → Bool) (m : Dict K V)
        → Distinct (keys m)
        → lookup k (select test m)
          ≡ (elim (lookup k m) [ none ↦ none | some v ↦ if test (k, v) then some v else none ])
    unfolding lookup select
    lookup-select k test [] h = refl
    lookup-select k test ((j, v) ∷ m) h = elim (Bool-cases (j == k)) [
      | inr other ↦ ground (arith, other, lookup-select k test m h.1)
      | inl same ↦
          let j_k : j ≡ k = (e.test_iff j k).0 same in
          let gone : lookup k m ≡ none = lookup_absent k m (rw (sym j_k) h.0) in
          rw j_k (ground (arith, lookup-select k test m h.1, gone, e.test_iff k k))
    ]

    pub contains-keys :
        (k : K) (m : Dict K V)
        → contains k (keys m) ≡ (elim (lookup k m) [ none ↦ false | some v ↦ true ])
    unfolding contains lookup
    contains-keys k [] = refl
    contains-keys k ((j, v) ∷ m) = ground (arith, contains-keys k m)

    select-new :
        (k : K) (test : K × V → Bool) (m : Dict K V)
        → contains k (keys m) ≡ false
        → contains k (keys (select test m)) ≡ false
    unfolding contains select
    select-new k test [] h = refl
    select-new k test ((j, v) ∷ m) h = ground (arith, select-new k test m)

    pub select-keys_Distinct :
        (test : K × V → Bool) (m : Dict K V) → Distinct (keys m) → Distinct (keys (select test m))
    unfolding select
    select-keys_Distinct test [] h = tt
    select-keys_Distinct test ((j, v) ∷ m) h = elim (Bool-cases (test (j, v))) [
      | inl kept ↦ rw kept (select-new j test m h.0, select-keys_Distinct test m h.1)
      | inr dropped ↦ rw dropped (select-keys_Distinct test m h.1)
    ]

    pub lookup-All {μ} :
        (P : K × V → Type μ) (k : K) (v : V) (m : Dict K V)
        → lookup k m ≡ some v
        → All P m
        → P (k, v)
    unfolding lookup
    lookup-All P k v [] h all = cc
    lookup-All P k v ((j, w) ∷ m) h all = elim (Bool-cases (j == k)) [
      | inr other ↦ lookup-All P k v m (ground (arith, h, other)) all.1
      | inl same ↦
          let j_k : j ≡ k = (e.test_iff j k).0 same in
          let w_v : w ≡ v = ground (arith, h, same) in
          subst (λ (x : K × V). P x) (λ i. (j_k i, w_v i)) all.0
    ]

    -- an entry in the tail is found behind a new key
    found_behind :
        (x : K × V) (m rows : Dict K V)
        → contains x.0 (keys rows) ≡ false
        → All (λ r. lookup r.0 m ≡ some r.1) rows
        → All (λ r. lookup r.0 (x ∷ m) ≡ some r.1) rows
    unfolding lookup contains
    found_behind x m [] h hs = tt
    found_behind x m (r ∷ rows) h hs = (
      ground (arith, h, hs.0, e.test_iff x.0 r.0, e.test_iff r.0 x.0),
      found_behind x m rows (ground (arith, h)) hs.1,
    )

    -- each entry is the one that its key finds
    pub all_found : (m : Dict K V) → Distinct (keys m) → All (λ r. lookup r.0 m ≡ some r.1) m
    unfolding lookup
    all_found [] d = tt
    all_found ((k, v) ∷ m) d =
        (ground (arith, e.test_iff k k), found_behind (k, v) m m d.0 (all_found m d.1))
