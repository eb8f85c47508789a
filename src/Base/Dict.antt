-- ===== src/Base/Dict.antt =====
-- Python's dict as an association list in insertion order.
pub mod Members
pub mod Build
use ticker_watch_case_study.Base.Lists.{All, select}
use mathlib.Core.Logic.{inl, inr}
use ticker_watch_case_study.Base.Tests.{Bool-cases, if◌then◌else◌}
use ticker_watch_case_study.Base.Equality.{Hashable, ◌==◌, contains, Distinct}
use mathlib.Core.Bool.{Bool, true, false, ◌||◌}
use mathlib.Core.Path.{◌≡◌, refl, sym, subst}
use mathlib.Core.Option.{Option, none, some}
use mathlib.Core.List.{List, [], ◌∷◌, map}
use native.Mathlib.Omega.{arith}

abbrev pub Dict {ℓ κ} : Type ℓ → Type κ → Type (ℓ ⊔ κ)
Dict K V = List (K × V)

module _ {ℓ κ} {K : Type ℓ} {V : Type κ} where
  abbrev pub keys : Dict K V → List K
  keys = map (λ e. e.0)

  module _ ⦃e : Hashable K⦄ where
    -- `d[key] = value`: a known key keeps its place, a new one goes last
    unfoldable pub insert : K → V → Dict K V → Dict K V
    insert key value [] = (key, value) ∷ []
    insert key value ((first, old) ∷ rest) =
        if first == key then (first, value) ∷ rest else (first, old) ∷ insert key value rest

    -- `d.get(key)`
    unfoldable pub lookup : K → Dict K V → Option V
    lookup key [] = none
    lookup key ((first, value) ∷ rest) = if first == key then some value else lookup key rest

    -- `d.setdefault(k, v)`
    unfoldable pub set_default : K → V → Dict K V → Dict K V
    set_default k v m = elim (lookup k m) [ none ↦ insert k v m | some w ↦ m ]

    -- `d.update(other)`
    unfoldable pub update : Dict K V → Dict K V → Dict K V
    update [] m = m
    update ((k, v) ∷ other) m = update other (insert k v m)

    pub lookup-insert :
        (key asked : K) (value : V) (d : Dict K V)
        → lookup asked (insert key value d) ≡ (if key == asked then some value else lookup asked d)
    unfolding insert lookup
    lookup-insert key asked value [] = refl
    lookup-insert key asked value ((first, old) ∷ d) = ground (
      arith,
      lookup-insert key asked value d,
      e.test_iff first key,
      e.test_iff first asked,
      e.test_iff key asked,
    )

    pub lookup-set_default :
        (k j : K) (v : V) (m : Dict K V)
        → lookup j (set_default k v m)
          ≡ (elim (lookup j m) [ none ↦ if k == j then some v else none | some w ↦ some w ])
    unfolding set_default
    lookup-set_default k j v m = ground (arith, lookup-insert k j v m, e.test_iff k j)

    -- `d.pop(k, None)`
    unfoldable pub erase : K → Dict K V → Dict K V
    erase k [] = []
    erase k ((j, v) ∷ m) = let rest = erase k m in if j == k then rest else (j, v) ∷ rest

    pub lookup-erase :
        (k j : K) (m : Dict K V) → lookup j (erase k m) ≡ (if k == j then none else lookup j m)
    unfolding lookup erase
    lookup-erase k j [] = ground arith
    lookup-erase k j ((i, w) ∷ m) =
        ground (arith, e.test_iff k j, e.test_iff i k, e.test_iff i j, lookup-erase k j m)

    -- `k in d`
    unfoldable pub has : K → Dict K V → Bool
    has k m = elim (lookup k m) [ none ↦ false | some v ↦ true ]

    pub lookup-select_keys :
        (k : K) (test : K → Bool) (m : Dict K V)
        → lookup k (select (λ e. test e.0) m) ≡ (if test k then lookup k m else none)
    unfolding lookup select
    lookup-select_keys k test [] = ground arith
    lookup-select_keys k test ((j, v) ∷ m) =
        ground (arith, lookup-select_keys k test m, e.test_iff j k)

    pub lookup_absent : (k : K) (m : Dict K V) → contains k (keys m) ≡ false → lookup k m ≡ none
    unfolding lookup contains
    lookup_absent k [] h = refl
    lookup_absent k ((j, v) ∷ m) h = ground (arith, lookup_absent k m)

    select_absent :
        (k : K) (test : K → Bool) (m : Dict K V)
        → contains k (keys m) ≡ false
        → contains k (keys (select (λ e. test e.0) m)) ≡ false
    unfolding contains select
    select_absent k test [] h = refl
    select_absent k test ((j, v) ∷ m) h = ground (arith, select_absent k test m)

    pub select-Distinct :
        (test : K → Bool) (m : Dict K V)
        → Distinct (keys m)
        → Distinct (keys (select (λ e. test e.0) m))
    unfolding select
    select-Distinct test [] h = tt
    select-Distinct test ((j, v) ∷ m) h = elim (Bool-cases (test j)) [
      | inl kept ↦ rw (kept) (select_absent j test m h.0, select-Distinct test m h.1)
      | inr dropped ↦ rw (dropped) (select-Distinct test m h.1)
    ]

    -- `{k: v for k, v in pairs}`
    unfoldable pub dict_of : List (K × V) → Dict K V → Dict K V
    unfolding insert
    dict_of [] d = d
    dict_of ((key, value) ∷ pairs) d = dict_of pairs (insert key value d)

    contains-keys-insert :
        (asked key : K) (value : V) (d : Dict K V)
        → contains asked (keys (insert key value d)) ≡ ((key == asked) || contains asked (keys d))
    unfolding insert contains
    contains-keys-insert asked key value [] = refl
    contains-keys-insert asked key value ((first, old) ∷ d) = ground (
      arith,
      contains-keys-insert asked key value d,
      e.test_iff first key,
      e.test_iff first asked,
      e.test_iff key asked,
    )

    pub insert-Distinct :
        (key : K) (value : V) (d : Dict K V)
        → Distinct (keys d)
        → Distinct (keys (insert key value d))
    unfolding insert contains
    insert-Distinct key value [] h = (refl, tt)
    insert-Distinct key value ((first, old) ∷ d) h = elim (Bool-cases (first == key)) [
      | inl same ↦ rw same h
      | inr other ↦ rw other (
        ground (
          arith,
          contains-keys-insert first key value d,
          h.0,
          e.test_iff first key,
          e.test_iff key first,
        ),
        insert-Distinct key value d h.1,
      )
    ]

    pub dict_of-Distinct :
        (pairs : List (K × V)) (d : Dict K V)
        → Distinct (keys d)
        → Distinct (keys (dict_of pairs d))
    unfolding dict_of
    dict_of-Distinct [] d h = h
    dict_of-Distinct ((key, value) ∷ pairs) d h =
        dict_of-Distinct pairs (insert key value d) (insert-Distinct key value d h)
