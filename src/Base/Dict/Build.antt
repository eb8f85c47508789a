-- ===== src/Base/Dict/Build.antt =====
-- A dict that is filled with new keys, one entry after the other, is the list of its entries.
use ticker_watch_case_study.Base.Lists.{All}
use ticker_watch_case_study.Base.Equality.{Hashable, ◌==◌, contains, Distinct}
use mathlib.Core.Bool.{false, ◌||◌}
use mathlib.Core.Path.{◌≡◌, ◌∙◌, refl, ap}
use mathlib.Core.List.{[], ◌∷◌, ◌++◌}
use native.Mathlib.Omega.{arith}
use ticker_watch_case_study.Base.Dict.{Dict, keys, insert, update}

module _ {ℓ κ} {K : Type ℓ} {V : Type κ} where
  append_none : (m : Dict K V) → m ≡ m ++ []
  append_none [] = refl
  append_none (x ∷ m) = ap (λ (rest : Dict K V). x ∷ rest) (append_none m)

  append_one : (m xs : Dict K V) (x : K × V) → (m ++ x ∷ []) ++ xs ≡ m ++ x ∷ xs
  append_one [] xs x = refl
  append_one (y ∷ m) xs x = ap (λ (rest : Dict K V). y ∷ rest) (append_one m xs x)

  module _ ⦃e : Hashable K⦄ where
    insert-new :
        (k : K) (v : V) (m : Dict K V)
        → contains k (keys m) ≡ false
        → insert k v m ≡ m ++ (k, v) ∷ []
    unfolding insert contains
    insert-new k v [] h = refl
    insert-new k v ((j, w) ∷ m) h = ground (arith, insert-new k v m)

    pub contains-append_one :
        (k j : K) (v : V) (m : Dict K V)
        → contains k (keys (m ++ (j, v) ∷ [])) ≡ (contains k (keys m) || (j == k))
    unfolding contains
    contains-append_one k j v [] = ground arith
    contains-append_one k j v ((i, w) ∷ m) = ground (arith, contains-append_one k j v m)

    apart_one :
        (j : K) (v : V) (m xs : Dict K V)
        → contains j (keys xs) ≡ false
        → All (λ x. contains x.0 (keys m) ≡ false) xs
        → All (λ x. contains x.0 (keys (m ++ (j, v) ∷ [])) ≡ false) xs
    unfolding contains
    apart_one j v m [] new apart = tt
    apart_one j v m ((k, w) ∷ xs) new apart = (
      ground (arith, contains-append_one k j v m, apart.0, new, e.test_iff j k, e.test_iff k j),
      apart_one j v m xs (ground (arith, new)) apart.1,
    )

    update-apart :
        (xs m : Dict K V)
        → Distinct (keys xs)
        → All (λ x. contains x.0 (keys m) ≡ false) xs
        → update xs m ≡ m ++ xs
    unfolding update
    update-apart [] m distinct apart = append_none m
    update-apart ((j, v) ∷ xs) m distinct apart =
        ap (update xs) (insert-new j v m apart.0)
        ∙ update-apart xs (m ++ (j, v) ∷ []) distinct.1 (apart_one j v m xs distinct.0 apart.1)
        ∙ append_one m xs (j, v)

    apart_from_empty : (xs : Dict K V) → All (λ x. contains x.0 (keys {V = V} []) ≡ false) xs
    unfolding contains
    apart_from_empty [] = tt
    apart_from_empty (x ∷ xs) = (refl, apart_from_empty xs)

    pub update-empty : (xs : Dict K V) → Distinct (keys xs) → update xs [] ≡ xs
    update-empty xs distinct = update-apart xs [] distinct (apart_from_empty xs)
