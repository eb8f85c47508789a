-- ===== src/Base/Sort.antt =====
-- ORDER BY: a sort that keeps the rows and puts them in order, and what LIMIT cuts off.
use Prim.Native.Nat.{ℕ, zero, suc}
use mathlib.Core.Path.{◌≡◌, refl, ap}
use mathlib.Core.Bool.{Bool, true, false}
use mathlib.Core.List.{List, [], ◌∷◌, ◌++◌}
use native.Mathlib.Omega.{arith}
use mathlib.Core.Logic.{inl, inr}
use ticker_watch_case_study.Base.Tests.{if◌then◌else◌, Bool-cases}
use ticker_watch_case_study.Base.Lists.{All, count_if, take}

module _ {ℓ} {A : Type ℓ} (le : A → A → Bool) where
  unfoldable pub insert_by : A → List A → List A
  insert_by x [] = x ∷ []
  insert_by x (y ∷ ys) = if le x y then x ∷ y ∷ ys else y ∷ insert_by x ys

  unfoldable pub sort_by : List A → List A
  unfolding insert_by
  sort_by [] = []
  sort_by (x ∷ xs) = insert_by x (sort_by xs)

  -- each element comes before all that stand after it
  abbrev pub IsOrdered : List A → Type 0
  IsOrdered [] = Unit
  IsOrdered (x ∷ xs) = All (λ y. le x y ≡ true) xs × IsOrdered xs

  count_if-insert_by :
      (test : A → Bool) (x : A) (xs : List A)
      → count_if test (insert_by x xs) ≡ count_if test (x ∷ xs)
  unfolding insert_by count_if
  count_if-insert_by test x [] = refl
  count_if-insert_by test x (y ∷ ys) = ground (arith, count_if-insert_by test x ys)

  -- the sorted rows are the rows
  pub count_if-sort_by :
      (test : A → Bool) (xs : List A) → count_if test (sort_by xs) ≡ count_if test xs
  unfolding sort_by count_if
  count_if-sort_by test [] = refl
  count_if-sort_by test (x ∷ xs) =
      ground (arith, count_if-insert_by test x (sort_by xs), count_if-sort_by test xs)

  pub All-insert_by {κ} :
      (P : A → Type κ) (x : A) (xs : List A) → P x → All P xs → All P (insert_by x xs)
  unfolding insert_by
  All-insert_by P x [] hx h = (hx, tt)
  All-insert_by P x (y ∷ ys) hx h = elim (Bool-cases (le x y)) [
    | inl first ↦ rw first (hx, h)
    | inr after ↦ rw after (h.0, All-insert_by P x ys hx h.1)
  ]

  pub All-sort_by {κ} : (P : A → Type κ) (xs : List A) → All P xs → All P (sort_by xs)
  unfolding sort_by
  All-sort_by P [] h = tt
  All-sort_by P (x ∷ xs) h = All-insert_by P x (sort_by xs) h.0 (All-sort_by P xs h.1)

  module _ (total : (a b : A) → le a b ≡ false → le b a ≡ true)
      (trans : (a b c : A) → le a b ≡ true → le b c ≡ true → le a c ≡ true) where
    All-trans :
        (x y : A) (ys : List A)
        → le x y ≡ true
        → All (λ z. le y z ≡ true) ys
        → All (λ z. le x z ≡ true) ys
    All-trans x y [] h hs = tt
    All-trans x y (z ∷ zs) h hs = (trans x y z h hs.0, All-trans x y zs h hs.1)

    insert_by-IsOrdered : (x : A) (xs : List A) → IsOrdered xs → IsOrdered (insert_by x xs)
    unfolding insert_by
    insert_by-IsOrdered x [] h = (tt, tt)
    insert_by-IsOrdered x (y ∷ ys) h = elim (Bool-cases (le x y)) [
      | inl first ↦ rw first ((first, All-trans x y ys first h.0), h)
      | inr after ↦ rw after (
        All-insert_by (λ z. le y z ≡ true) x ys (total x y after) h.0,
        insert_by-IsOrdered x ys h.1,
      )
    ]

    pub sort_by-IsOrdered : (xs : List A) → IsOrdered (sort_by xs)
    unfolding sort_by
    sort_by-IsOrdered [] = tt
    sort_by-IsOrdered (x ∷ xs) = insert_by-IsOrdered x (sort_by xs) (sort_by-IsOrdered xs)

module _ {ℓ} {A : Type ℓ} where
  -- what LIMIT cuts off
  abbrev pub drop : ℕ → List A → List A
  drop zero xs = xs
  drop (suc n) [] = []
  drop (suc n) (x ∷ xs) = drop n xs

  pub take-append-drop : (n : ℕ) (xs : List A) → take n xs ++ drop n xs ≡ xs
  take-append-drop zero xs = refl
  take-append-drop (suc n) [] = refl
  take-append-drop (suc n) (x ∷ xs) = ap (◌∷◌ x) (take-append-drop n xs)
