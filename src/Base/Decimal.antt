-- ===== src/Base/Decimal.antt =====
-- `str(n)` and `f"{n:05d}"` on natural numbers, and the number that such a text stands for.
use Prim.Native.Nat.{ℕ, zero, suc, ◌+◌, ◌-◌, ◌*◌, ◌/◌, ◌%◌, ◌<◌}
use mathlib.Core.Path.{◌≡◌, refl, ap, sym, ◌∙◌}
use mathlib.Core.Bool.{true, false}
use mathlib.Core.Logic.{inl, inr}
use mathlib.Core.List.{[], ◌∷◌, ◌++◌}
use native.Mathlib.Omega.{arith}
use ticker_watch_case_study.Base.Tests.{ltb, Bool-cases}
use ticker_watch_case_study.Base.Lists.{length}
use ticker_watch_case_study.Base.Text.{Text}

-- the digits of a number; its own value is more steps than it has digits
unfoldable pub digits : ℕ → ℕ → Text
digits zero n = []
digits (suc steps) n = elim (ltb n 10) [
  | true ↦ (b'0' + n) ∷ []
  | false ↦ digits steps (n / 10) ++ (b'0' + n % 10) ∷ []
]

-- `str(n)`
unfoldable pub decimal : ℕ → Text
unfolding digits
decimal n = digits (suc n) n

zeros : ℕ → Text → Text
zeros zero t = t
zeros (suc k) t = b'0' ∷ zeros k t

-- `f"{n:0{width}d}"`
unfoldable pub zero_padded : ℕ → ℕ → Text
unfolding decimal zeros
zero_padded width n = let t = decimal n in zeros (width - length t) t

-- the number whose digits follow those of `n`
value : ℕ → Text → ℕ
value n [] = n
value n (c ∷ t) = value (n * 10 + (c - b'0')) t

value-append : (n : ℕ) (s t : Text) → value n (s ++ t) ≡ value (value n s) t
unfolding value
value-append n [] t = refl
value-append n (c ∷ s) t = value-append (n * 10 + (c - b'0')) s t

value-digits : (steps n : ℕ) → n < steps → value 0 (digits steps n) ≡ n
unfolding digits value
value-digits zero n h = omega (arith, h)
value-digits (suc steps) n h = elim (Bool-cases (ltb n 10)) [
  | inl small ↦ rw (digits, small) (omega arith)
  | inr large ↦
      rw (digits, large)
        (value-append 0 (digits steps (n / 10)) ((b'0' + n % 10) ∷ [])
          ∙ rw (value-digits steps (n / 10) (ground arith)) (omega arith))
]

value-zeros : (k : ℕ) (t : Text) → value 0 (zeros k t) ≡ value 0 t
unfolding zeros value
value-zeros zero t = refl
value-zeros (suc k) t = value-zeros k t

-- different numbers are written differently
pub decimal_injective : (m n : ℕ) → decimal m ≡ decimal n → m ≡ n
unfolding decimal
decimal_injective m n h =
    sym (value-digits (suc m) m (omega arith))
    ∙ ap (value 0) h
    ∙ value-digits (suc n) n (omega arith)

value-zero_padded : (width n : ℕ) → value 0 (zero_padded width n) ≡ n
unfolding zero_padded
value-zero_padded width n =
    value-zeros (width - length (decimal n)) (decimal n)
    ∙ unfold decimal in value-digits (suc n) n (omega arith)

pub zero_padded_injective : (width m n : ℕ) → zero_padded width m ≡ zero_padded width n → m ≡ n
zero_padded_injective width m n h =
    sym (value-zero_padded width m) ∙ ap (value 0) h ∙ value-zero_padded width n
