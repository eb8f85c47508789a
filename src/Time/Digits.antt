-- ===== src/Time/Digits.antt =====
-- Decimal digits of a fixed width, as in `f"{n:04d}"`, and how texts of that width compare.
use mathlib.Core.List.{append_assoc}
use ticker_watch_case_study.Base.{
  ℕ, zero, suc, ◌+◌, ◌/◌, ◌%◌, ◌≤◌, ◌≡◌, refl, [], ◌∷◌, ◌++◌, arith, ltb, nat_beq, length,
  length-append, All, if◌then◌else◌,
}
use ticker_watch_case_study.Base.Text.{Text, text_lt}

unfoldable pub pad : ℕ → ℕ → Text
pad zero n = []
pad (suc w) n = pad w (n / 10) ++ (b'0' + n % 10) ∷ []

abbrev pub Fits : ℕ → ℕ → Type 0
Fits zero n = n ≡ 0
Fits (suc w) n = Fits w (n / 10)

pub length-pad : (w n : ℕ) → length (pad w n) ≡ w
unfolding pad
length-pad zero n = refl
length-pad (suc w) n =
    omega (arith, length-append (pad w (n / 10)) ((b'0' + n % 10) ∷ []), length-pad w (n / 10))

-- every digit is a digit, so none of them is a `+`
abbrev pub IsDigit : ℕ → Type 0
IsDigit c = (48 ≤ c) × (c ≤ 57)

pub pad-digits : (w n : ℕ) → All IsDigit (pad w n)
unfolding pad
pad-digits zero n = tt
pad-digits (suc w) n = snoc (pad w (n / 10)) (pad-digits w (n / 10))
  where
    snoc : (xs : Text) → All IsDigit xs → All IsDigit (xs ++ (b'0' + n % 10) ∷ [])
    snoc [] h = omega arith
    snoc (x ∷ xs) h = (h.0, snoc xs h.1)

-- Digits before a rest: the numbers decide unless they are equal.
pub text_lt-pad :
    (w a b : ℕ) (us vs : Text)
    → Fits w a
    → Fits w b
    → text_lt (pad w a ++ us) (pad w b ++ vs) ≡ (if nat_beq a b then text_lt us vs else ltb a b)
unfolding pad text_lt
text_lt-pad zero a b us vs ha hb = ground arith
text_lt-pad (suc w) a b us vs ha hb =
    let x : ℕ = b'0' + a % 10 in
    let y : ℕ = b'0' + b % 10 in
    simp append_assoc (rw (text_lt-pad w (a / 10) (b / 10) (x ∷ us) (y ∷ vs) ha hb) (ground arith))
