-- ===== src/Time/Calendar.antt =====
-- The proleptic Gregorian calendar that Python's datetime uses, one day after the other.
use native.Mathlib.Decide.{dec_lt}
use ticker_watch_case_study.Base.{
  ℕ, zero, suc, ◌+◌, ◌*◌, ◌≡◌, ◌%◌, ◌≤◌, ◌<◌, Bool, ◌&&◌, ◌||◌, not, arith, ltb, nat_beq,
  if◌then◌else◌,
}

pub record Date : Type 0 where
  pub year : ℕ
  pub month : ℕ
  pub day : ℕ

is_leap : ℕ → Bool
is_leap y = nat_beq (y % 4) 0 && (not (nat_beq (y % 100) 0) || nat_beq (y % 400) 0)

days_in_month : ℕ → ℕ → ℕ
unfolding is_leap
days_in_month y m =
    if nat_beq m 2
    then (if is_leap y then 29 else 28)
    else if nat_beq m 4 || nat_beq m 6 || nat_beq m 9 || nat_beq m 11
    then 30
    else 31

next_day : Date → Date
unfolding days_in_month
next_day d =
    if ltb d.day (days_in_month d.year d.month)
    then record d { day = d.day + 1 }
    else if ltb d.month 12
    then record d { month = d.month + 1; day = 1 }
    else record { year = d.year + 1; month = 1; day = 1 }

-- the date of the `n`-th day after 1970-01-01
unfoldable pub date_of : ℕ → Date
unfolding next_day
date_of zero = record { year = 1970; month = 1; day = 1 }
date_of (suc n) = next_day (date_of n)

pub record IsDate (d : Date) : Type 0 where
  pub month_pos : 0 < d.month
  pub month_le : d.month ≤ 12
  pub day_pos : 0 < d.day
  pub day_le : d.day ≤ 31

-- dates compare as these numbers do
abbrev pub ordinal : Date → ℕ
ordinal d = d.year * 416 + (d.month * 32 + d.day)

next_day-IsDate : (d : Date) → IsDate d → IsDate (next_day d)
unfolding next_day
next_day-IsDate d h = ground arith

ordinal-next_day : (d : Date) → IsDate d → ordinal d < ordinal (next_day d)
unfolding next_day
ordinal-next_day d h = ground arith

pub date_of-IsDate : (n : ℕ) → IsDate (date_of n)
unfolding date_of
date_of-IsDate zero = omega arith
date_of-IsDate (suc n) = unfold date_of in next_day-IsDate (date_of n) (date_of-IsDate n)

-- a later day has a later date
pub ordinal_mono : (a b : ℕ) → a < b → ordinal (date_of a) < ordinal (date_of b)
unfolding date_of
ordinal_mono a zero h = absurd (omega arith)
ordinal_mono a (suc b) h = elim (dec_lt a b) [
  | yes earlier ↦
      omega (arith, ordinal_mono a b earlier, ordinal-next_day (date_of b) (date_of-IsDate b))
  | no last ↦ let e : a ≡ b = omega arith in rw e (ordinal-next_day (date_of b) (date_of-IsDate b))
]
