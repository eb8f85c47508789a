-- ===== src/Time/Order.antt =====
-- Why the cache may compare the texts: `to_iso` has one width, and its order is that of time.
use mathlib.Core.List.{append_assoc}
use ticker_watch_case_study.Base.{
  ℕ, ◌+◌, ◌*◌, ◌/◌, ◌%◌, ◌<◌, ◌≡◌, ◌≢◌, refl, ap, ◌∙◌, [], ◌∷◌, ◌++◌, arith, ltb, length,
  length-append, All,
}
use ticker_watch_case_study.Base.Text.{Text, text, text_lt, starts_with}
use ticker_watch_case_study.Time.Digits.{pad, IsDigit, length-pad, pad-digits}
use ticker_watch_case_study.Time.Fields.{stamp, stamp_key, stamp_order}
use ticker_watch_case_study.Time.Calendar.{Date, date_of, date_of-IsDate, ordinal, ordinal_mono}
use ticker_watch_case_study.Time.{
  Instant, us_per_day, us_per_hour, us_per_minute, us_per_second, time_text, date_text, isoformat,
  replace_from, to_iso,
}

-- The years that a datetime has.
pub record InRange (t : Instant) : Type 0 where
  pub year_lt : (date_of (t / us_per_day)).year < 10000

-- What `to_iso` writes: the fields, and a `Z` for the offset that `isoformat` wrote.
abbrev IsPlain : ℕ → Type 0
IsPlain c = c ≢ b'+'

replace-plain :
    (xs rest : Text)
    → All IsPlain xs
    → replace_from 0 (text "+00:00") (text "Z") (xs ++ rest)
      ≡ xs ++ replace_from 0 (text "+00:00") (text "Z") rest
unfolding replace_from starts_with
replace-plain [] rest h = refl
replace-plain (x ∷ xs) rest h = ground (arith, h.0, replace-plain xs rest h.1)

join : (front back : Text) → All IsPlain front → All IsPlain back → All IsPlain (front ++ back)
join [] back plain last = last
join (c ∷ front) back plain last = (plain.0, join front back plain.1 last)

pad-IsPlain : (w n : ℕ) → All IsPlain (pad w n)
pad-IsPlain w n = go (pad w n) (pad-digits w n)
  where
    go : (xs : Text) → All IsDigit xs → All IsPlain xs
    go [] h = tt
    go (x ∷ xs) h = (omega arith, go xs h.1)

body : Date → ℕ → Text
unfolding date_text time_text
body d u = date_text d ++ b'T' ∷ time_text u

body-IsPlain : (d : Date) (u : ℕ) → All IsPlain (body d u)
unfolding body
body-IsPlain d u =
    join (date_text d) _
      (join (pad 4 d.year) _ (pad-IsPlain 4 d.year) (
        omega arith,
        join (pad 2 d.month) _ (pad-IsPlain 2 d.month) (omega arith, pad-IsPlain 2 d.day),
      ))
      (
        omega arith,
        join (pad 2 (u / us_per_hour)) _ (pad-IsPlain 2 _) (
          omega arith,
          join (pad 2 (u / us_per_minute % 60)) _ (pad-IsPlain 2 _) (
            omega arith,
            join (pad 2 (u / us_per_second % 60)) _ (pad-IsPlain 2 _)
                (omega arith, pad-IsPlain 6 _),
          ),
        ),
      )

abbrev stamp_of : Date → ℕ → Text
stamp_of d u =
    stamp d.year d.month d.day (u / us_per_hour) (u / us_per_minute % 60) (u / us_per_second % 60)
      (u % us_per_second)

body-stamp : (d : Date) (u : ℕ) → body d u ++ text "Z" ≡ stamp_of d u
unfolding body stamp
body-stamp d u = simp append_assoc

isoformat-body :
    (t : Instant) → isoformat t ≡ body (date_of (t / us_per_day)) (t % us_per_day) ++ text "+00:00"
unfolding isoformat body
isoformat-body t = simp append_assoc

to_iso-stamp : (t : Instant) → to_iso t ≡ stamp_of (date_of (t / us_per_day)) (t % us_per_day)
unfolding to_iso
to_iso-stamp t =
    let d = date_of (t / us_per_day) in
    rw
      (isoformat-body t, replace-plain (body d (t % us_per_day)) (text "+00:00") (body-IsPlain d _))
      (unfold replace_from starts_with in body-stamp d (t % us_per_day))

abbrev key_of : Date → ℕ → ℕ
key_of d u =
    stamp_key d.year d.month d.day (u / us_per_hour) (u / us_per_minute % 60)
      (u / us_per_second % 60) (u % us_per_second)

stamp_key-split : (d : Date) (u : ℕ) → u < us_per_day → key_of d u ≡ ordinal d * us_per_day + u
unfolding stamp_key
stamp_key-split d u h = omega arith

ltb-split :
    (a b o o' : ℕ)
    → (a / us_per_day < b / us_per_day → o < o')
    → (b / us_per_day < a / us_per_day → o' < o)
    → (a / us_per_day ≡ b / us_per_day → o ≡ o')
    → ltb (o * us_per_day + a % us_per_day) (o' * us_per_day + b % us_per_day) ≡ ltb a b
ltb-split a b o o' lt gt eq = ground arith

-- The texts that `to_iso` writes for two instants compare, as strings, exactly as the instants do.
pub text_lt-to_iso :
    (a b : Instant) → InRange a → InRange b → text_lt (to_iso a) (to_iso b) ≡ ltb a b
text_lt-to_iso a b ra rb =
    let da = a / us_per_day in
    let db = b / us_per_day in
    let u = a % us_per_day in
    let v = b % us_per_day in
    let va = date_of-IsDate da in
    let vb = date_of-IsDate db in
    rw (to_iso-stamp a, to_iso-stamp b)
      (stamp_order _ _ _ _ _ _ _ _ _ _ _ _ _ _ (ra.year_lt, rb.year_lt) (va.month_le, vb.month_le)
          (va.day_le, vb.day_le) (omega arith, omega arith) (omega arith, omega arith)
          (omega arith, omega arith) (omega arith, omega arith)
        ∙ rw (stamp_key-split (date_of da) u (omega arith)) (
            rw (stamp_key-split (date_of db) v (omega arith)) (
              ltb-split a b _ _ (ordinal_mono da db) (ordinal_mono db da)
                (ap (λ n. ordinal (date_of n))))))

-- Every instant has a text of 27 characters.
pub length-to_iso : (t : Instant) → length (to_iso t) ≡ 27
unfolding stamp
length-to_iso t = rw (to_iso-stamp t) (simp (length-append, length-pad))
