-- ===== src/Time.antt =====
-- src/watchlist/shared/timeutil.py. An aware datetime is an instant: the microseconds since
-- 1970-01-01T00:00:00Z. `astimezone(UTC)`, `isoformat` and `str.replace` are Python's.
pub mod Digits
pub mod Calendar
mod Fields
pub mod Order
use ticker_watch_case_study.Base.{
  ℕ, zero, suc, ◌+◌, ◌-◌, ◌/◌, ◌%◌, Bool, true, false, ◌&&◌, List, [], ◌∷◌, ◌++◌, nat_beq, length,
  if◌then◌else◌,
}
use ticker_watch_case_study.Base.Text.{Text, text, starts_with}
use Digits.{pad}
use Calendar.{Date, date_of}

abbrev pub Instant : Type 0
Instant = ℕ

abbrev us_per_day : ℕ
us_per_day = 86_400_000_000

abbrev us_per_hour : ℕ
us_per_hour = 3_600_000_000

abbrev us_per_minute : ℕ
us_per_minute = 60_000_000

abbrev pub us_per_second : ℕ
us_per_second = 1_000_000

-- `HH:MM:SS.ffffff`
time_text : ℕ → Text
time_text us =
    pad 2 (us / us_per_hour)
    ++ b':'
      ∷ (pad 2 (us / us_per_minute % 60)
          ++ b':' ∷ (pad 2 (us / us_per_second % 60) ++ b'.' ∷ pad 6 (us % us_per_second)))

-- `YYYY-MM-DD`
date_text : Date → Text
date_text d = pad 4 d.year ++ b'-' ∷ (pad 2 d.month ++ b'-' ∷ pad 2 d.day)

-- `value.astimezone(dt.UTC).isoformat(timespec="microseconds")`
isoformat : Instant → Text
unfolding time_text date_text
isoformat t =
    date_text (date_of (t / us_per_day)) ++ b'T' ∷ (time_text (t % us_per_day) ++ text "+00:00")

-- `skip` characters belong to an occurrence that is already replaced
replace_from : ℕ → Text → Text → Text → Text
replace_from skip old new [] = []
replace_from (suc skip) old new (c ∷ s) = replace_from skip old new s
replace_from zero old new (c ∷ s) =
    let hit = new ++ replace_from (length old - 1) old new s in
    let miss = c ∷ replace_from 0 old new s in if starts_with old (c ∷ s) then hit else miss

-- `s.replace(old, new)` for a text `old` that is not empty
replace : Text → Text → Text → Text
unfolding replace_from starts_with
replace old new s = replace_from 0 old new s

unfoldable pub to_iso : Instant → Text
unfolding isoformat replace
to_iso t = replace (text "+00:00") (text "Z") (isoformat t)
