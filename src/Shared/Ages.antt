-- ===== src/Shared/Ages.antt =====
-- How long ago something was, in words (web/src/shared.ts: relativeAge). Times are milliseconds, and
-- the words of `Intl.RelativeTimeFormat` are left out: an age is what the code hands to it.
use radif.Prelude.{
  ltb, if◌then◌else◌, ltb→lt, Bool-cases, ℕ, ◌+◌, ◌-◌, ◌*◌, ◌/◌, ◌≤◌, ◌<◌, inl, inr, arith,
}

-- A rounded number with its sign, since `Math.round` keeps the sign of a number that it rounds to 0.
pub data Signed : Type 0 where
  minus plus : ℕ → Signed

-- `Math.round` of a quotient by an even number: a half goes up, towards `plus`.
unfoldable pub round_by : ℕ → Signed → Signed
round_by k (minus n) = minus ((n + (k / 2 - 1)) / k)
round_by k (plus n) = plus ((n + k / 2) / k)

unfoldable pub abs : Signed → ℕ
abs (minus n) = n
abs (plus n) = n

unfoldable pub time_from : ℕ → ℕ → Signed
time_from now time = if ltb time now then minus (now - time) else plus (time - now)

pub data Age : Type 0 where
  minute hour day : Signed → Age

unfoldable pub age_of_hours : Signed → Age
unfolding abs round_by
age_of_hours hours = if ltb (abs hours) 24 then hour hours else day (round_by 24 hours)

unfoldable pub age_of_minutes : Signed → Age
unfolding abs round_by age_of_hours
age_of_minutes minutes =
    if ltb (abs minutes) 60 then minute minutes else age_of_hours (round_by 60 minutes)

unfoldable pub relative_age : ℕ → ℕ → Age
unfolding time_from round_by age_of_minutes
relative_age now time = age_of_minutes (round_by 60000 (time_from now time))

-- Whether a signed number is a time that is near to a given one.
unfoldable pub IsWithin : ℕ → ℕ → ℕ → Signed → Type 0
IsWithin error now time (minus n) = (now ≤ time + n + error) × (time + n ≤ now + error)
IsWithin error now time (plus n) = (time ≤ now + n + error) × (now + n ≤ time + error)

unfoldable pub scale : ℕ → Signed → Signed
scale k (minus n) = minus (k * n)
scale k (plus n) = plus (k * n)

-- What an age claims of two times.
unfoldable pub Claims : ℕ → ℕ → Age → Type 0
Claims now time (minute m) = (abs m < 60) × IsWithin 30000 now time (scale 60000 m)
Claims now time (hour h) =
    (0 < abs h) × (abs h < 24) × IsWithin (30 * 60000 + 30000) now time (scale 3600000 h)
Claims now time (day d) =
    (0 < abs d) × IsWithin (12 * 3600000 + 30 * 60000 + 30000) now time (scale 86400000 d)

age_of_minutes-minus :
    (n now time : ℕ)
    → time + 60000 * n ≤ now + 30000
    → now ≤ time + 60000 * n + 30000
    → Claims now time (age_of_minutes (minus n))
unfolding age_of_minutes age_of_hours round_by abs Claims IsWithin scale
age_of_minutes-minus n now time lo hi = ground arith

age_of_minutes-plus :
    (n now time : ℕ)
    → now + 60000 * n ≤ time + 30000
    → time ≤ now + 60000 * n + 30000
    → Claims now time (age_of_minutes (plus n))
unfolding age_of_minutes age_of_hours round_by abs Claims IsWithin scale
age_of_minutes-plus n now time lo hi = ground arith

-- An age in minutes is below 60 of them and wrong by at most half a minute; one in hours is between
-- 1 and 23 hours and wrong by at most half an hour and half a minute; and one in days is at least a
-- day and wrong by at most half a day, half an hour and half a minute, since it is rounded three
-- times.
pub relative_age-Claims : (now time : ℕ) → Claims now time (relative_age now time)
unfolding relative_age time_from round_by
relative_age-Claims now time = elim (Bool-cases (ltb time now)) [
  | inl past ↦ rw past (
      let before = ltb→lt time now past in
      age_of_minutes-minus ((now - time + 29999) / 60000) now time (omega arith) (omega arith))
  | inr ahead ↦
      rw ahead
        (age_of_minutes-plus ((time - now + 30000) / 60000) now time (ground arith) (ground arith))
]
