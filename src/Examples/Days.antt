-- ===== src/Examples/Days.antt =====
-- Working days around the Nowruz of 1405, with a format that knows the first day only, and a date.
use radif.Prelude.{
  ◌==◌, if◌then◌else◌, text, text_eq, Text, ℕ, ◌+◌, ◌*◌, ◌<◌, ◌≡◌, refl, false, some, arith,
}
use radif.Shared.Dates.{weekday, is_holiday, is_working_day, add_working_days, iranian_holidays}
use radif.DeliveryDate.{date_to_iso, date_from_iso}
use radif.DeliveryDate.Laws.{date_from_iso-date_to_iso}
use radif.Shared.Dates.Laws.{Found, add_working_days_ends}

abbrev nowruz : ℕ
nowruz = 20533

abbrev jalali : ℕ → Text
jalali day = if day == nowruz then text "1405-01-01" else text "1406-02-02"

jalali-no_holiday : (day : ℕ) → nowruz < day → is_holiday jalali day ≡ false
unfolding is_holiday iranian_holidays text text_eq
jalali-no_holiday day h = let later : (day == nowruz) ≡ false = ground arith in rw later refl

add_working_days_ends_example : Found jalali (2 + 3 * 5) 20531 5
add_working_days_ends_example = add_working_days_ends jalali nowruz jalali-no_holiday 20531 5

-- Two days before Nowruz is a Thursday: the first working day after it is the day after Nowruz.
first_working_day : add_working_days jalali 10 20531 1 ≡ some 20534
unfolding add_working_days is_working_day is_holiday iranian_holidays text text_eq weekday
first_working_day = refl

date_from_iso-date_to_iso_example :
    date_from_iso (date_to_iso (record { year = 2026; month = 2; day = 7 }))
    ≡ some (record { year = 2026; month = 2; day = 7 })
date_from_iso-date_to_iso_example =
    date_from_iso-date_to_iso (record { year = 2026; month = 2; day = 7 })
