-- ===== src/Shared/Dates.antt =====
-- Working days and the time to a delivery (web/src/shared.ts: isWorkingDay, addWorkingDays, deliveryTiming). A day is its number, counted from
-- 1970-01-01, as `Date` counts days; `jalali` is the format "yyyy-MM-dd" of date-fns-jalali.
pub mod Laws
use radif.Prelude.{
  ltb, ◌==◌, if◌then◌else◌, any, text, text_eq, Text, ℕ, zero, suc, ◌+◌, ◌-◌, ◌%◌, Bool, false, not,
  ◌||◌, Option, none, some, List, [], ◌∷◌, ◌++◌,
}
use radif.Shared.Messages.{days_late, today_label, tomorrow_label, days_ahead}

unfoldable pub iranian_holidays : List Text
iranian_holidays =
    text "1405-01-01"
    ∷ text "1405-01-02"
    ∷ text "1405-01-03"
    ∷ text "1405-01-04"
    ∷ text "1405-01-12"
    ∷ text "1405-01-13"
    ∷ text "1405-01-25"
    ∷ text "1405-03-06"
    ∷ text "1405-03-14"
    ∷ text "1405-03-15"
    ∷ text "1405-04-03"
    ∷ text "1405-04-04"
    ∷ text "1405-05-13"
    ∷ text "1405-05-21"
    ∷ text "1405-05-22"
    ∷ text "1405-05-30"
    ∷ text "1405-06-08"
    ∷ text "1405-08-22"
    ∷ text "1405-10-02"
    ∷ text "1405-10-16"
    ∷ text "1405-11-04"
    ∷ text "1405-11-22"
    ∷ text "1405-12-09"
    ∷ text "1405-12-19"
    ∷ text "1405-12-20"
    ∷ text "1405-12-29"
    ∷ []

-- `getUTCDay`: 0 is Sunday, and 1970-01-01 was a Thursday.
unfoldable pub weekday : ℕ → ℕ
weekday day = (day + 4) % 7

unfoldable pub is_holiday : (ℕ → Text) → ℕ → Bool
is_holiday jalali day = any (λ holiday. text_eq holiday (jalali day)) iranian_holidays

unfoldable pub is_working_day : (ℕ → Text) → ℕ → Bool
is_working_day jalali day =
    if weekday day == 4 || weekday day == 5 then false else not (is_holiday jalali day)

-- The loop of `addWorkingDays`, with `fuel` rounds; `none` is a loop that has not ended by then.
unfoldable pub add_working_days : (ℕ → Text) → ℕ → ℕ → ℕ → Option ℕ
add_working_days jalali fuel day zero = some day
add_working_days jalali zero day (suc remaining) = none
add_working_days jalali (suc fuel) day (suc remaining) =
    add_working_days jalali fuel (day + 1)
      (if is_working_day jalali (day + 1) then remaining else suc remaining)

-- The days from today to a day, or since it.
pub data Timing : Type 0 where
  late ahead : ℕ → Timing

unfoldable pub delivery_timing : ℕ → ℕ → Timing
delivery_timing today day = if ltb day today then late (today - day) else ahead (day - today)

-- The label of `deliveryTiming`, with the format of numbers.
unfoldable pub timing_label : (ℕ → Text) → Timing → Text
timing_label persian_number (late n) = persian_number n ++ days_late
timing_label persian_number (ahead zero) = today_label
timing_label persian_number (ahead (suc zero)) = tomorrow_label
timing_label persian_number (ahead (suc (suc n))) = persian_number (suc (suc n)) ++ days_ahead
