-- ===== src/DeliveryDate.antt =====
-- The picker of a delivery date (web/src/DeliveryDateSelect.tsx). A local date is what
-- `getFullYear`, `getMonth` and `getDate` give; `Date` keeps the fields of a real date as they are.
pub mod Laws
use radif.Prelude.{
  leb, ◌==◌, decimal, number, Text, ℕ, ◌+◌, ◌-◌, Bool, true, false, not, Option, none, some, List,
  [], ◌∷◌, ◌++◌,
}

pub record LocalDate : Type 0 where
  pub year : ℕ
  -- from 0
  pub month : ℕ
  pub day : ℕ

-- The template text of two parts with a dash between
abbrev pub dashed : Text → Text → Text
dashed a b = a ++ (b'-' ∷ b)

-- `padStart(2, "0")`
unfoldable pub pad_start : Text → Text
pad_start [] = b'0' ∷ b'0' ∷ []
pad_start (c ∷ []) = b'0' ∷ c ∷ []
pad_start (c ∷ d ∷ t) = c ∷ d ∷ t

unfoldable pub date_to_iso : LocalDate → Text
date_to_iso d =
    dashed (decimal d.year) (dashed (pad_start (decimal (d.month + 1))) (pad_start (decimal d.day)))

-- `split("-")`, with the part that is already read
unfoldable pub split_from : Text → Text → List Text
split_from part [] = part ∷ []
split_from part (c ∷ t) = elim (c == b'-') [
  | true ↦ part ∷ split_from [] t
  | false ↦ split_from (part ++ c ∷ []) t
]

-- Parts after the third are ignored; with fewer the date is invalid. Of a year below 100 `new Date` would
-- make one from 1900 on; here every year stands for itself.
unfoldable pub date_of : List Text → Option LocalDate
date_of (y ∷ m ∷ d ∷ _) = some (record { year = number y; month = number m - 1; day = number d })
date_of _ = none

unfoldable pub date_from_iso : Text → Option LocalDate
unfolding split_from date_of
date_from_iso [] = none
date_from_iso (c ∷ t) = date_of (split_from [] (c ∷ t))

-- The calendar is open or not; a picked day closes it, and hands the text on.
unfoldable pub toggle_open : Bool → Bool
toggle_open shown = not shown

unfoldable pub select : Option LocalDate → Bool → Bool × Option Text
select none shown = (shown, none)
select (some day) shown = (false, some (date_to_iso day))

-- The buttons for a promise in working days: which are disabled, and what they hand on.
pub data WorkDays : Type 0 where
  first less more : WorkDays

unfoldable pub work_days_disabled : WorkDays → ℕ → Bool
work_days_disabled first n = not (n == 0)
work_days_disabled less n = leb n 1
work_days_disabled more n = leb 30 n

unfoldable pub pick_work_days : WorkDays → ℕ → ℕ
pick_work_days first n = 1
pick_work_days less n = n - 1
pick_work_days more n = n + 1
