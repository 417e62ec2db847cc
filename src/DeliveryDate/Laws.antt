-- ===== src/DeliveryDate/Laws.antt =====
-- The text of a picked date is read back as that date.
use radif.Prelude.{
  ◌==◌, All, decimal, number, decimal-IsDigit, number-decimal, Text, IsDigit, ℕ, ◌+◌, ◌≤◌, ◌≡◌,
  refl, sym, ◌∙◌, ap, false, some, [], ◌∷◌, ◌++◌, append-nil, append_assoc, arith,
}
use radif.Prelude.{number-zero}
use radif.DeliveryDate.{
  LocalDate, dashed, pad_start, date_to_iso, split_from, date_of, date_from_iso, WorkDays,
  work_days_disabled, pick_work_days,
}

-- A dash is no digit.
digit_test : (c : ℕ) → IsDigit c → (c == b'-') ≡ false
digit_test c h = ground arith

split_from-digits : (part t : Text) → All IsDigit t → split_from part t ≡ (part ++ t) ∷ []
unfolding split_from
split_from-digits part [] h = ap (λ p. p ∷ []) (sym (append-nil part))
split_from-digits part (c ∷ t) (d, h) =
    rw (digit_test c d, split_from)
      (split_from-digits (part ++ c ∷ []) t h ∙ ap (λ p. p ∷ []) (append_assoc part (c ∷ []) t))

split_from-dash :
    (part t rest : Text)
    → All IsDigit t
    → split_from part (dashed t rest) ≡ (part ++ t) ∷ split_from [] rest
unfolding split_from
split_from-dash part [] rest h = ap (λ p. p ∷ split_from [] rest) (sym (append-nil part))
split_from-dash part (c ∷ t) rest (d, h) =
    rw (digit_test c d, split_from)
      (split_from-dash (part ++ c ∷ []) t rest h
        ∙ ap (λ p. p ∷ split_from [] rest) (append_assoc part (c ∷ []) t))

pad_start-IsDigit : (t : Text) → All IsDigit t → All IsDigit (pad_start t)
unfolding pad_start
pad_start-IsDigit [] h = ground arith
pad_start-IsDigit (c ∷ []) h = ground arith
pad_start-IsDigit (c ∷ d ∷ t) h = h

number-pad_start : (t : Text) → number (pad_start t) ≡ number t
unfolding pad_start
number-pad_start [] = number-zero (b'0' ∷ []) ∙ number-zero []
number-pad_start (c ∷ []) = number-zero (c ∷ [])
number-pad_start (c ∷ d ∷ t) = refl

date_from_iso-dash :
    (a b : Text) → date_from_iso (dashed a b) ≡ date_of (split_from [] (dashed a b))
unfolding date_from_iso
date_from_iso-dash [] b = refl
date_from_iso-dash (c ∷ a) b = refl

parts :
    (y m d : Text)
    → All IsDigit y
    → All IsDigit m
    → All IsDigit d
    → split_from [] (dashed y (dashed m d)) ≡ y ∷ m ∷ d ∷ []
parts y m d h k l =
    split_from-dash [] y (dashed m d) h
    ∙ ap (λ p. y ∷ p) (split_from-dash [] m d k ∙ ap (λ p. m ∷ p) (split_from-digits [] d l))

number-padded : (n : ℕ) → number (pad_start (decimal n)) ≡ n
number-padded n = number-pad_start (decimal n) ∙ number-decimal n

padded-IsDigit : (n : ℕ) → All IsDigit (pad_start (decimal n))
padded-IsDigit n = pad_start-IsDigit (decimal n) (decimal-IsDigit n)

-- The picker's text of a date, read by the picker, is that date again.
pub date_from_iso-date_to_iso : (d : LocalDate) → date_from_iso (date_to_iso d) ≡ some d
unfolding date_to_iso date_of
date_from_iso-date_to_iso d =
    date_from_iso-dash (decimal d.year) _
    ∙ ap date_of (
        parts (decimal d.year) (pad_start (decimal (d.month + 1))) (pad_start (decimal d.day))
          (decimal-IsDigit d.year) (padded-IsDigit (d.month + 1)) (padded-IsDigit d.day))
    ∙ rw (number-decimal d.year, number-padded (d.month + 1), number-padded d.day)
        (ap (λ m. some (record d { month = m })) (omega arith))

-- A press of a button that is not disabled keeps the promise from 1 to 30 working days, from a
-- form without a promise on.
pub pick_work_days_bounds :
    (button : WorkDays) (n : ℕ)
    → n ≤ 30
    → work_days_disabled button n ≡ false
    → (1 ≤ pick_work_days button n) × (pick_work_days button n ≤ 30)
unfolding work_days_disabled pick_work_days
pick_work_days_bounds button n h e = ground arith
