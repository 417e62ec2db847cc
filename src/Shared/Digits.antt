-- ===== src/Shared/Digits.antt =====
-- Digits in the three scripts that customers type, and mobile numbers (web/src/shared.ts:
-- normalizeDigits, normalizeIranianMobile), with the patterns that the forms test and the
-- replacement by which the pages show digits in Persian.
pub mod Laws
use radif.Prelude.{
  ltb, leb, ◌==◌, if◌then◌else◌, ltb→lt, lt→ltb, leb→le, ==_iff, Bool-cases, Option-cases, present,
  or_else, length, take, drop, any, all, find, keep, is_empty, length-append, take-append-drop, All,
  All-append, text, text_eq, text_lt, starts_with, trim, decimal, number, decimal-IsDigit,
  number-decimal, Text, is_space, is_digit, IsDigit, is_digit-IsDigit, IsDigit-is_digit,
  text_eq_sound, text_eq_refl, text_eq_iff, ℕ, zero, suc, ◌+◌, ◌-◌, ◌*◌, ◌/◌, ◌%◌, ◌^◌, ◌≤◌, ◌<◌,
  min, max, String, ◌≡◌, refl, sym, ◌∙◌, ap, subst, ◌≡⟨◌⟩◌, ◌∎, ◌≢◌, ◌↔◌, ◌⊎◌, inl, inr, Bool, true,
  false, not, ◌&&◌, ◌||◌, Option, none, some, List, [], ◌∷◌, ◌++◌, map, reverse, append-nil,
  append_assoc, arith,
}

-- `latinDigits[persianDigits.indexOf(digit)]`, at the digits that the pattern matches
unfoldable pub from_persian : ℕ → ℕ
from_persian c = if leb 0x6f0 c && leb c 0x6f9 then b'0' + (c - 0x6f0) else c

unfoldable pub from_arabic : ℕ → ℕ
from_arabic c = if leb 0x660 c && leb c 0x669 then b'0' + (c - 0x660) else c

unfoldable pub normalize_digits : Text → Text
unfolding from_persian from_arabic
normalize_digits value = keep is_digit (map from_arabic (map from_persian value))

unfoldable pub normalize_iranian_mobile : Text → Text
unfolding normalize_digits starts_with
normalize_iranian_mobile value =
    let digits = normalize_digits value in
    if starts_with digits (b'0' ∷ b'0' ∷ b'9' ∷ b'8' ∷ [])
    then b'0' ∷ drop 4 digits
    else if starts_with digits (b'9' ∷ b'8' ∷ [])
    then b'0' ∷ drop 2 digits
    else digits

-- `value.replace(/\d/g, (digit) => persianDigits[Number(digit)])`
unfoldable pub to_persian : ℕ → ℕ
to_persian c = if is_digit c then 0x6f0 + (c - b'0') else c

unfoldable pub persian_digits : Text → Text
unfolding to_persian
persian_digits value = map to_persian value

-- `/^09\d{9}$/`
unfoldable pub is_mobile : Text → Bool
unfolding starts_with
is_mobile t = starts_with t (b'0' ∷ b'9' ∷ []) && length t == 11 && all is_digit t

-- `/^\d{10}$/`
unfoldable pub is_postal_code : Text → Bool
is_postal_code t = length t == 10 && all is_digit t
