-- ===== src/Shared/Digits/Laws.antt =====
-- What the normal forms of digits and mobile numbers hold, and which spellings share one.
use radif.Prelude.{
  all, keep, All, starts_with, Text, is_digit, IsDigit, ◌≡◌, refl, ◌⊎◌, inl, inr, true, [], ◌∷◌,
  ◌++◌, map, arith,
}
use radif.Shared.Digits.{from_persian, from_arabic, to_persian, normalize_digits, persian_digits}
use radif.Shared.Digits.{normalize_iranian_mobile, is_mobile}

keep-IsDigit : (s : Text) → All IsDigit (keep is_digit s)
keep-IsDigit [] = tt
keep-IsDigit (c ∷ s) = ground (arith, keep-IsDigit s)

-- What is left of a typed text is ASCII digits.
pub normalize_digits-IsDigit : (s : Text) → All IsDigit (normalize_digits s)
unfolding normalize_digits
normalize_digits-IsDigit s = keep-IsDigit (map from_arabic (map from_persian s))

-- A text of ASCII digits is its own normal form.
pub normalize_digits-eq_self : (s : Text) → All IsDigit s → normalize_digits s ≡ s
unfolding normalize_digits from_persian from_arabic
normalize_digits-eq_self [] h = refl
normalize_digits-eq_self (c ∷ s) (d, h) = ground (arith, normalize_digits-eq_self s h)

-- A normal form is its own normal form.
pub normalize_digits_idempotent :
    (s : Text) → normalize_digits (normalize_digits s) ≡ normalize_digits s
normalize_digits_idempotent s =
    normalize_digits-eq_self (normalize_digits s) (normalize_digits-IsDigit s)

-- A text of ASCII digits that is shown in Persian digits is read back as it was.
pub normalize_digits-persian_digits :
    (s : Text) → All IsDigit s → normalize_digits (persian_digits s) ≡ s
unfolding normalize_digits persian_digits from_persian from_arabic to_persian
normalize_digits-persian_digits [] h = refl
normalize_digits-persian_digits (c ∷ s) (d, h) = ground (arith, normalize_digits-persian_digits s h)

pub normalize_digits-append :
    (s t : Text) → normalize_digits (s ++ t) ≡ normalize_digits s ++ normalize_digits t
unfolding normalize_digits from_persian from_arabic
normalize_digits-append [] t = refl
normalize_digits-append (c ∷ s) t = ground (arith, normalize_digits-append s t)

all_digits : (s : Text) → all is_digit s ≡ true → All IsDigit s
all_digits [] h = tt
all_digits (c ∷ s) h = ground (arith, all_digits s)

-- A number that passes the test of the forms is its own normal form.
pub normalize_iranian_mobile-eq_self :
    (t : Text) → is_mobile t ≡ true → normalize_iranian_mobile t ≡ t
unfolding normalize_iranian_mobile is_mobile
normalize_iranian_mobile-eq_self t h = ground (arith, all_digits t, normalize_digits-eq_self t)

after_zero :
    (t d : Text)
    → normalize_digits t ≡ b'0' ∷ d
    → starts_with d (b'9' ∷ []) ≡ true
    → normalize_iranian_mobile t ≡ b'0' ∷ d
unfolding normalize_iranian_mobile starts_with
after_zero t [] e h = ground arith
after_zero t (c ∷ d) e h = rw e (ground arith)

after_country_code :
    (t d : Text)
    → (normalize_digits t ≡ b'9' ∷ b'8' ∷ d) ⊎ (normalize_digits t ≡ b'0' ∷ b'0' ∷ b'9' ∷ b'8' ∷ d)
    → normalize_iranian_mobile t ≡ b'0' ∷ d
unfolding normalize_iranian_mobile starts_with
after_country_code t d (inl e) = rw e
after_country_code t d (inr e) = rw e

-- A number typed with the country code, as `+98…` or as `0098…`, and the same number typed with
-- a leading zero have one normal form: a zero before the digits of the rest. The rest is typed in
-- any script and with any separators, and its first digit is 9.
pub normalize_iranian_mobile_spellings :
    (r : Text)
    → starts_with (normalize_digits r) (b'9' ∷ []) ≡ true
    → (normalize_iranian_mobile (b'+' ∷ b'9' ∷ b'8' ∷ r) ≡ b'0' ∷ normalize_digits r)
      × (normalize_iranian_mobile (b'0' ∷ b'0' ∷ b'9' ∷ b'8' ∷ r) ≡ b'0' ∷ normalize_digits r)
      × (normalize_iranian_mobile (b'0' ∷ r) ≡ b'0' ∷ normalize_digits r)
unfolding normalize_digits
normalize_iranian_mobile_spellings r s = (
  after_country_code _ _ (inl (normalize_digits-append (b'+' ∷ b'9' ∷ b'8' ∷ []) r)),
  after_country_code _ _ (inr (normalize_digits-append (b'0' ∷ b'0' ∷ b'9' ∷ b'8' ∷ []) r)),
  after_zero _ _ (normalize_digits-append (b'0' ∷ []) r) s,
)
