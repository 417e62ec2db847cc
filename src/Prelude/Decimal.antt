-- ===== src/Prelude/Decimal.antt =====
-- Numbers printed in decimal, and texts of digits read back.
use Prim.Native.Nat.{ℕ, zero, suc, ◌+◌, ◌-◌, ◌*◌, ◌/◌, ◌%◌, ◌<◌}
use mathlib.Core.Path.{◌≡◌, refl}
use mathlib.Core.List.{[], ◌∷◌, ◌++◌}
use native.Mathlib.Omega.{arith}
use radif.Prelude.Tests.{ltb, if◌then◌else◌}
use radif.Prelude.Lists.{All, All-append}
use radif.Prelude.Texts.{Text, IsDigit}

digits_fuel : ℕ → ℕ → Text
digits_fuel zero n = []
digits_fuel (suc fuel) n =
    let more = digits_fuel fuel (n / 10) ++ (b'0' + n % 10) ∷ [] in
    if ltb n 10 then (b'0' + n) ∷ [] else more

-- `String(n)` of a natural number below 10 ^ 21.
unfoldable pub decimal : ℕ → Text
unfolding digits_fuel
decimal n = digits_fuel (suc n) n

number_from : ℕ → Text → ℕ
number_from acc [] = acc
number_from acc (c ∷ s) = number_from (acc * 10 + (c - b'0')) s

-- `Number(s)` of a text of decimal digits, the empty text included.
unfoldable pub number : Text → ℕ
unfolding number_from
number s = number_from 0 s

digits_fuel-IsDigit : (fuel n : ℕ) → All IsDigit (digits_fuel fuel n)
unfolding digits_fuel
digits_fuel-IsDigit zero n = tt
digits_fuel-IsDigit (suc fuel) n = ground (
  arith,
  All-append IsDigit (digits_fuel fuel (n / 10)) ((b'0' + n % 10) ∷ [])
      (digits_fuel-IsDigit fuel (n / 10)) (omega arith),
)

pub decimal-IsDigit : (n : ℕ) → All IsDigit (decimal n)
unfolding decimal
decimal-IsDigit n = digits_fuel-IsDigit (suc n) n

number_from-append :
    (acc : ℕ) (s : Text) (c : ℕ)
    → number_from acc (s ++ c ∷ []) ≡ number_from acc s * 10 + (c - b'0')
unfolding number_from
number_from-append acc [] c = refl
number_from-append acc (d ∷ s) c = number_from-append (acc * 10 + (d - b'0')) s c

number-digits_fuel : (fuel n : ℕ) → n < fuel → number_from 0 (digits_fuel fuel n) ≡ n
unfolding digits_fuel number_from
number-digits_fuel zero n h = elim h [ ]
number-digits_fuel (suc fuel) n h = ground (
  arith,
  number_from-append 0 (digits_fuel fuel (n / 10)) (b'0' + n % 10),
  number-digits_fuel fuel (n / 10),
)

pub number-decimal : (n : ℕ) → number (decimal n) ≡ n
unfolding number decimal
number-decimal n = number-digits_fuel (suc n) n (omega arith)

-- A leading zero does not count.
pub number-zero : (t : Text) → number (b'0' ∷ t) ≡ number t
unfolding number number_from
number-zero t = refl
