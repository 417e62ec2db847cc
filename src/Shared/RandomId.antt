-- ===== src/Shared/RandomId.antt =====
-- Random identifiers (web/src/shared.ts: randomID). The sixteen bytes of `crypto.getRandomValues`
-- are an argument; a byte is a number below 256.
use radif.Prelude.{
  get_elem?, arith, ◌≡◌, ap, length, ◌⊎◌, ◌<◌, refl, some, Option, ltb, if◌then◌else◌, take, drop,
  Text, ℕ, zero, suc, ◌+◌, ◌-◌, ◌/◌, ◌%◌, List, [], ◌∷◌, ◌++◌,
}

hex_digit : ℕ → ℕ
hex_digit n = if ltb n 10 then b'0' + n else b'a' + (n - 10)

-- `byte.toString(16).padStart(2, "0")`
hex_byte : ℕ → Text
unfolding hex_digit
hex_byte b = hex_digit (b / 16) ∷ hex_digit (b % 16) ∷ []

abbrev set_at : ℕ → (ℕ → ℕ) → List ℕ → List ℕ
set_at n f [] = []
set_at zero f (x ∷ xs) = f x ∷ xs
set_at (suc n) f (x ∷ xs) = x ∷ set_at n f xs

-- `(b & 0x0f) | 0x40` and `(b & 0x3f) | 0x80`: the bits that `|` sets are clear in the left operand
version_byte : ℕ → ℕ
version_byte b = b % 16 + 0x40

variant_byte : ℕ → ℕ
variant_byte b = b % 64 + 0x80

hex_text : List ℕ → Text
unfolding hex_byte
hex_text [] = []
hex_text (b ∷ bs) = hex_byte b ++ hex_text bs

abbrev slice : ℕ → ℕ → Text → Text
slice a b t = take (b - a) (drop a t)

pub random_id : List ℕ → Text
unfolding hex_text version_byte variant_byte
random_id bytes =
    let hex = hex_text (set_at 8 variant_byte (set_at 6 version_byte bytes)) in
    slice 0 8 hex
    ++ b'-' ∷ slice 8 12 hex
    ++ b'-' ∷ slice 12 16 hex
    ++ b'-' ∷ slice 16 20 hex
    ++ b'-' ∷ drop 20 hex

hex_digit_inj : (m n : ℕ) → m < 16 → n < 16 → hex_digit m ≡ hex_digit n → m ≡ n
unfolding hex_digit
hex_digit_inj m n p q e = ground arith

-- The first digit of the variant byte is one of 8, 9, a and b.
variant_digit :
    (b : ℕ)
    → let c = hex_digit ((b % 64 + 0x80) / 16) in (c ≡ b'8') ⊎ (c ≡ b'9') ⊎ (c ≡ b'a') ⊎ (c ≡ b'b')
unfolding hex_digit
variant_digit b = ground arith

version_digit : (b : ℕ) → hex_digit ((b % 16 + 0x40) / 16) ≡ b'4'
unfolding hex_digit
version_digit b = ground arith

abbrev pub IsVariant : Option ℕ → Type 0
IsVariant c = (c ≡ some b'8') ⊎ (c ≡ some b'9') ⊎ (c ≡ some b'a') ⊎ (c ≡ some b'b')

-- Sixteen bytes, whatever they are, give a text of 36 characters in the shape of a version 4 UUID:
-- dashes at positions 8, 13, 18 and 23, the version digit 4 at position 14, and at position 19 one
-- of the variant digits 8, 9, a and b.
pub random_id-IsUuid :
    (bytes : List ℕ)
    → length bytes ≡ 16
    → (length (random_id bytes) ≡ 36)
      × (get_elem? (random_id bytes) 8 ≡ some b'-')
      × (get_elem? (random_id bytes) 13 ≡ some b'-')
      × (get_elem? (random_id bytes) 18 ≡ some b'-')
      × (get_elem? (random_id bytes) 23 ≡ some b'-')
      × (get_elem? (random_id bytes) 14 ≡ some b'4')
      × IsVariant (get_elem? (random_id bytes) 19)
unfolding random_id
random_id-IsUuid (a ∷ b ∷ c ∷ d ∷ e ∷ f ∷ g ∷ h ∷ i ∷ j ∷ k ∷ l ∷ m ∷ n ∷ o ∷ p ∷ []) sixteen =
    (refl, refl, refl, refl, refl, ap some (version_digit g), ground (arith, variant_digit i))
random_id-IsUuid _ sixteen = absurd (omega arith)
