-- ===== src/Examples/Sharing.antt =====
-- Addresses, messages, digits, identifiers and files.
use radif.Prelude.{
  get_elem?, length, text, starts_with, decimal, decimal-IsDigit, Text, ℕ, ◌≡◌, refl, false, some,
  List, [], ◌∷◌, arith,
}
use radif.Shared.Api.{fulfilled}
use radif.Orders.Listing as Listing
use radif.Orders.Stale.{more_asked, run, late_answers_ignored}
use radif.Shared.Share.{Placeholder, replace_placeholders}
use radif.Shared.Share.Laws.{reading, IsReading, template_text, fill, replace_placeholders-eq-fill}
use radif.Shared.Digits.{normalize_digits, normalize_iranian_mobile, persian_digits}
use radif.Shared.Digits.Laws.{normalize_iranian_mobile_spellings, normalize_digits-persian_digits}
use radif.Shared.RandomId.{random_id, IsVariant, random_id-IsUuid}

abbrev no_orders : Listing.Page
no_orders = record { orders = []; has_more = false; active_count = 0; archived_count = 3 }

late_answers_ignored_example :
    let t = run (more_asked ∷ []) (Listing.start Listing.init) in
    (Listing.first_answered 0 false (fulfilled no_orders) t ≡ t)
    × (Listing.more_answered 0 (fulfilled no_orders) t ≡ t)
late_answers_ignored_example =
    late_answers_ignored 0 false (fulfilled no_orders) (more_asked ∷ []) Listing.init (omega arith)

abbrev value_of : Placeholder → Text
value_of _ = text "{shopName}"

abbrev template : Text
template = text "{foo}{{shopName}}"

replace_placeholders-eq-fill_example :
    (template_text (reading template) ≡ template)
    × IsReading (reading template)
    × (replace_placeholders value_of template ≡ fill value_of (reading template))
replace_placeholders-eq-fill_example = replace_placeholders-eq-fill value_of template

normalize_iranian_mobile_spellings_example :
    let r = text " 912-345 6789" in
    (normalize_iranian_mobile (b'+' ∷ b'9' ∷ b'8' ∷ r) ≡ b'0' ∷ normalize_digits r)
    × (normalize_iranian_mobile (b'0' ∷ b'0' ∷ b'9' ∷ b'8' ∷ r) ≡ b'0' ∷ normalize_digits r)
    × (normalize_iranian_mobile (b'0' ∷ r) ≡ b'0' ∷ normalize_digits r)
unfolding text starts_with normalize_digits
normalize_iranian_mobile_spellings_example =
    normalize_iranian_mobile_spellings (text " 912-345 6789") refl

normalize_digits-persian_digits_example :
    normalize_digits (persian_digits (decimal 250000)) ≡ decimal 250000
normalize_digits-persian_digits_example =
    normalize_digits-persian_digits (decimal 250000) (decimal-IsDigit 250000)

abbrev sixteen_bytes : List ℕ
sixteen_bytes =
    0 ∷ 255 ∷ 17 ∷ 34 ∷ 51 ∷ 68 ∷ 85 ∷ 102 ∷ 119 ∷ 136 ∷ 153 ∷ 170 ∷ 187 ∷ 204 ∷ 221 ∷ 238 ∷ []

random_id-IsUuid_example :
    (length (random_id sixteen_bytes) ≡ 36)
    × (get_elem? (random_id sixteen_bytes) 8 ≡ some b'-')
    × (get_elem? (random_id sixteen_bytes) 13 ≡ some b'-')
    × (get_elem? (random_id sixteen_bytes) 18 ≡ some b'-')
    × (get_elem? (random_id sixteen_bytes) 23 ≡ some b'-')
    × (get_elem? (random_id sixteen_bytes) 14 ≡ some b'4')
    × IsVariant (get_elem? (random_id sixteen_bytes) 19)
random_id-IsUuid_example = random_id-IsUuid sixteen_bytes refl
