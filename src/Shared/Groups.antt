-- ===== src/Shared/Groups.antt =====
-- Card numbers and IBANs in groups of four (web/src/pages/AccountPage.tsx and
-- web/src/pages/PublicOrderPage.tsx: formatCardNumber, formatIBAN).
use radif.Prelude.{
  ◌==◌, Bool-cases, length, Text, ℕ, ◌≡◌, refl, sym, ◌∙◌, ap, inl, inr, Bool, true, false, ◌||◌,
  List, [], ◌∷◌, ◌++◌, append-nil, append_assoc, arith,
}
use radif.Shared.Digits.{normalize_digits, from_persian, from_arabic}
use radif.Shared.Digits.Laws.{normalize_digits-append}

-- What `.` of a regular expression does not match.
abbrev is_line_end : ℕ → Bool
is_line_end c = c == 10 || c == 13 || c == 0x2028 || c == 0x2029

abbrev flush : Text → List Text → List Text
flush [] rest = rest
flush (c ∷ s) rest = (c ∷ s) ∷ rest

-- `value.match(/.{1,4}/g)`, with the part of a group that is already read
groups_from : Text → Text → List Text
groups_from group [] = flush group []
groups_from group (c ∷ s) = elim (is_line_end c) [
  | true ↦ flush group (groups_from [] s)
  | false ↦ elim (length group == 3) [
    | true ↦ (group ++ c ∷ []) ∷ groups_from [] s
    | false ↦ groups_from (group ++ c ∷ []) s
  ]
]

join_spaced : List Text → Text
join_spaced [] = []
join_spaced (g ∷ []) = g
join_spaced (g ∷ h ∷ gs) = g ++ b' ' ∷ join_spaced (h ∷ gs)

-- `value.match(/.{1,4}/g)?.join(" ") ?? value`
in_fours : Text → List Text → Text
in_fours value [] = value
in_fours value (g ∷ gs) = join_spaced (g ∷ gs)

unfoldable pub format_card_number : Text → Text
unfolding in_fours groups_from join_spaced
format_card_number value = in_fours value (groups_from [] value)

unfoldable pub format_iban : Text → Text
unfolding in_fours groups_from join_spaced
format_iban value = in_fours value (groups_from [] value)

normalize_digits-join :
    (g : Text) (gs : List Text)
    → normalize_digits (join_spaced (g ∷ gs))
      ≡ normalize_digits g ++ normalize_digits (join_spaced gs)
unfolding join_spaced normalize_digits from_persian from_arabic
normalize_digits-join g [] = sym (append-nil _)
normalize_digits-join g (h ∷ gs) = normalize_digits-append g (b' ' ∷ join_spaced (h ∷ gs))

normalize_digits-flush :
    (g : Text) (gs : List Text)
    → normalize_digits (join_spaced (flush g gs))
      ≡ normalize_digits g ++ normalize_digits (join_spaced gs)
unfolding normalize_digits
normalize_digits-flush [] gs = refl
normalize_digits-flush (c ∷ g) gs = normalize_digits-join (c ∷ g) gs

normalize_digits-line_end :
    (c : ℕ) (s : Text) → is_line_end c ≡ true → normalize_digits (c ∷ s) ≡ normalize_digits s
unfolding normalize_digits from_persian from_arabic
normalize_digits-line_end c s h = ground arith

normalize_digits-snoc :
    (g s : Text) (c : ℕ)
    → normalize_digits (g ++ c ∷ []) ++ normalize_digits s
      ≡ normalize_digits g ++ normalize_digits (c ∷ s)
normalize_digits-snoc g s c =
    sym (normalize_digits-append (g ++ c ∷ []) s)
    ∙ ap normalize_digits (append_assoc g (c ∷ []) s)
    ∙ normalize_digits-append g (c ∷ s)

normalize_digits-groups_from :
    (g s : Text)
    → normalize_digits (join_spaced (groups_from g s)) ≡ normalize_digits g ++ normalize_digits s
unfolding groups_from join_spaced normalize_digits
normalize_digits-groups_from g [] = normalize_digits-flush g []
normalize_digits-groups_from g (c ∷ s) = elim (Bool-cases (is_line_end c)) [
  | inl e ↦
      rw (e, groups_from)
        (normalize_digits-flush g (groups_from [] s)
          ∙ ap (λ r. normalize_digits g ++ r)
              (normalize_digits-groups_from [] s ∙ sym (normalize_digits-line_end c s e)))
  | inr e ↦ elim (Bool-cases (length g == 3)) [
    | inl f ↦
        rw (e, f, groups_from)
          (normalize_digits-join (g ++ c ∷ []) (groups_from [] s)
            ∙ ap (λ r. normalize_digits (g ++ c ∷ []) ++ r) (normalize_digits-groups_from [] s)
            ∙ normalize_digits-snoc g s c)
    | inr f ↦
        rw (e, f, groups_from)
          (normalize_digits-groups_from (g ++ c ∷ []) s ∙ normalize_digits-snoc g s c)
  ]
]

normalize_digits-in_fours :
    (value : Text)
    → normalize_digits (in_fours value (groups_from [] value)) ≡ normalize_digits value
unfolding normalize_digits in_fours
normalize_digits-in_fours value =
    whole (groups_from [] value) (normalize_digits-groups_from [] value)
  where
    whole :
        (gs : List Text)
        → normalize_digits (join_spaced gs) ≡ normalize_digits value
        → normalize_digits (in_fours value gs) ≡ normalize_digits value
    whole [] h = refl
    whole (g ∷ gs) h = h

-- Writing a card number or an IBAN in groups of four changes none of its digits.
pub normalize_digits-format :
    (value : Text)
    → (normalize_digits (format_card_number value) ≡ normalize_digits value)
      × (normalize_digits (format_iban value) ≡ normalize_digits value)
unfolding format_card_number format_iban
normalize_digits-format value = (normalize_digits-in_fours value, normalize_digits-in_fours value)
