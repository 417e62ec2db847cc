-- ===== src/Shared/Share/Laws.antt =====
-- What a template becomes, part by part.
use radif.Prelude.{
  Option-cases, length, drop, text, starts_with, Text, ℕ, zero, suc, ◌-◌, ◌≤◌, ◌≡◌, refl, sym, ◌∙◌,
  ap, inl, inr, true, false, none, some, List, [], ◌∷◌, ◌++◌, arith,
}
use mathlib.Core.Bool.{false≢true}
use radif.Shared.Share.{Placeholder, shop_name, order_code, customer_url, amount, delivery_date}
use radif.Shared.Share.{placeholder_text, placeholder_at, replace_from, replace_placeholders}

-- A template in parts: units of text, and placeholders.
pub data Part : Type 0 where
  unit : ℕ → Part
  placeholder : Placeholder → Part

abbrev pub template_text : List Part → Text
template_text [] = []
template_text (unit c ∷ ps) = c ∷ template_text ps
template_text (placeholder p ∷ ps) = placeholder_text p ++ template_text ps

abbrev pub fill : (Placeholder → Text) → List Part → Text
fill values [] = []
fill values (unit c ∷ ps) = c ∷ fill values ps
fill values (placeholder p ∷ ps) = values p ++ fill values ps

-- That no placeholder is left among the units: none starts at a unit.
abbrev pub IsReading : List Part → Type 0
IsReading [] = Unit
IsReading (unit c ∷ ps) =
    ((q : Placeholder) → starts_with (c ∷ template_text ps) (placeholder_text q) ≡ false)
    × IsReading ps
IsReading (placeholder p ∷ ps) = IsReading ps

-- The parts of a text after `skip` units, read from the left.
abbrev reading_from : ℕ → Text → List Part
reading_from skip [] = []
reading_from (suc skip) (c ∷ s) = reading_from skip s
reading_from zero (c ∷ s) = elim (placeholder_at (c ∷ s)) [
  | none ↦ unit c ∷ reading_from zero s
  | some (p, n) ↦ placeholder p ∷ reading_from (n - 1) s
]

abbrev pub reading : Text → List Part
reading t = reading_from zero t

starts_with-drop : (s w : Text) → starts_with s w ≡ true → w ++ drop (length w) s ≡ s
unfolding starts_with
starts_with-drop s [] h = refl
starts_with-drop [] (d ∷ w) h = absurd (false≢true h)
starts_with-drop (c ∷ s) (d ∷ w) h = ground (arith, h, starts_with-drop s w)

placeholder_at-none :
    (s : Text) (q : Placeholder)
    → placeholder_at s ≡ none
    → starts_with s (placeholder_text q) ≡ false
unfolding placeholder_at placeholder_text
placeholder_at-none s shop_name e = ground arith
placeholder_at-none s order_code e = ground arith
placeholder_at-none s customer_url e = ground arith
placeholder_at-none s amount e = ground arith
placeholder_at-none s delivery_date e = ground arith

-- What matches, and how long it is.
placeholder_at-some :
    (s : Text) (p : Placeholder) (n : ℕ)
    → placeholder_at s ≡ some (p, n)
    → (starts_with s (placeholder_text p) ≡ true) × (n ≡ length (placeholder_text p)) × (1 ≤ n)
unfolding placeholder_at placeholder_text text
placeholder_at-some s shop_name n e = (ground arith, ground arith, ground arith)
placeholder_at-some s order_code n e = (ground arith, ground arith, ground arith)
placeholder_at-some s customer_url n e = (ground arith, ground arith, ground arith)
placeholder_at-some s amount n e = (ground arith, ground arith, ground arith)
placeholder_at-some s delivery_date n e = (ground arith, ground arith, ground arith)

drop-suc : (n c : ℕ) (s : Text) → 1 ≤ n → drop n (c ∷ s) ≡ drop (n - 1) s
drop-suc zero c s h = absurd (omega (arith, h))
drop-suc (suc n) c s h = let e : n ≡ suc n - 1 = omega arith in ap (λ k. drop k s) e

match-drop :
    (c : ℕ) (s : Text) (p : Placeholder) (n : ℕ)
    → placeholder_at (c ∷ s) ≡ some (p, n)
    → placeholder_text p ++ drop (n - 1) s ≡ c ∷ s
match-drop c s p n e =
    let (starts, long, some_unit) = placeholder_at-some (c ∷ s) p n e in
    ap (λ r. placeholder_text p ++ r)
      (sym (drop-suc n c s some_unit) ∙ ap (λ k. drop k (c ∷ s)) long)
    ∙ starts_with-drop (c ∷ s) (placeholder_text p) starts

template_text-reading_from :
    (skip : ℕ) (s : Text) → template_text (reading_from skip s) ≡ drop skip s
template_text-reading_from zero [] = refl
template_text-reading_from (suc skip) [] = refl
template_text-reading_from (suc skip) (c ∷ s) = template_text-reading_from skip s
template_text-reading_from zero (c ∷ s) = elim (Option-cases (placeholder_at (c ∷ s))) [
  | inl e ↦ rw (e, reading_from) (ap (λ r. c ∷ r) (template_text-reading_from zero s))
  | inr ((p, n), e) ↦
      rw (e, reading_from)
        (ap (λ r. placeholder_text p ++ r) (template_text-reading_from (n - 1) s)
          ∙ match-drop c s p n e)
]

reading_from-IsReading : (skip : ℕ) (s : Text) → IsReading (reading_from skip s)
reading_from-IsReading zero [] = tt
reading_from-IsReading (suc skip) [] = tt
reading_from-IsReading (suc skip) (c ∷ s) = reading_from-IsReading skip s
reading_from-IsReading zero (c ∷ s) = elim (Option-cases (placeholder_at (c ∷ s))) [
  | inl e ↦
      rw (e, reading_from)
        (
          λ q.
              ap (λ r. starts_with (c ∷ r) (placeholder_text q)) (template_text-reading_from zero s)
              ∙ placeholder_at-none (c ∷ s) q e,
          reading_from-IsReading zero s,
        )
  | inr ((p, n), e) ↦ rw (e, reading_from) (reading_from-IsReading (n - 1) s)
]

replace_from-fill :
    (values : Placeholder → Text) (skip : ℕ) (s : Text)
    → replace_from values skip s ≡ fill values (reading_from skip s)
unfolding replace_from
replace_from-fill values zero [] = refl
replace_from-fill values (suc skip) [] = refl
replace_from-fill values (suc skip) (c ∷ s) = replace_from-fill values skip s
replace_from-fill values zero (c ∷ s) = elim (Option-cases (placeholder_at (c ∷ s))) [
  | inl e ↦ rw (e, replace_from, reading_from) (ap (λ r. c ∷ r) (replace_from-fill values zero s))
  | inr ((p, n), e) ↦
      rw (e, replace_from, reading_from)
        (ap (λ r. values p ++ r) (replace_from-fill values (n - 1) s))
]

-- Every template, whatever braces it holds, is read as units of text and placeholders that together are
-- its text, with no placeholder starting at any of the units. Every placeholder of that reading is
-- replaced by its value, and the units stay as they are. The values are not searched again.
pub replace_placeholders-eq-fill :
    (values : Placeholder → Text) (t : Text)
    → (template_text (reading t) ≡ t)
      × IsReading (reading t)
      × (replace_placeholders values t ≡ fill values (reading t))
unfolding replace_placeholders
replace_placeholders-eq-fill values t = (
  template_text-reading_from zero t,
  reading_from-IsReading zero t,
  replace_from-fill values zero t,
)
