-- ===== src/Orders/Sorting.antt =====
-- The choice of a sort in the list's menu (web/src/pages/OrdersPage.tsx).
use radif.Prelude.{
  if◌then◌else◌, Bool-cases, is_empty, text, text_eq, Text, text_eq_sound, ◌≡◌, refl, sym, ◌∙◌,
  subst, inl, inr, Bool, true, false, not, ◌||◌, List, [], ◌∷◌, ◌++◌,
}
use mathlib.Core.Bool.{false≢true}
use radif.Orders.Filters.{
  Params, View, active, archive, view_of, search_of, normalized_search, includes, allowed_sorts,
  default_sort, chosen_sort, sort_of, by_sort, text_or_none, set_filter, invalid_sort, bad_sort,
}

-- The options of the menu, each with the condition under which it is drawn.
unfoldable pub shown_if : Bool → Text → List Text
shown_if true t = t ∷ []
shown_if false t = []

unfoldable pub is_active : View → Bool
is_active active = true
is_active archive = false

unfoldable pub sort_options : Params → List Text
sort_options p =
    let searched = not (is_empty (normalized_search p)) in
    shown_if (is_active (view_of p) || searched) (text "due")
    ++ shown_if (not (is_active (view_of p)) || searched) (text "updated")
    ++ text "recent" ∷ text "amount" ∷ []

-- The handler of the menu: the default sort is not named in the address.
unfoldable pub pick_sort : Text → Params → Params
pick_sort value p =
    set_filter by_sort
      (if text_eq value (default_sort (normalized_search p) (view_of p)) then [] else value) p

-- The menu offers exactly the sorts that the address may name.
sort_options-eq-allowed_sorts :
    (p : Params) → sort_options p ≡ allowed_sorts (normalized_search p) (view_of p)
unfolding sort_options allowed_sorts shown_if is_active
sort_options-eq-allowed_sorts p = options (normalized_search p) (view_of p)
  where
    options :
        (t : Text) (v : View)
        → shown_if (is_active v || not (is_empty t)) (text "due")
            ++ shown_if (not (is_active v) || not (is_empty t)) (text "updated")
            ++ text "recent" ∷ text "amount" ∷ []
          ≡ allowed_sorts t v
    options [] active = refl
    options [] archive = refl
    options (c ∷ t) active = refl
    options (c ∷ t) archive = refl

no_empty_sort : (t : Text) (v : View) → includes (allowed_sorts t v) [] ≡ false
unfolding includes allowed_sorts text text_eq
no_empty_sort (_ ∷ _) _ = refl
no_empty_sort [] active = refl
no_empty_sort [] archive = refl

-- The sort that the address holds after a pick, read back and judged.
chosen_sort-picked :
    (value t : Text) (v : View)
    → includes (allowed_sorts t v) value ≡ true
    → let named = text_or_none (if text_eq value (default_sort t v) then [] else value) in
      (chosen_sort named (allowed_sorts t v) (default_sort t v) ≡ value)
      × (bad_sort named t v ≡ false)
unfolding chosen_sort bad_sort text_or_none
chosen_sort-picked [] t v h = absurd (false≢true (sym (no_empty_sort t v) ∙ h))
chosen_sort-picked (c ∷ value) t v h = elim (Bool-cases (text_eq (c ∷ value) (default_sort t v))) [
  | inl same ↦ rw same (sym (text_eq_sound (c ∷ value) (default_sort t v) same), refl)
  | inr other ↦ rw (other, h) (refl, refl)
]

-- A sort that is picked from the menu is the one that the page shows afterwards, also the default
-- one, and it leaves an address whose sort the cleaning effect accepts.
pub sort_of-pick_sort :
    (value : Text) (p : Params)
    → includes (sort_options p) value ≡ true
    → (sort_of (pick_sort value p) ≡ value) × (invalid_sort (pick_sort value p) ≡ false)
unfolding pick_sort set_filter sort_of invalid_sort normalized_search search_of view_of
sort_of-pick_sort value p h =
    chosen_sort-picked value (normalized_search p) (view_of p)
      (subst (λ ts. includes ts value ≡ true) (sort_options-eq-allowed_sorts p) h)
