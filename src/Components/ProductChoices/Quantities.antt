-- ===== src/Components/ProductChoices/Quantities.antt =====
-- The choice as a customer's basket: a quantity for every product, 0 for one that is not chosen.
use radif.Prelude.{
  ◌==◌, if◌then◌else◌, Bool-cases, any, keep, ℕ, ◌+◌, ◌-◌, min, max, ◌≡◌, refl, ◌∙◌, ap, inl, inr,
  false, not, List, [], ◌∷◌, ◌++◌, arith,
}
use mathlib.Core.Path.{fun_ext}
use radif.Shared.Types.{Product}
use radif.Components.ProductChoices.{
  SelectedOrderItem, item_id, toggle, Change, less, more, changed_quantity, change_quantity,
}
use radif.Components.ProductChoices.Invariant.{
  IsChoice, Lacks, toggle-IsChoice, change_quantity-IsChoice,
}

pub quantity_of : List SelectedOrderItem → ℕ → ℕ
quantity_of [] id = 0
quantity_of (item ∷ items) id = if item_id item == id then item.quantity else quantity_of items id

-- A press of a product, or of a button for more or less of it.
pub data Press : Type 0 where
  on_product : Product → Press
  on_change : ℕ → Change → Press

pub press : Press → List SelectedOrderItem → List SelectedOrderItem
press (on_product product) items = toggle product items
press (on_change id change) items = change_quantity id change items

pub press_all : List Press → List SelectedOrderItem → List SelectedOrderItem
press_all [] items = items
press_all (p ∷ ps) items = press_all ps (press p items)

-- What a press does to a basket: a product goes from 0 to 1 or back to 0, and one that is in the
-- basket has one more or one less of it, from 1 to 99.
pub press_basket : Press → (ℕ → ℕ) → ℕ → ℕ
press_basket (on_product product) basket id =
    if product.id == id then (if basket id == 0 then 1 else 0) else basket id
press_basket (on_change product change) basket id =
    if product == id
    then (if basket id == 0
        then 0
        else (elim change [ less ↦ max 1 (basket id - 1) | more ↦ min 99 (basket id + 1) ]))
    else basket id

pub press_basket_all : List Press → (ℕ → ℕ) → ℕ → ℕ
press_basket_all [] basket = basket
press_basket_all (p ∷ ps) basket = press_basket_all ps (press_basket p basket)

quantity_of-Lacks :
    (id : ℕ) (items : List SelectedOrderItem) → Lacks id items → quantity_of items id ≡ 0
unfolding quantity_of
quantity_of-Lacks id [] h = refl
quantity_of-Lacks id (item ∷ items) h = ground (arith, quantity_of-Lacks id items)

quantity_of-kept :
    (id j : ℕ) (items : List SelectedOrderItem)
    → quantity_of (keep (λ item. not (item_id item == id)) items) j
      ≡ (if id == j then 0 else quantity_of items j)
unfolding quantity_of
quantity_of-kept id j [] = ground arith
quantity_of-kept id j (item ∷ items) = ground (arith, quantity_of-kept id j items)

-- A quantity of a choice is 0 exactly for a product that is not chosen.
quantity_of-any :
    (id : ℕ) (items : List SelectedOrderItem)
    → IsChoice items
    → (quantity_of items id == 0) ≡ not (any (λ item. item_id item == id) items)
unfolding quantity_of
quantity_of-any id [] h = refl
quantity_of-any id (item ∷ items) h = ground (arith, quantity_of-any id items)

quantity_of-append :
    (items : List SelectedOrderItem) (new : SelectedOrderItem) (j : ℕ)
    → any (λ item. item_id item == item_id new) items ≡ false
    → quantity_of (items ++ new ∷ []) j
      ≡ (if item_id new == j then new.quantity else quantity_of items j)
unfolding quantity_of
quantity_of-append [] new j h = refl
quantity_of-append (item ∷ items) new j h = ground (arith, quantity_of-append items new j)

quantity_of-toggle :
    (product : Product) (items : List SelectedOrderItem) (j : ℕ)
    → IsChoice items
    → quantity_of (toggle product items) j ≡ press_basket (on_product product) (quantity_of items) j
unfolding toggle press_basket
quantity_of-toggle product items j h =
    let new : SelectedOrderItem = record { product = product; quantity = 1 } in
    elim (Bool-cases (any (λ item. item_id item == product.id) items)) [
      | inl there ↦ rw there (
          ground (
            arith,
            quantity_of-kept product.id j items,
            quantity_of-any product.id items h,
            quantity_of-any j items h,
          ))
      | inr fresh ↦
          rw fresh (
            ground
              (arith, quantity_of-append items new j fresh, quantity_of-any product.id items h))
    ]

quantity_of-change_quantity :
    (id : ℕ) (change : Change) (items : List SelectedOrderItem) (j : ℕ)
    → IsChoice items
    → quantity_of (change_quantity id change items) j
      ≡ press_basket (on_change id change) (quantity_of items) j
unfolding change_quantity press_basket quantity_of changed_quantity
quantity_of-change_quantity id less [] j h = ground arith
quantity_of-change_quantity id more [] j h = ground arith
quantity_of-change_quantity id less (item ∷ items) j h =
    ground (arith, quantity_of-change_quantity id less items j)
quantity_of-change_quantity id more (item ∷ items) j h =
    ground (arith, quantity_of-change_quantity id more items j)

press-IsChoice :
    (p : Press) (items : List SelectedOrderItem) → IsChoice items → IsChoice (press p items)
unfolding press
press-IsChoice (on_product product) items h = toggle-IsChoice product items h
press-IsChoice (on_change id change) items h = change_quantity-IsChoice id change items h

quantity_of-press :
    (p : Press) (items : List SelectedOrderItem)
    → IsChoice items
    → quantity_of (press p items) ≡ press_basket p (quantity_of items)
unfolding press
quantity_of-press (on_product product) items h = fun_ext λ j. quantity_of-toggle product items j h
quantity_of-press (on_change id change) items h =
    fun_ext λ j. quantity_of-change_quantity id change items j h

-- Whatever is pressed from a well-formed choice on, the list holds for every product the quantity
-- that the presses give in a basket, in which a product has one quantity and the order of the list
-- does not count.
pub quantity_of-press_all :
    (ps : List Press) (items : List SelectedOrderItem)
    → IsChoice items
    → quantity_of (press_all ps items) ≡ press_basket_all ps (quantity_of items)
unfolding press_all press_basket_all
quantity_of-press_all [] items h = refl
quantity_of-press_all (p ∷ ps) items h =
    quantity_of-press_all ps (press p items) (press-IsChoice p items h)
    ∙ ap (press_basket_all ps) (quantity_of-press p items h)
