-- ===== src/Components/ProductChoices.antt =====
-- The products chosen for an order (web/src/components.tsx: ProductChoices), with the sum that
-- both order forms take of them.
pub mod Invariant
pub mod Quantities
pub mod View
use radif.Prelude.{
  ◌==◌, if◌then◌else◌, any, keep, ℕ, ◌+◌, ◌-◌, ◌*◌, min, max, Bool, not, List, [], ◌∷◌, ◌++◌, map,
}
use radif.Shared.Types.{Product}

pub record SelectedOrderItem : Type 0 where
  pub product : Product
  pub quantity : ℕ

abbrev pub item_id : SelectedOrderItem → ℕ
item_id item = item.product.id

unfoldable pub toggle : Product → List SelectedOrderItem → List SelectedOrderItem
toggle product items =
    if any (λ item. item_id item == product.id) items
    then keep (λ item. not (item_id item == product.id)) items
    else items ++ record { product = product; quantity = 1 } ∷ []

-- `Math.min(99, Math.max(1, item.quantity + change))` for the two changes that the buttons make
pub data Change : Type 0 where
  less more : Change

unfoldable pub changed_quantity : Change → ℕ → ℕ
changed_quantity less quantity = min 99 (max 1 (quantity - 1))
changed_quantity more quantity = min 99 (max 1 (quantity + 1))

unfoldable pub change_quantity : ℕ → Change → List SelectedOrderItem → List SelectedOrderItem
unfolding changed_quantity
change_quantity product_id change items = map change_one items
  where
    change_one : SelectedOrderItem → SelectedOrderItem
    change_one item =
        if item_id item == product_id
        then record item { quantity = changed_quantity change item.quantity }
        else item

-- The buttons are disabled at the two ends.
unfoldable pub less_disabled : SelectedOrderItem → Bool
less_disabled item = item.quantity == 1

unfoldable pub more_disabled : SelectedOrderItem → Bool
more_disabled item = item.quantity == 99

unfoldable pub items_total : List SelectedOrderItem → ℕ
items_total [] = 0
items_total (item ∷ items) = item.product.default_price * item.quantity + items_total items

-- The count that is shown below the products.
unfoldable pub items_count : List SelectedOrderItem → ℕ
items_count [] = 0
items_count (item ∷ items) = item.quantity + items_count items

-- The `items` of a request.
unfoldable pub request_items : List SelectedOrderItem → List (ℕ × ℕ)
request_items = map (λ item. (item_id item, item.quantity))
