-- ===== src/Components/ProductChoices/Invariant.antt =====
-- A choice names each product once, with a quantity from 1 to 99, whatever buttons are pressed.
use radif.Prelude.{
  ◌==◌, Bool-cases, any, keep, ℕ, ◌≤◌, ◌≡◌, refl, ◌≢◌, inl, inr, Bool, false, not, List, [], ◌∷◌,
  ◌++◌, arith,
}
use radif.Shared.Types.{Product}
use radif.Components.ProductChoices.{SelectedOrderItem, item_id, toggle, Change, less, more}
use radif.Components.ProductChoices.{changed_quantity, change_quantity}

abbrev pub Lacks : ℕ → List SelectedOrderItem → Type 0
Lacks id [] = Unit
Lacks id (item ∷ items) = (item_id item ≢ id) × Lacks id items

abbrev pub IsChoice : List SelectedOrderItem → Type 0
IsChoice [] = Unit
IsChoice (item ∷ items) =
    (1 ≤ item.quantity) × (item.quantity ≤ 99) × Lacks (item_id item) items × IsChoice items

abbrev kept : ℕ → List SelectedOrderItem → List SelectedOrderItem
kept id = keep (λ item. not (item_id item == id))

has : ℕ → List SelectedOrderItem → Bool
has id = any (λ item. item_id item == id)

Lacks-kept : (id j : ℕ) (items : List SelectedOrderItem) → Lacks j items → Lacks j (kept id items)
Lacks-kept id j [] h = tt
Lacks-kept id j (item ∷ items) h = ground (arith, Lacks-kept id j items)

IsChoice-kept :
    (id : ℕ) (items : List SelectedOrderItem) → IsChoice items → IsChoice (kept id items)
IsChoice-kept id [] h = tt
IsChoice-kept id (item ∷ items) h =
    ground (arith, IsChoice-kept id items, Lacks-kept id (item_id item) items)

kept-Lacks : (id : ℕ) (items : List SelectedOrderItem) → Lacks id (kept id items)
kept-Lacks id [] = tt
kept-Lacks id (item ∷ items) = ground (arith, kept-Lacks id items)

not_has : (id : ℕ) (items : List SelectedOrderItem) → has id items ≡ false → Lacks id items
unfolding has
not_has id [] h = tt
not_has id (item ∷ items) h = ground (arith, not_has id items)

Lacks-append :
    (id : ℕ) (xs : List SelectedOrderItem) (x : SelectedOrderItem)
    → Lacks id xs
    → item_id x ≢ id
    → Lacks id (xs ++ x ∷ [])
Lacks-append id [] x h p = (p, tt)
Lacks-append id (y ∷ xs) x (q, h) p = (q, Lacks-append id xs x h p)

IsChoice-append :
    (xs : List SelectedOrderItem) (x : SelectedOrderItem)
    → IsChoice xs
    → Lacks (item_id x) xs
    → x.quantity ≡ 1
    → IsChoice (xs ++ x ∷ [])
IsChoice-append [] x h l q = ground arith
IsChoice-append (y ∷ xs) x h l q =
    ground (arith, IsChoice-append xs x, Lacks-append (item_id y) xs x)

-- Pressing a product keeps a choice well formed.
pub toggle-IsChoice :
    (product : Product) (items : List SelectedOrderItem)
    → IsChoice items
    → IsChoice (toggle product items)
unfolding toggle has
toggle-IsChoice product items h = elim (Bool-cases (has product.id items)) [
  | inl there ↦ rw there (IsChoice-kept product.id items h)
  | inr new ↦ rw new (IsChoice-append items _ h (not_has product.id items new) refl)
]

Lacks-change_quantity :
    (id j : ℕ) (change : Change) (items : List SelectedOrderItem)
    → Lacks j items
    → Lacks j (change_quantity id change items)
unfolding change_quantity
Lacks-change_quantity id j change [] h = tt
Lacks-change_quantity id j change (item ∷ items) h =
    ground (arith, Lacks-change_quantity id j change items)

changed_quantity_bounds :
    (c : Change) (q : ℕ) → (1 ≤ changed_quantity c q) × (changed_quantity c q ≤ 99)
unfolding changed_quantity
changed_quantity_bounds less q = omega arith
changed_quantity_bounds more q = omega arith

-- Pressing a button for more or less keeps a choice well formed.
pub change_quantity-IsChoice :
    (id : ℕ) (change : Change) (items : List SelectedOrderItem)
    → IsChoice items
    → IsChoice (change_quantity id change items)
unfolding change_quantity
change_quantity-IsChoice id change [] h = tt
change_quantity-IsChoice id change (item ∷ items) h = ground (
  arith,
  change_quantity-IsChoice id change items,
  changed_quantity_bounds change item.quantity,
  Lacks-change_quantity id (item_id item) change items,
)
