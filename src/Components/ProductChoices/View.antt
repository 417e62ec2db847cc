-- ===== src/Components/ProductChoices/View.antt =====
-- What the choice of products draws (web/src/components.tsx: ProductChoices). The name of a product
-- stands for the label of its button.
use radif.Prelude.{
  ◌==◌, length, find, is_empty, text, ℕ, ◌≡◌, refl, Bool, false, not, Option, none, some, List, [],
  ◌∷◌, ◌++◌, arith,
}
use radif.Shared.Types.{Product}
use radif.Shared.Drawing.{
  Node, words, picture, button, Display, when, when_some, flat_map, offers, offers-when_some,
  offers-flat_map, offer_laws, ways_out, ways_out-append, ways_out-flat_map, ways_out-when,
  ways_out-when_some,
}
use radif.Shared.Labels.{tomans}
use radif.Components.Labels.{fewer_label, items_of, products_chosen}
use radif.Components.ProductChoices.{
  SelectedOrderItem, item_id, Change, less, more, less_disabled, more_disabled, items_count,
}

-- `toggled` and `changed` are the handlers of the page for what the component hands on.
module _ {A : Type 0} (d : Display) (toggled : Product → A) (changed : ℕ → Change → A) where
  abbrev pub quantity_nodes : Product → Option SelectedOrderItem → List (Node A)
  quantity_nodes product none = []
  quantity_nodes product (some item) =
      button fewer_label (less_disabled item) (changed product.id less)
      ∷ words (d.number item.quantity)
      ∷ button (text "+") (more_disabled item) (changed product.id more)
      ∷ []

  abbrev pub product_nodes : List SelectedOrderItem → Product → List (Node A)
  product_nodes items product =
      picture product.image_path
      ∷ button product.name false (toggled product)
      ∷ (when_some product.short_description (λ t. words t ∷ [])
          ++ words (d.number product.default_price ++ tomans)
            ∷ quantity_nodes product (find (λ item. item_id item == product.id) items))

  unfoldable pub choices_view : List Product → List SelectedOrderItem → List (Node A)
  choices_view products items =
      flat_map (product_nodes items) products
      ++ when (not (is_empty items)) (
          words (
            d.number (items_count items)
            ++ (items_of ++ (d.number (length items) ++ products_chosen)))
          ∷ [])

  -- A test that passes no handler of the choices finds nothing to press.
  module _ (p : A → Bool) (no_toggle : (product : Product) → p (toggled product) ≡ false)
      (no_change : (id : ℕ) (change : Change) → p (changed id change) ≡ false) where
    offers-quantity :
        (product : Product) (item : Option SelectedOrderItem)
        → offers p (quantity_nodes product item) ≡ false
    unfolding offers
    offers-quantity product none = refl
    offers-quantity product (some item) =
        ground (arith, no_change product.id less, no_change product.id more)

    offers-product :
        (items : List SelectedOrderItem) (product : Product)
        → offers p (product_nodes items product) ≡ false
    unfolding offers
    offers-product items product = simp (
      offer_laws,
      offers-when_some p product.short_description (λ t. words t ∷ []) (λ u. refl),
      offers-quantity product (find (λ item. item_id item == product.id) items),
      no_toggle product,
    )

    pub offers-choices :
        (products : List Product) (items : List SelectedOrderItem)
        → offers p (choices_view products items) ≡ false
    unfolding offers choices_view
    offers-choices products items =
        simp (offer_laws, offers-flat_map p (product_nodes items) products (offers-product items))
          (ground arith)

  ways_out-quantity :
      (k : Bool) (product : Product) (item : Option SelectedOrderItem)
      → ways_out k (quantity_nodes product item) ≡ []
  unfolding ways_out
  ways_out-quantity k product none = refl
  ways_out-quantity k product (some item) = refl

  ways_out-product :
      (k : Bool) (items : List SelectedOrderItem) (product : Product)
      → ways_out k (product_nodes items product) ≡ []
  unfolding ways_out
  ways_out-product k items product = simp (
    ways_out-append,
    ways_out-when_some k product.short_description (λ t. words t ∷ []) (λ u. refl),
    ways_out-quantity k product (find (λ item. item_id item == product.id) items),
  )

  pub ways_out-choices :
      (k : Bool) (products : List Product) (items : List SelectedOrderItem)
      → ways_out k (choices_view products items) ≡ []
  unfolding ways_out choices_view
  ways_out-choices k products items =
      simp
        (
          ways_out-append,
          ways_out-flat_map k (product_nodes items) products (ways_out-product k items),
          ways_out-when k (not (is_empty items)),
        )
        (ground arith)
