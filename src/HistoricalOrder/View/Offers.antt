-- ===== src/HistoricalOrder/View/Offers.antt =====
-- Which buttons and links the page of an old order offers.
use radif.Prelude.{
  if◌then◌else◌, Bool-cases, is_empty, trim, Text, ℕ, ◌≡◌, refl, inl, inr, Bool, true, false, not,
  ◌&&◌, ◌||◌, Option, none, some, [], ◌∷◌, arith,
}
use radif.Shared.Types.{CreatedOrder}
use radif.Shared.Api.{File}
use radif.Shared.Drawing.{
  words, notice, retry_notice, Display, offers, offer_laws, offers-when_text, offers-flat_map,
  ways_out, ways_out-append, ways_out-when_text, ways_out-flat_map,
}
use radif.Components.ProductChoices.View.{offers-choices}
use radif.Components.ReceiptPicker.View.{receipt_view}
use radif.HistoricalOrder.State.{State}
use radif.HistoricalOrder.Fields.{submit_disabled}
use radif.HistoricalOrder.View.{
  Handler, load, open_picker, remove_receipt, toggled, changed, back, review, submit, is_serious,
  item_nodes, reviewed, review_view, created_part, products_part, fields_part, review_disabled,
  form_view, view,
}

-- The buttons that go on from a form or from its review, and back from a review.
abbrev pub offered : (Handler → Bool) → State → Bool
offered p s =
    if s.reviewing
    then (not s.pending && p back) || (not (submit_disabled s) && p submit)
    else not (review_disabled s) && p review

module _ (p : Handler → Bool) (plain : (a : Handler) → is_serious a ≡ false → p a ≡ false)
    (d : Display) (s : State) where
  offers-reviewed : offers p (reviewed d s) ≡ false
  unfolding offers reviewed
  offers-reviewed = simp (
    offer_laws,
    offers-when_text p s.customer.postal_code (λ t. words t ∷ []) (λ u. refl),
    offers-when_text p (trim s.conversation_reference) (λ t. words t ∷ []) (λ u. refl),
    offers-when_text p (trim s.note) (λ t. words t ∷ []) (λ u. refl),
  )

  offers-review :
      offers p (review_view d s)
      ≡ ((not s.pending && p back) || (not (submit_disabled s) && p submit))
  unfolding offers review_view item_nodes
  offers-review =
      simp
        (
          offer_laws,
          offers-reviewed,
          offers-flat_map p (item_nodes d) s.items (λ i. refl),
          offers-when_text p s.error (λ e. notice e ∷ []) (λ u. refl),
        )
        (ground arith)

  offers-created : (order : Option CreatedOrder) → offers p (created_part order) ≡ false
  unfolding offers created_part
  offers-created none = refl
  offers-created (some order) = refl

  offers-products : offers p (products_part d s) ≡ false
  unfolding offers products_part is_serious
  offers-products =
      simp
        (
          offer_laws,
          offers-choices d toggled changed p (λ product. plain (toggled product) refl)
              (λ id change. plain (changed id change) refl) s.products s.items,
          offers-when_text p s.load_error (λ e. retry_notice e load ∷ [])
              (λ u. ground (arith, plain load)),
        )
        (ground arith)

  offers-receipt :
      (megabytes : ℕ → Text) (preview : Text) (busy : Bool) (file : Option File)
      → offers p (receipt_view megabytes open_picker remove_receipt busy file preview) ≡ false
  unfolding offers receipt_view is_serious
  offers-receipt megabytes preview true file = refl
  offers-receipt megabytes preview false none = ground (arith, plain open_picker)
  offers-receipt megabytes preview false (some file) =
      ground (arith, plain open_picker, plain remove_receipt)

  offers-fields :
      (megabytes : ℕ → Text) (preview : Text) → offers p (fields_part megabytes preview d s) ≡ false
  unfolding offers fields_part
  offers-fields megabytes preview =
      simp (offer_laws, offers-receipt megabytes preview s.receipt_busy s.receipt)

  offers-form :
      (megabytes : ℕ → Text) (preview shop_name : Text)
      → offers p (form_view megabytes preview d shop_name s) ≡ (not (review_disabled s) && p review)
  unfolding offers form_view
  offers-form megabytes preview shop_name =
      simp
        (
          offer_laws,
          offers-created s.created,
          offers-products,
          offers-fields megabytes preview,
          offers-when_text p s.error (λ e. notice e ∷ []) (λ u. refl),
        )
        (ground arith)

ways_out-review : (k : Bool) (d : Display) (s : State) → ways_out k (review_view d s) ≡ []
unfolding ways_out review_view reviewed item_nodes
ways_out-review k d s = simp (
  ways_out-append,
  ways_out-flat_map k (item_nodes d) s.items (λ i. refl),
  ways_out-when_text k s.customer.postal_code (λ t. words t ∷ []) (λ u. refl),
  ways_out-when_text k (trim s.conversation_reference) (λ t. words t ∷ []) (λ u. refl),
  ways_out-when_text k (trim s.note) (λ t. words t ∷ []) (λ u. refl),
  ways_out-when_text k s.error (λ e. notice e ∷ []) (λ u. refl),
)

-- The order is only sent from its review: there the page offers to go back unless it is pending, and to
-- send unless it is pending or a receipt is being prepared, and has no link that leaves. From the form
-- it offers the review alone, where there are products, and nothing is pending, loading or prepared.
pub offers-view :
    (p : Handler → Bool) (megabytes : ℕ → Text) (preview : Text) (d : Display) (shop_name : Text)
    (s : State) (k : Bool)
    → ((a : Handler) → is_serious a ≡ false → p a ≡ false)
    → (offers p (view megabytes preview d shop_name s) ≡ offered p s)
      × ((s.reviewing && not (is_empty (ways_out k (view megabytes preview d shop_name s))))
          ≡ false)
unfolding view
offers-view p megabytes preview d shop_name s k plain = elim (Bool-cases s.reviewing) [
  | inl e ↦ (simp e (offers-review p plain d s), simp (e, ways_out-review k d s))
  | inr e ↦ (simp e (offers-form p plain d s megabytes preview shop_name), simp e)
]
