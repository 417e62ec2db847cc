-- ===== src/CreateOrder/View/Offers.antt =====
-- Which buttons and links the page of a new order offers.
use radif.Prelude.{
  is_empty, Text, ◌≡◌, refl, Bool, false, not, ◌&&◌, ◌||◌, Option, none, some, [], ◌∷◌, arith,
}
use radif.Shared.Types.{CreatedOrder}
use radif.Shared.Drawing.{
  words, notice, retry_notice, Display, offers, offer_laws, offers-when_text,
}
use radif.Components.ProductChoices.View.{offers-choices}
use radif.CreateOrder.State.{State, CopyState, idle, copying, copied, shared, failed}
use radif.CreateOrder.Fields.{open_date_editor, close_date_editor}
use radif.CreateOrder.View.{
  Handler, load, toggled, changed, change, copy_message, share_order, copy_link, submit, save_date,
  reset, is_serious, copy_state_label, link_copy_notice, date_editor, created_messages,
  created_links, created_view, split_part, fields_part, date_help, products_part, submit_disabled,
  form_view, page_view, view,
}

-- The serious buttons with what they need to be pressed.
abbrev pub offered_for : (Handler → Bool) → State → Option CreatedOrder → Bool
offered_for p s none =
    not (is_empty s.items)
    && not (is_empty s.delivery_date)
    && not s.pending
    && not s.loading
    && p submit
offered_for p s (some order) =
    (s.editing_delivery_date && not s.delivery_update_pending && p save_date)
    || (not s.pending && p reset)

module _ (p : Handler → Bool) (plain : (a : Handler) → is_serious a ≡ false → p a ≡ false)
    (d : Display) (s : State) where
  offers-products : offers p (products_part d s) ≡ false
  unfolding offers products_part is_serious
  offers-products =
      simp
        (
          offer_laws,
          offers-choices d toggled changed p (λ product. plain (toggled product) refl)
              (λ id change. plain (changed id change) refl) s.products s.items,
          offers-when_text p s.load_error (λ e. retry_notice e load ∷ [])
              (λ u. ground (arith, plain load)),
        )
        (ground arith)

  offers-split : offers p (split_part d s) ≡ false
  unfolding offers split_part
  offers-split =
      simp (offer_laws, offers-when_text p s.initial_payment_error (λ e. words e ∷ []) (λ u. refl))

  offers-fields : offers p (fields_part d s) ≡ false
  unfolding offers fields_part
  offers-fields =
      simp
        (
          offer_laws,
          offers-split,
          offers-when_text p s.amount_error (λ e. words e ∷ []) (λ u. refl),
          offers-when_text p (date_help d s) (λ e. words e ∷ []) (λ u. refl),
          offers-when_text p s.delivery_date_error (λ e. words e ∷ []) (λ u. refl),
        )
        (ground arith)

  offers-form :
      (shop_name : Text)
      → offers p (form_view d shop_name s) ≡ (
          not (is_empty s.items)
          && not (is_empty s.delivery_date)
          && not s.pending
          && not s.loading
          && p submit)
  unfolding offers form_view submit_disabled
  offers-form shop_name =
      simp
        (
          offer_laws,
          offers-products,
          offers-fields,
          offers-when_text p s.error (λ e. notice e ∷ []) (λ u. refl),
        )
        (ground arith)

  offers-copy_state : (c : CopyState) → offers p (copy_state_label c) ≡ false
  unfolding offers copy_state_label
  offers-copy_state idle = refl
  offers-copy_state copying = refl
  offers-copy_state copied = refl
  offers-copy_state shared = refl
  offers-copy_state failed = refl

  offers-link_copy : (c : CopyState) → offers p (link_copy_notice c) ≡ false
  unfolding offers link_copy_notice
  offers-link_copy failed = refl
  offers-link_copy _ = refl

  offers-messages :
      (share : Bool) (order : CreatedOrder) → offers p (created_messages share s order) ≡ false
  unfolding offers created_messages is_serious
  offers-messages share order =
      simp (offer_laws, offers-copy_state s.copy_state, offers-link_copy s.link_copy_state)
        (ground (arith, plain copy_message, plain share_order, plain copy_link))

  offers-created :
      (share : Bool) (order : CreatedOrder)
      → offers p (created_view d share s order) ≡ (
          (s.editing_delivery_date && not s.delivery_update_pending && p save_date)
          || (not s.pending && p reset))
  unfolding offers created_view date_editor created_links is_serious
  offers-created share order =
      simp
        (
          offer_laws,
          offers-messages share order,
          offers-when_text p s.delivery_update_error (λ e. words e ∷ []) (λ u. refl),
        )
        (ground (arith, plain (change open_date_editor), plain (change close_date_editor)))

-- The page offers exactly these of its buttons that send the form, change the date or start anew: for
-- a form, to send it where it has products and a date, it is not pending, and the products have come;
-- for an order that was made, to save the date in the open editor unless that is on its way, and to
-- start anew unless the form is still pending.
pub offers-create_view :
    (p : Handler → Bool) (d : Display) (shop_name : Text) (share : Bool) (s : State)
    → ((a : Handler) → is_serious a ≡ false → p a ≡ false)
    → offers p (view d shop_name share s) ≡ offered_for p s s.created
unfolding view
offers-create_view p d shop_name share s plain =
    elim s.created
      as (λ made. offers p (page_view d shop_name share s made) ≡ offered_for p s made) [
        | none ↦ offers-form p plain d s shop_name
        | some order ↦ offers-created p plain d s share order
      ]
