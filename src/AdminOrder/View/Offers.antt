-- ===== src/AdminOrder/View/Offers.antt =====
-- Which buttons an order's page offers.
use radif.Prelude.{
  any, is_empty, text, text_eq, ◌∙◌, Text, ◌≡◌, refl, Bool, false, not, ◌&&◌, ◌||◌, some, [], ◌∷◌,
  arith,
}
use radif.Shared.Drawing.{offers-when_some}
use radif.AdminOrder.Fields.{open_internal, close_internal}
use radif.AdminOrder.View.Handlers.{copy_final}
use radif.AdminOrder.View.Payments.{requested, final_part, payments_part}
use radif.AdminOrder.View.Sections.{
  internal_shown, internal_form, internal_part, link_part, order_view, view,
}
use radif.Shared.Types.{AdminOrder}
use radif.Shared.Drawing.{words, notice, copy_button, offers, offer_laws, offers-when_text, Display}
use radif.Shared.Storage.{channel_text}
use radif.AdminOrder.Labels.{copy_tracking_label}
use radif.AdminOrder.Fields.{open_customer, close_customer}
use radif.AdminOrder.State.{State}
use radif.AdminOrder.Save.{
  status_section, date_section, tracking_section, internal_section, is_saving, is_split,
  status_disabled, date_disabled, tracking_disabled,
}
use radif.AdminOrder.Payment.{request_disabled, confirm_disabled, final_request_allowed}
use radif.AdminOrder.View.Handlers.{
  Handler, save_section, submit_customer, ask_final, accept_final, rotate_link, copy_message,
  share_message, change, changes_order,
}
use radif.AdminOrder.View.Customer.{head, status_part, customer_part, customer_shown, customer_form}
use radif.AdminOrder.View.Payments.{in_tomans}
use radif.AdminOrder.View.Sections.{shipping_part}
use radif.AdminOrder.View.Plain.{
  offers-message_state, offers-copy_state, offers-receipt, offers-number, offers-amounts,
  offers-items, offers-history,
}

-- Whether the final payment can be asked for: the customer's details and the first receipt are there,
-- the first payment was confirmed at some time, and the order is paid, being prepared or shipped.
abbrev pub may_ask : AdminOrder → Bool
may_ask o =
    o.customer_submitted
    && o.receipt_uploaded
    && any (λ entry. text_eq entry.new_status (text "paid")) o.history
    && (text_eq (text "paid") o.status
        || text_eq (text "preparing") o.status
        || text_eq (text "shipped") o.status)

-- The buttons that call the server to change the order, each with what it needs to be drawn and not to
-- be disabled, of which some handler passes a test; none while one is being saved.
abbrev pub offered : (Handler → Bool) → State → AdminOrder → Bool
offered p s o =
    not (is_saving s.saving)
    && ((not (text_eq s.status o.status) && p (save_section (status_section s.status)))
        || (o.customer_submitted && s.editing_customer && p submit_customer)
        || (is_split o
            && ((not o.final_payment_requested && may_ask o && p ask_final)
                || (o.final_payment_requested
                    && o.final_receipt_uploaded
                    && not o.final_payment_confirmed
                    && not (text_eq o.status (text "cancelled"))
                    && p accept_final)))
        || (not (is_empty s.date)
            && not (text_eq s.date o.estimated_delivery_date)
            && p (save_section (date_section s.date)))
        || (not (text_eq s.tracking o.shipment_tracking_code)
            && p (save_section (tracking_section s.tracking)))
        || (s.editing_internal
            && p (
                save_section (
                  internal_section (channel_text s.sales_channel) s.conversation_reference
                    s.internal_note)))
        || p rotate_link)

-- The same by the marks that the buttons have.
abbrev enabled : (Handler → Bool) → State → AdminOrder → Bool
enabled p s o =
    (not (status_disabled s o) && p (save_section (status_section s.status)))
    || (o.customer_submitted && s.editing_customer && not (is_saving s.saving) && p submit_customer)
    || (is_split o
        && ((not o.final_payment_requested && not (request_disabled s o) && p ask_final)
            || (o.final_payment_requested
                && o.final_receipt_uploaded
                && not o.final_payment_confirmed
                && not (confirm_disabled s o)
                && p accept_final)))
    || (not (date_disabled s o) && p (save_section (date_section s.date)))
    || (not (tracking_disabled s o) && p (save_section (tracking_section s.tracking)))
    || (s.editing_internal
        && not (is_saving s.saving)
        && p (
            save_section (
              internal_section (channel_text s.sales_channel) s.conversation_reference
                s.internal_note)))
    || (not (is_saving s.saving) && p rotate_link)

enabled-eq-offered :
    (p : Handler → Bool) (s : State) (o : AdminOrder) → enabled p s o ≡ offered p s o
unfolding status_disabled date_disabled tracking_disabled request_disabled confirm_disabled
    final_request_allowed is_split
enabled-eq-offered p s o = ground arith

-- A test that no handler passes but those that change the order.
module _ (p : Handler → Bool) (plain : (a : Handler) → changes_order a ≡ false → p a ≡ false)
    (d : Display) (s : State) (o : AdminOrder) where
  offers-head : (search : Text) (share : Bool) → offers p (head search share s o) ≡ false
  unfolding offers head changes_order
  offers-head query share =
      simp
        (
          offer_laws,
          offers-message_state p s.message_state,
          offers-when_text p s.error (λ e. notice e ∷ []) (λ u. refl),
        )
        (ground (arith, plain copy_message, plain share_message))

  offers-status :
      offers p (status_part s o)
      ≡ (not (status_disabled s o) && p (save_section (status_section s.status)))
  unfolding offers status_part
  offers-status = ground arith

  offers-customer : offers p (customer_part s o) ≡ (
      o.customer_submitted && s.editing_customer && not (is_saving s.saving) && p submit_customer)
  unfolding offers customer_part customer_shown customer_form changes_order
  offers-customer =
      simp
        (
          offer_laws,
          offers-when_text p o.customer_postal_code (λ t. words t ∷ []) (λ u. refl),
          offers-when_text p o.customer_note (λ t. words t ∷ []) (λ u. refl),
        )
        (ground (arith, plain (change close_customer), plain (change open_customer)))

  offers-shipping : offers p (shipping_part d s o) ≡ (
      (not (date_disabled s o) && p (save_section (date_section s.date)))
      || (not (tracking_disabled s o) && p (save_section (tracking_section s.tracking))))
  unfolding offers shipping_part
  offers-shipping =
      simp
        (
          offer_laws,
          offers-when_text p s.tracking (λ t. copy_button t copy_tracking_label ∷ []) (λ u. refl),
        )
        (ground arith)

  offers-internal : offers p (internal_part s o) ≡ (
      s.editing_internal
      && not (is_saving s.saving)
      && p (
          save_section (
            internal_section
              (channel_text s.sales_channel)
              s.conversation_reference
              s.internal_note)))
  unfolding offers internal_part internal_shown internal_form changes_order
  offers-internal =
      simp offer_laws (ground (arith, plain (change close_internal), plain (change open_internal)))

  offers-link : offers p (link_part s o) ≡ (not (is_saving s.saving) && p rotate_link)
  unfolding offers link_part
  offers-link = simp offer_laws (ground arith)

  offers-requested : offers p (requested d s o) ≡ (
      o.final_receipt_uploaded
      && not o.final_payment_confirmed
      && not (confirm_disabled s o)
      && p accept_final)
  unfolding offers requested in_tomans changes_order
  offers-requested =
      simp
        (
          offer_laws,
          offers-copy_state p s.final_copy_state,
          offers-receipt p o.final_receipt_uploaded o.final_receipt_url,
          offers-when_some p o.final_payment_requested_at (λ t. words (d.date_time t) ∷ [])
              (λ u. refl),
        )
        (ground (arith, plain copy_final))

  offers-payments : offers p (payments_part d s o) ≡ (
      is_split o
      && ((not o.final_payment_requested && not (request_disabled s o) && p ask_final)
          || (o.final_payment_requested
              && o.final_receipt_uploaded
              && not o.final_payment_confirmed
              && not (confirm_disabled s o)
              && p accept_final)))
  unfolding payments_part final_part is_split offers
  offers-payments =
      simp
        (
          offer_laws,
          offers-amounts p d o,
          offers-receipt p o.receipt_uploaded o.receipt_url,
          offers-number p o.initial_payment_amount,
          offers-requested,
        )
        (ground arith)

  offers-order :
      (query : Text) (share : Bool) → offers p (order_view d query share s o) ≡ enabled p s o
  unfolding order_view
  offers-order query share =
      simp
        (
          offer_laws,
          offers-head query share,
          offers-status,
          offers-customer,
          offers-payments,
          offers-items p d o,
          offers-shipping,
          offers-internal,
          offers-link,
          offers-history p d o,
        )
        (ground arith)

-- Of the buttons that call the server to change the order, a page that shows an order offers exactly
-- these, and none while one is being saved: the status where it is not the order's; the customer's form
-- while it is open; of an order in two parts, the request of the final payment before it is made, where
-- the details and the first receipt are there, the first payment was confirmed at some time and the
-- order is paid, being prepared or shipped, or its confirmation once the receipt is there and the order
-- is not cancelled; the date where there is one that is not the order's; the tracking code where it is
-- not the order's; the internal fields while they are open; and a new link.
pub offers-admin_view :
    (p : Handler → Bool) (d : Display) (query : Text) (share : Bool) (s : State) (o : AdminOrder)
    → ((a : Handler) → changes_order a ≡ false → p a ≡ false)
    → s.loading ≡ false
    → s.order ≡ some o
    → offers p (view d query share s) ≡ offered p s o
unfolding view
offers-admin_view p d query share s o plain l h =
    rw (l, h) (offers-order p plain d s o query share ∙ enabled-eq-offered p s o)
