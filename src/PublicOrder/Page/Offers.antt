-- ===== src/PublicOrder/Page/Offers.antt =====
-- Which buttons a customer's page offers.
use radif.Prelude.{
  if◌then◌else◌, text, text_eq, is_empty, ◌==◌, Text, ℕ, ◌≡◌, refl, Bool, true, false, not, ◌&&◌,
  ◌||◌, Option, none, some, [], ◌∷◌, ◌++◌, arith,
}
use radif.Shared.Types.{PublicOrder, CustomerSummary, Support}
use radif.Shared.Api.{File}
use radif.Shared.Drawing.{
  words, notice, retry_notice, picture, copy_button, Display, offers, offer_laws, offers-when_text,
  offers-when_some, offers-flat_map,
}
use radif.Components.ReceiptPicker.View.{receipt_view}
use radif.PublicOrder.State.{State, CopyState, failed}
use radif.PublicOrder.Labels.{copy_tracking_label, hidden_digits}
use radif.PublicOrder.Payment.{
  in_final_phase, truthy_number, truthy_text, iban, initial_payment_active, final_payment_active,
  shows_payment, FinalReceiptView, nothing, under_review, form, final_receipt_view,
}
use radif.PublicOrder.View.{drawn_card, payment_instructions, history_lines, tracking_code}
use radif.PublicOrder.Page.Payments.{
  Handler, reload, open_picker, remove_receipt, open_final_picker, remove_final_receipt,
  copy_amount, copy_card, copy_iban, submit_details, submit_final, is_serious, Look, item_nodes,
  head_part, amount_button, total_nodes, plan_part, single_part, amount_part, failed_notice,
  card_part, final_form, drawn_zero, final_part, payments_part,
}
use radif.PublicOrder.Page.Details.{
  support_action, error_nodes, details_form, closed_part, summary_nodes, recorded_part,
  history_part, tracking_part, order_part, for_order, view,
}

unfoldable pub is_form : FinalReceiptView → Bool
is_form form = true
is_form _ = false

-- Whether the order is paid in two parts, and whether the second one is due: it was asked for after the
-- details came, no receipt of it is there, it is not confirmed, and the order is not cancelled.
abbrev pub in_two : PublicOrder → Bool
in_two o = elim o.initial_payment_amount [ none ↦ false | some n ↦ not (n == 0) ]

abbrev pub final_due : PublicOrder → Bool
final_due o =
    o.customer_submitted
    && o.final_payment_requested
    && not o.final_receipt_uploaded
    && not o.final_payment_confirmed
    && not (text_eq o.status (text "cancelled"))

-- Whether the shop gives an IBAN for the payment that is asked for.
abbrev pub has_iban : PublicOrder → Bool
has_iban o =
    if o.customer_submitted && o.final_payment_requested
    then elim o.final_payment_iban [ none ↦ false | some t ↦ not (is_empty t) ]
    else not (is_empty o.payment_iban)

-- The serious buttons for an order, with what each needs to be pressed.
abbrev pub offered_for : (Handler → Bool) → State → PublicOrder → Bool
offered_for p s o =
    ((not (in_two o) || (not o.customer_submitted && o.customer_submission_allowed) || final_due o)
      && p copy_amount)
    || ((not (in_two o) || not o.customer_submitted || final_due o)
        && (p copy_card || (has_iban o && p copy_iban)))
    || (in_two o && final_due o && not s.final_pending && p submit_final)
    || (o.customer_submission_allowed && not s.pending && p submit_details)

-- The same by the guards of the sections.
abbrev drawn_for : (Handler → Bool) → State → PublicOrder → Bool
drawn_for p s o =
    ((not (truthy_number o.initial_payment_amount)
        || initial_payment_active o
        || final_payment_active o)
      && p copy_amount)
    || (shows_payment o && (p copy_card || (truthy_text (iban o) && p copy_iban)))
    || (is_form (final_receipt_view o) && not s.final_pending && p submit_final)
    || (o.customer_submission_allowed && not s.pending && p submit_details)

drawn_for-eq-offered_for :
    (p : Handler → Bool) (s : State) (o : PublicOrder) → drawn_for p s o ≡ offered_for p s o
unfolding initial_payment_active final_payment_active shows_payment final_receipt_view is_form iban
    in_final_phase
drawn_for-eq-offered_for p s o = ground arith

module _ (p : Handler → Bool) (plain : (a : Handler) → is_serious a ≡ false → p a ≡ false) where
  offers-receipt :
      (l : Look) (opened remove : Handler) (busy : Bool) (file : Option File) (preview : Text)
      → p opened ≡ false
      → p remove ≡ false
      → offers p (receipt_view l.megabytes opened remove busy file preview) ≡ false
  unfolding offers receipt_view
  offers-receipt l opened remove true file preview h k = refl
  offers-receipt l opened remove false none preview h k = ground arith
  offers-receipt l opened remove false (some file) preview h k = ground arith

  offers-head : (d : Display) (o : PublicOrder) → offers p (head_part d o) ≡ false
  unfolding offers head_part item_nodes
  offers-head d o =
      simp
        (
          offer_laws,
          offers-when_some p o.shop.logo_path (λ t. picture t ∷ []) (λ u. refl),
          offers-flat_map p (item_nodes d) o.items (λ i. refl),
        )
        (ground arith)

  offers-total : (l : Look) (o : PublicOrder) → offers p (total_nodes l o) ≡ false
  unfolding offers total_nodes
  offers-total l o = ground arith

  offers-button :
      (l : Look) (c : CopyState) (label : Text) (n : ℕ)
      → offers p (amount_button l c label n) ≡ p copy_amount
  unfolding offers amount_button
  offers-button l c label n = ground arith

  offers-plan :
      (l : Look) (s : State) (o : PublicOrder)
      → offers p (plan_part l s o)
        ≡ ((initial_payment_active o || final_payment_active o) && p copy_amount)
  unfolding offers plan_part
  offers-plan l s o = simp (offer_laws, offers-total l o, offers-button l) (ground arith)

  offers-single :
      (l : Look) (s : State) (o : PublicOrder) → offers p (single_part l s o) ≡ p copy_amount
  unfolding offers single_part
  offers-single l s o = simp (offer_laws, offers-button l) (ground arith)

  offers-amount :
      (l : Look) (s : State) (o : PublicOrder)
      → offers p (amount_part l s o) ≡ (
          (not (truthy_number o.initial_payment_amount)
            || initial_payment_active o
            || final_payment_active o)
          && p copy_amount)
  unfolding amount_part
  offers-amount l s o = ground (arith, offers-plan l s o, offers-single l s o)

  offers-failed : (c : CopyState) (message : Text) → offers p (failed_notice c message) ≡ false
  unfolding offers failed_notice
  offers-failed failed message = refl
  offers-failed _ message = refl

  offers-zero : (n : Option ℕ) → offers p (drawn_zero n) ≡ false
  unfolding offers drawn_zero
  offers-zero (some n) = ground arith
  offers-zero none = refl

  offers-card :
      (l : Look) (s : State) (o : PublicOrder)
      → offers p (card_part l s o) ≡ (p copy_card || (truthy_text (iban o) && p copy_iban))
  unfolding offers card_part
  offers-card l s o =
      simp
        (
          offer_laws,
          offers-failed s.copy_state,
          offers-failed s.iban_copy_state,
          offers-when_some p (drawn_card o) (λ t. words t ∷ []) (λ u. refl),
          offers-when_some p (payment_instructions o) (λ t. words t ∷ []) (λ u. refl),
        )
        (ground arith)

  offers-final :
      (l : Look) (s : State) (v : FinalReceiptView)
      → offers p (final_part l s v) ≡ (is_form v && not s.final_pending && p submit_final)
  unfolding offers final_part final_form is_form is_serious
  offers-final l s nothing = refl
  offers-final l s under_review = refl
  offers-final l s form =
      simp
        (
          offer_laws,
          offers-receipt l open_final_picker remove_final_receipt l.preparing_final s.final_receipt
              l.final_preview (plain open_final_picker refl) (plain remove_final_receipt refl),
          offers-when_text p s.final_receipt_error (λ e. words e ∷ []) (λ u. refl),
          offers-when_text p s.final_error (λ e. notice e ∷ []) (λ u. refl),
        )
        (ground arith)

  offers-support :
      (in_app : Bool) (label : Text) (support : Option Support)
      → offers p (support_action in_app label support) ≡ false
  unfolding offers support_action
  offers-support in_app label none = refl
  offers-support in_app label (some support) = simp offer_laws (ground arith)

  offers-error : (message : Option Text) → offers p (error_nodes message) ≡ false
  unfolding error_nodes offers
  offers-error message = offers-when_some p message (λ e. words e ∷ []) (λ u. refl)

  offers-details :
      (in_app : Bool) (l : Look) (s : State) (o : PublicOrder)
      → offers p (details_form in_app l s o) ≡ (not s.pending && p submit_details)
  unfolding offers details_form is_serious
  offers-details in_app l s o =
      simp
        (
          offer_laws,
          offers-support,
          offers-error,
          offers-receipt l open_picker remove_receipt l.preparing s.receipt l.preview
              (plain open_picker refl) (plain remove_receipt refl),
          offers-when_text p s.receipt_error (λ e. words e ∷ []) (λ u. refl),
          offers-when_text p s.error (λ e. notice e ∷ []) (λ u. refl),
        )
        (ground arith)

  offers-summary : (summary : Option CustomerSummary) → offers p (summary_nodes summary) ≡ false
  unfolding offers summary_nodes
  offers-summary none = refl
  offers-summary (some summary) =
      offers-when_text p summary.postal_code_suffix (λ t. words (hidden_digits ++ t) ∷ [])
        (λ u. refl)

  offers-order :
      (in_app : Bool) (l : Look) (s : State) (o : PublicOrder)
      → offers p (order_part in_app l s o) ≡ drawn_for p s o
  unfolding offers order_part payments_part closed_part recorded_part history_part tracking_part
  offers-order in_app l s o =
      simp
        (
          offer_laws,
          offers-head l.display o,
          offers-amount l s o,
          offers-card l s o,
          offers-failed s.amount_copy_state,
          offers-zero,
          offers-final l s (final_receipt_view o),
          offers-details in_app l s o,
          offers-support,
          offers-summary,
          offers-flat_map p
              (λ (line : Text × Text). words line.0 ∷ words (l.display.date_time line.1) ∷ [])
              (history_lines o) (λ i. refl),
          offers-when_some p (tracking_code o)
              (λ t. words t ∷ copy_button t copy_tracking_label ∷ []) (λ u. refl),
        )
        (ground arith)

-- Of the buttons that copy what a payment needs and those that send, a page that has an order offers
-- exactly these: the amount, for an order in one part, or before the details are sent and while they
-- may be given, or while the second payment is due; the card, and the IBAN where there is one, for an
-- order in one part, before the details are sent, or while the second payment is due; the final receipt
-- while the second of two payments is due, and the details where they may be given, each unless it is
-- already on its way. The second payment is due where it was asked for after the details came, no
-- receipt of it is there, it is not confirmed and the order is not cancelled.
pub offers-public_view :
    (p : Handler → Bool) (in_app : Bool) (l : Look) (s : State) (o : PublicOrder)
    → ((a : Handler) → is_serious a ≡ false → p a ≡ false)
    → s.order ≡ some o
    → offers p (view in_app l s) ≡ offered_for p s o
unfolding offers view for_order is_serious
offers-public_view p in_app l s o plain e =
    simp
      (
        offer_laws,
        e,
        offers-when_text p s.error (λ m. retry_notice m reload ∷ [])
            (λ u. rw (plain reload refl) refl),
        offers-order p plain in_app l s o,
        drawn_for-eq-offered_for p s o,
      )
      (ground arith)
