-- ===== src/PublicOrder/View.antt =====
-- What the page of a public order draws (web/src/pages/PublicOrderPage.tsx).
use radif.Prelude.{
  if◌then◌else◌, or_else, text, text_eq, Text, ℕ, ◌≡◌, ◌↔◌, Bool, true, not, ◌&&◌, Option, none,
  some, List, [], ◌∷◌, map, arith,
}
use radif.Shared.Types.{PublicOrder, HistoryEntry}
use radif.Shared.Statuses.{public_status_labels, label_in}
use radif.Shared.Groups.{format_iban}
use radif.Shared.Messages.{
  first_payment_was_confirmed, pay_now_label, confirmed_label, receipt_checked_label, closed_label,
  settled_label, after_preparing_label, final_payment_heading, first_payment_heading,
  shop_payment_heading, first_receipt_uploaded, receipt_uploaded_notice, no_receipt_uploaded,
}
use radif.PublicOrder.Payment.{
  truthy_number, truthy_text, in_final_phase, card_number, iban, amount_due,
  initial_payment_confirmed, initial_payment_active, final_payment_active, shows_payment,
}

-- The label of a status of this order, also in its history: `publicStatusLabels[status] ?? status`.
unfoldable pub status_line : PublicOrder → Text → Text
status_line o status =
    if truthy_number o.initial_payment_amount && text_eq status (text "paid")
    then first_payment_was_confirmed
    else or_else (label_in public_status_labels status) status

unfoldable pub history_lines : PublicOrder → List (Text × Text)
unfolding status_line
history_lines o =
    if o.customer_submitted
    then map (λ (e : HistoryEntry). (status_line o e.status, e.created_at)) o.history
    else []

-- Whether the status is followed by the notice that the shop checks the receipt.
unfoldable pub shows_checking : PublicOrder → Bool
shows_checking o = text_eq o.status (text "waiting_payment") && o.receipt_uploaded

-- The marks of the two payments of an order in two parts.
pub data Badge : Type 0 where
  pay_now confirmed checked closed settled after_preparing : Badge

unfoldable pub badge_text : Badge → Text
badge_text pay_now = pay_now_label
badge_text confirmed = confirmed_label
badge_text checked = receipt_checked_label
badge_text closed = closed_label
badge_text settled = settled_label
badge_text after_preparing = after_preparing_label

unfoldable pub first_badge : PublicOrder → Badge
first_badge o =
    if initial_payment_active o
    then pay_now
    else if initial_payment_confirmed o
    then confirmed
    else if o.customer_submitted
    then checked
    else closed

unfoldable pub final_badge : PublicOrder → Badge
final_badge o =
    if text_eq o.status (text "cancelled")
    then closed
    else if o.final_payment_confirmed
    then settled
    else if o.final_receipt_uploaded
    then checked
    else if final_payment_active o
    then pay_now
    else after_preparing

unfoldable pub payment_heading : PublicOrder → Text
payment_heading o =
    if truthy_number o.initial_payment_amount
    then (if o.customer_submitted then final_payment_heading else first_payment_heading)
    else shop_payment_heading

-- The amount that the section with the card tells, in tomans: the code tells it for an order in two
-- parts, and calls it the order's amount for another.
unfoldable pub told_amount : PublicOrder → ℕ
told_amount o =
    if truthy_number o.initial_payment_amount
    then (if o.customer_submitted
        then or_else o.final_payment_amount 0
        else or_else o.initial_payment_amount 0)
    else o.amount

-- `match(/.{1,4}/g)?.join(" ")` of the card's number, and what stands for the IBAN.
unfoldable pub drawn_card : PublicOrder → Option Text
drawn_card o = elim (card_number o) [
  | none ↦ none
  | some [] ↦ none
  | some (c ∷ t) ↦ some (format_iban (c ∷ t))
]

unfoldable pub drawn_iban : PublicOrder → Option Text
drawn_iban o = elim (iban o) [
  | none ↦ none
  | some [] ↦ none
  | some (c ∷ t) ↦ some (format_iban (c ∷ t))
]

unfoldable pub payment_instructions : PublicOrder → Option Text
payment_instructions o =
    if in_final_phase o then o.final_payment_instructions else some o.payment_instructions

-- The sections about the delivery.
unfoldable pub shows_closed : PublicOrder → Bool
shows_closed o = not o.customer_submitted && not o.customer_submission_allowed

unfoldable pub receipt_line : PublicOrder → Text
receipt_line o =
    if o.receipt_uploaded
    then (if truthy_number o.initial_payment_amount
        then first_receipt_uploaded
        else receipt_uploaded_notice)
    else no_receipt_uploaded

unfoldable pub tracking_code : PublicOrder → Option Text
tracking_code o =
    if o.customer_submitted && truthy_text o.shipment_tracking_code
    then o.shipment_tracking_code
    else none

-- The mark "pay now" stands at a payment exactly while that payment is asked for, and wherever the
-- section with the card is drawn, the amount that it tells is the one that the button copies.
pub view_agrees :
    (o : PublicOrder)
    → ((first_badge o ≡ pay_now) ↔ (initial_payment_active o ≡ true))
      × ((final_badge o ≡ pay_now) ↔ (final_payment_active o ≡ true))
      × (shows_payment o ≡ true → told_amount o ≡ amount_due o)
unfolding first_badge final_badge final_payment_active told_amount amount_due in_final_phase
    shows_payment
view_agrees o = (
  (λ h. ground arith, λ h. ground arith),
  (λ h. ground arith, λ h. ground arith),
  λ h. ground arith,
)
