-- ===== src/PublicOrder/Payment.antt =====
-- Which payment the page asks for, and what its copy buttons hand over
-- (web/src/pages/PublicOrderPage.tsx).
use radif.Prelude.{
  ◌==◌, if◌then◌else◌, or_else, any, is_empty, text, text_eq, decimal, Text, ℕ, ◌*◌, Bool, true,
  false, not, ◌&&◌, ◌||◌, Option, none, some, List, [], ◌∷◌,
}
use radif.Shared.Types.{PublicOrder}
use radif.Shared.Api.{Effect, copy_text}
use radif.PublicOrder.State.{State, CopyState, copied, failed}

-- JavaScript's truth of an optional number or text.
abbrev pub truthy_number : Option ℕ → Bool
truthy_number none = false
truthy_number (some n) = not (n == 0)

abbrev pub truthy_text : Option Text → Bool
truthy_text none = false
truthy_text (some t) = not (is_empty t)

unfoldable pub in_final_phase : PublicOrder → Bool
in_final_phase o = o.customer_submitted && o.final_payment_requested

unfoldable pub card_number : PublicOrder → Option Text
unfolding in_final_phase
card_number o = if in_final_phase o then o.final_payment_card_number else some o.payment_card_number

unfoldable pub iban : PublicOrder → Option Text
unfolding in_final_phase
iban o = if in_final_phase o then o.final_payment_iban else some o.payment_iban

unfoldable pub amount_due : PublicOrder → ℕ
unfolding in_final_phase
amount_due o = elim o.initial_payment_amount [
  | none ↦ o.amount
  | some initial ↦
      if initial == 0
      then o.amount
      else if in_final_phase o
      then or_else o.final_payment_amount 0
      else initial
]

abbrev copied_or_failed : Bool → CopyState
copied_or_failed true = copied
copied_or_failed false = failed

-- The three handlers; `works` tells whether the clipboard takes the text.
unfoldable pub copy_payment_card_number : Bool → State → State × List Effect
copy_payment_card_number works s = elim s.order [
  | none ↦ (s, [])
  | some o ↦ elim (card_number o) [
    | none ↦ (s, [])
    | some [] ↦ (s, [])
    | some (c ∷ t) ↦ (
      record s { copy_state = copied_or_failed works },
      if works then copy_text (c ∷ t) ∷ [] else [],
    )
  ]
]

unfoldable pub copy_payment_iban : Bool → State → State × List Effect
copy_payment_iban works s = elim s.order [
  | none ↦ (s, [])
  | some o ↦ elim (iban o) [
    | none ↦ (s, [])
    | some [] ↦ (s, [])
    | some (c ∷ t) ↦ (
      record s { iban_copy_state = copied_or_failed works },
      if works then copy_text (c ∷ t) ∷ [] else [],
    )
  ]
]

-- The amount is copied in rials, ten to a toman.
unfoldable pub copy_payment_amount : Bool → State → State × List Effect
copy_payment_amount works s = elim s.order [
  | none ↦ (s, [])
  | some o ↦ (
    record s { amount_copy_state = copied_or_failed works },
    if works then copy_text (decimal (amount_due o * 10)) ∷ [] else [],
  )
]

-- The flags that the page computes from the order.
unfoldable pub initial_payment_confirmed : PublicOrder → Bool
initial_payment_confirmed o = any (λ entry. text_eq entry.status (text "paid")) o.history

unfoldable pub initial_payment_active : PublicOrder → Bool
initial_payment_active o =
    truthy_number o.initial_payment_amount
    && not o.customer_submitted
    && o.customer_submission_allowed

unfoldable pub final_payment_active : PublicOrder → Bool
final_payment_active o =
    truthy_number o.initial_payment_amount
    && o.customer_submitted
    && o.final_payment_requested
    && not o.final_receipt_uploaded
    && not o.final_payment_confirmed
    && not (text_eq o.status (text "cancelled"))

-- Whether the section with the card is shown.
unfoldable pub shows_payment : PublicOrder → Bool
shows_payment o =
    not (truthy_number o.initial_payment_amount)
    || not o.customer_submitted
    || (o.final_payment_requested
        && not o.final_receipt_uploaded
        && not o.final_payment_confirmed
        && not (text_eq o.status (text "cancelled")))

-- What stands in the place of the second receipt.
pub data FinalReceiptView : Type 0 where
  nothing under_review form : FinalReceiptView

unfoldable pub final_receipt_view : PublicOrder → FinalReceiptView
final_receipt_view o =
    if truthy_number o.initial_payment_amount
      && o.customer_submitted
      && o.final_payment_requested
      && not o.final_payment_confirmed
    then (if o.final_receipt_uploaded
        then under_review
        else if not (text_eq o.status (text "cancelled"))
        then form
        else nothing)
    else nothing
