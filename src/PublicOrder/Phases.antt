-- ===== src/PublicOrder/Phases.antt =====
-- The two payments of an order: when each is asked for, and what is copied then.
use radif.Prelude.{decimal, ℕ, ◌*◌, ◌≡◌, ◌↔◌, true, false, ◌&&◌, ◌||◌, none, some, [], ◌∷◌, arith}
use radif.Shared.Types.{PublicOrder}
use radif.Shared.Api.{copy_text}
use radif.PublicOrder.State.{State}
use radif.PublicOrder.Payment.{
  in_final_phase, amount_due, copy_payment_amount, initial_payment_active, final_payment_active,
  shows_payment, form, final_receipt_view,
}

-- At most one of the two payments is asked for, and then the section with the card is shown.
pub payments_exclusive :
    (o : PublicOrder)
    → ((initial_payment_active o && final_payment_active o) ≡ false)
      × ((initial_payment_active o || final_payment_active o) ≡ true → shows_payment o ≡ true)
unfolding initial_payment_active final_payment_active shows_payment
payments_exclusive o = (ground arith, λ h. ground arith)

-- The form for the second receipt is shown exactly while the final payment is asked for.
pub final_receipt_view-form_iff :
    (o : PublicOrder) → (final_receipt_view o ≡ form) ↔ (final_payment_active o ≡ true)
unfolding final_receipt_view final_payment_active
final_receipt_view-form_iff o = (λ h. ground arith, λ h. ground arith)

-- For a shown order with an amount for the second part, and a clipboard that works, the amount
-- that is copied, in rials, is ten times the payment that is asked for: the first part while it
-- is, the second part while that is, and the whole amount of an order that is not split.
pub copy_payment_amount_lem :
    (s : State) (o : PublicOrder) (first last : ℕ)
    → s.order ≡ some o
    → o.final_payment_amount ≡ some last
    → (o.initial_payment_amount ≡ some first
        → initial_payment_active o ≡ true
        → (copy_payment_amount true s).1 ≡ copy_text (decimal (first * 10)) ∷ [])
      × (final_payment_active o ≡ true
          → (copy_payment_amount true s).1 ≡ copy_text (decimal (last * 10)) ∷ [])
      × (o.initial_payment_amount ≡ none
          → (copy_payment_amount true s).1 ≡ copy_text (decimal (o.amount * 10)) ∷ [])
unfolding copy_payment_amount amount_due in_final_phase initial_payment_active final_payment_active
copy_payment_amount_lem s o first last e l =
    (λ f a. ground arith, λ a. ground arith, λ f. ground arith)
