-- ===== src/AdminOrder/View/Plain.antt =====
-- The parts of an order's page whose buttons do not change the order, and the two uses of a number.
use radif.Prelude.{
  ◌==◌, Text, ℕ, zero, suc, ◌≡◌, refl, Bool, true, false, not, ◌&&◌, Option, none, some, List, [],
  ◌∷◌, arith,
}
use radif.Shared.Types.{AdminOrder}
use radif.Shared.Drawing.{
  Node, offers, offers-when_number, offers-append, offers-flat_map, Display, when_number,
}
use radif.AdminOrder.State.{CopyState, idle, copied, shared, failed}
use radif.AdminOrder.View.Handlers.{Handler}
use radif.AdminOrder.View.Customer.{message_state_label}
use radif.AdminOrder.View.Payments.{in_tomans, amounts, receipt_nodes, copy_state_nodes}
use radif.AdminOrder.View.Sections.{item_nodes, items_part, history_nodes, history_part}

-- No button of these parts changes the order, so that no test finds one.
module _ (p : Handler → Bool) where
  pub offers-message_state : (c : CopyState) → offers p (message_state_label c) ≡ false
  unfolding offers message_state_label
  offers-message_state idle = refl
  offers-message_state copied = refl
  offers-message_state shared = refl
  offers-message_state failed = refl

  pub offers-copy_state : (c : CopyState) → offers p (copy_state_nodes c) ≡ false
  unfolding offers copy_state_nodes
  offers-copy_state failed = refl
  offers-copy_state _ = refl

  pub offers-receipt :
      (uploaded : Bool) (url : Option Text) (missing : Text)
      → offers p (receipt_nodes uploaded url missing) ≡ false
  unfolding offers receipt_nodes
  offers-receipt true (some (c ∷ url)) missing = refl
  offers-receipt true (some []) missing = refl
  offers-receipt true none missing = refl
  offers-receipt false url missing = refl

  pub offers-number :
      (n : Option ℕ) (nodes : List (Node Handler))
      → offers p (when_number n (λ _. nodes))
        ≡ (elim n [ none ↦ false | some k ↦ not (k == 0) ] && offers p nodes)
  unfolding offers
  offers-number none nodes = refl
  offers-number (some zero) nodes = refl
  offers-number (some (suc k)) nodes = ground arith

  pub offers-amounts : (d : Display) (o : AdminOrder) → offers p (amounts d o) ≡ false
  unfolding offers amounts in_tomans
  offers-amounts d o = offers-when_number p o.initial_payment_amount _ (λ n. refl)

  pub offers-items : (d : Display) (o : AdminOrder) → offers p (items_part d o) ≡ false
  unfolding offers items_part item_nodes
  offers-items d o = rw (offers-append, offers-flat_map p (item_nodes d) o.items (λ i. refl)) refl

  pub offers-history : (d : Display) (o : AdminOrder) → offers p (history_part d o) ≡ false
  unfolding offers history_part history_nodes
  offers-history d o =
      rw (offers-append, offers-flat_map p (history_nodes d o) o.history (λ i. refl)) refl
