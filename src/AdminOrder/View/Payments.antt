-- ===== src/AdminOrder/View/Payments.antt =====
-- The payments of an order's page (web/src/pages/AdminOrderPage.tsx).
use radif.Prelude.{
  or_else, Text, ℕ, Bool, true, false, not, ◌&&◌, Option, none, some, List, [], ◌∷◌, ◌++◌,
}
use radif.Shared.Types.{AdminOrder}
use radif.Shared.Drawing.{Node, words, picture, link, button, Display, when, when_some, when_number}
use radif.Shared.Messages.{settled_label}
use radif.Shared.Labels.{tomans, message_copied_label, full_size_label, being_saved_label, dot}
use radif.AdminOrder.Labels.{
  no_receipt, request_not_ready, request_final_label, copy_final_label, final_copy_failed,
  final_receipt_missing_yet, being_confirmed_label, confirm_final_label, confirmed_mark, by_admin,
}
use radif.AdminOrder.State.{State, CopyState, copied, failed, request_final, confirm_final}
use radif.AdminOrder.Payment.{final_request_allowed, request_disabled, confirm_disabled}
use radif.AdminOrder.View.Handlers.{Handler, copy_final, ask_final, accept_final}

unfoldable pub in_tomans : Display → ℕ → Node Handler
in_tomans d n = words (d.number n ++ tomans)

-- A receipt with its address, or else what is told in its place.
unfoldable pub receipt_nodes : Bool → Option Text → Text → List (Node Handler)
receipt_nodes true (some (c ∷ url)) missing =
    picture (c ∷ url) ∷ link full_size_label false (c ∷ url) ∷ []
receipt_nodes true (some []) missing = words missing ∷ []
receipt_nodes true none missing = words missing ∷ []
receipt_nodes false url missing = words missing ∷ []

unfoldable pub amounts : Display → AdminOrder → List (Node Handler)
unfolding in_tomans
amounts d o =
    in_tomans d o.amount
    ∷ when_number o.initial_payment_amount
        (λ n. in_tomans d n ∷ in_tomans d (or_else o.final_payment_amount 0) ∷ [])

-- The final payment before it is requested, and after that.
unfoldable pub unrequested : State → AdminOrder → List (Node Handler)
unrequested s o =
    when (not (final_request_allowed o)) (words request_not_ready ∷ [])
    ++ button (elim s.saving [ request_final ↦ being_saved_label | _ ↦ request_final_label ])
        (request_disabled s o) ask_final
      ∷ []

unfoldable pub copy_state_nodes : CopyState → List (Node Handler)
copy_state_nodes failed = words final_copy_failed ∷ []
copy_state_nodes _ = []

-- JavaScript's `text ? … : ""`, of an optional text.
unfoldable pub told : Option Text → (Text → Text) → Text
told none f = []
told (some []) f = []
told (some (c ∷ t)) f = f (c ∷ t)

unfoldable pub confirmed_line : Display → AdminOrder → Text
unfolding told
confirmed_line d o =
    confirmed_mark
    ++ (told o.final_payment_confirmed_by_admin_name (λ name. by_admin ++ name)
        ++ told o.final_payment_confirmed_at (λ at. dot ++ d.date_time at))

unfoldable pub requested : Display → State → AdminOrder → List (Node Handler)
unfolding in_tomans copy_state_nodes receipt_nodes confirmed_line
requested d s o =
    in_tomans d (or_else o.final_payment_amount 0)
    ∷ (when_some o.final_payment_requested_at (λ at. words (d.date_time at) ∷ [])
        ++ button (elim s.final_copy_state [ copied ↦ message_copied_label | _ ↦ copy_final_label ])
            false copy_final
          ∷ (copy_state_nodes s.final_copy_state
              ++ (receipt_nodes o.final_receipt_uploaded o.final_receipt_url
                    final_receipt_missing_yet
                  ++ (when (o.final_receipt_uploaded && not o.final_payment_confirmed) (
                        button
                          (elim s.saving [
                            | confirm_final ↦ being_confirmed_label
                            | _ ↦ confirm_final_label
                          ])
                          (confirm_disabled s o) accept_final
                        ∷ [])
                      ++ when o.final_payment_confirmed (words (confirmed_line d o) ∷ [])))))

unfoldable pub final_part : Display → State → AdminOrder → List (Node Handler)
unfolding unrequested requested
final_part d s o =
    when o.final_payment_confirmed (words settled_label ∷ [])
    ++ (when (not o.final_payment_requested) (unrequested s o)
        ++ when o.final_payment_requested (requested d s o))

unfoldable pub payments_part : Display → State → AdminOrder → List (Node Handler)
unfolding amounts receipt_nodes final_part
payments_part d s o =
    amounts d o
    ++ (receipt_nodes o.receipt_uploaded o.receipt_url no_receipt
        ++ when_number o.initial_payment_amount (λ n. final_part d s o))
