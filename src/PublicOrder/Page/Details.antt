-- ===== src/PublicOrder/Page/Details.antt =====
-- The details of the customer on a customer's page, and the whole page
-- (web/src/pages/PublicOrderPage.tsx).
use radif.Prelude.{
  ◌==◌, if◌then◌else◌, text, Text, Bool, true, false, ◌&&◌, Option, none, some, List, [], ◌∷◌, ◌++◌,
}
use radif.Shared.Types.{PublicOrder, CustomerSummary, Support, SupportChannel}
use radif.Shared.Drawing.{
  Node, words, notice, retry_notice, waiting, link, copy_button, button, field, Display, when,
  when_text, when_some, flat_map,
}
use radif.Shared.Labels.{being_saved_label}
use radif.Components.ReceiptPicker.View.{receipt_view}
use radif.PublicOrder.Labels.{
  made_with, message_shop_label, correct_details_label, in_app_hint, out_of_app_hint,
  send_first_label, send_receipt_label, submission_closed, details_recorded, hidden_digits,
  copy_tracking_label,
}
use radif.PublicOrder.State.{State, full_name, mobile, address, postal_code, note}
use radif.PublicOrder.Payment.{truthy_number}
use radif.PublicOrder.View.{history_lines, shows_closed, receipt_line, tracking_code}
use radif.PublicOrder.Page.Payments.{
  Handler, reload, open_picker, remove_receipt, update, submit_details, Look, receipt_name,
  head_part, payments_part,
}

-- `url.split("/").pop()`
unfoldable pub last_segment : Text → Text → Text
last_segment acc [] = acc
last_segment acc (c ∷ t) = last_segment (if c == b'/' then [] else acc ++ c ∷ []) t

unfoldable pub is_instagram : SupportChannel → Bool
is_instagram SupportChannel.instagram = true
is_instagram _ = false

-- `in_app` tells whether the browser is that of Instagram.
unfoldable pub support_address : Bool → Support → Text
unfolding is_instagram last_segment
support_address in_app support =
    if is_instagram support.channel && in_app
    then text "instagram://user?username=" ++ last_segment [] support.url
    else support.url

-- `supportAction`
unfoldable pub support_action : Bool → Text → Option Support → List (Node Handler)
support_action in_app label none = []
support_action in_app label (some support) =
    link label false (support_address in_app support)
    ∷ when (is_instagram support.channel)
        (words (if in_app then in_app_hint else out_of_app_hint) ∷ [])

unfoldable pub error_nodes : Option Text → List (Node Handler)
error_nodes message = when_some message (λ e. words e ∷ [])

unfoldable pub details_form : Bool → Look → State → PublicOrder → List (Node Handler)
details_form in_app l s o =
    support_action in_app message_shop_label o.support
    ++ field s.draft.full_name (update full_name)
      ∷ (error_nodes s.field_errors.full_name
          ++ field s.draft.mobile (update mobile)
            ∷ (error_nodes s.field_errors.mobile
                ++ field s.draft.address (update address)
                  ∷ (error_nodes s.field_errors.address
                      ++ field s.draft.postal_code (update postal_code)
                        ∷ (error_nodes s.field_errors.postal_code
                            ++ field s.draft.note (update note)
                              ∷ words (receipt_name o)
                              ∷ (receipt_view l.megabytes open_picker remove_receipt l.preparing
                                    s.receipt l.preview
                                  ++ (when_text s.receipt_error (λ e. words e ∷ [])
                                      ++ (when_text s.error (λ e. notice e ∷ [])
                                          ++ button
                                              (if s.pending
                                                then being_saved_label
                                                else if truthy_number o.initial_payment_amount
                                                then send_first_label
                                                else send_receipt_label)
                                              s.pending submit_details
                                            ∷ [])))))))

unfoldable pub closed_part : Bool → PublicOrder → List (Node Handler)
closed_part in_app o = words submission_closed ∷ support_action in_app message_shop_label o.support

unfoldable pub summary_nodes : Option CustomerSummary → List (Node Handler)
summary_nodes none = []
summary_nodes (some summary) =
    words summary.full_name
    ∷ words summary.mobile
    ∷ words summary.address_preview
    ∷ when_text summary.postal_code_suffix (λ t. words (hidden_digits ++ t) ∷ [])

unfoldable pub recorded_part : Bool → PublicOrder → List (Node Handler)
recorded_part in_app o =
    words details_recorded
    ∷ words (receipt_line o)
    ∷ (summary_nodes o.customer_summary ++ support_action in_app correct_details_label o.support)

unfoldable pub history_part : Display → PublicOrder → List (Node Handler)
history_part d o =
    flat_map (λ (line : Text × Text). words line.0 ∷ words (d.date_time line.1) ∷ [])
      (history_lines o)

unfoldable pub tracking_part : PublicOrder → List (Node Handler)
tracking_part o =
    when_some (tracking_code o) (λ code. words code ∷ copy_button code copy_tracking_label ∷ [])

unfoldable pub order_part : Bool → Look → State → PublicOrder → List (Node Handler)
order_part in_app l s o =
    head_part l.display o
    ++ (payments_part l s o
        ++ (when o.customer_submission_allowed (details_form in_app l s o)
            ++ (when (shows_closed o) (closed_part in_app o)
                ++ (when o.customer_submitted (recorded_part in_app o)
                    ++ (history_part l.display o ++ tracking_part o)))))

unfoldable pub for_order : Bool → Look → State → Option PublicOrder → List (Node Handler)
for_order in_app l s none = []
for_order in_app l s (some o) = order_part in_app l s o

unfoldable pub view : Bool → Look → State → List (Node Handler)
view in_app l s =
    link made_with false (text "/")
    ∷ (when s.loading (waiting ∷ [])
        ++ (when_text s.error (λ e. retry_notice e reload ∷ []) ++ for_order in_app l s s.order))
