-- ===== src/AdminOrder/View/Customer.antt =====
-- The head of an order's page, its status and its customer (web/src/pages/AdminOrderPage.tsx).
use radif.Prelude.{
  if◌then◌else◌, text, text_eq, Text, Bool, false, not, ◌&&◌, List, [], ◌∷◌, ◌++◌, map,
}
use radif.Shared.Types.{AdminOrder}
use radif.Shared.Digits.{persian_digits}
use radif.Shared.Statuses.{admin_status_labels}
use radif.Shared.Drawing.{
  Node, words, notice, link, copy_button, button, field, choice, Choice, when, when_text,
}
use radif.Shared.Messages.{first_payment_confirmed}
use radif.Shared.Labels.{
  copy_message_label, send_label, copied_label, shared_label, not_copied_label, saving_label,
  cancel_label, save_label, dot,
}
use radif.AdminOrder.Labels.{
  back_to_orders, save_status_label, details_given, receipt_needed, edit_customer_label,
  customer_awaited, copy_label, copy_address_label,
}
use radif.AdminOrder.State.{State, CopyState, idle, copied, shared, failed, status, customer}
use radif.AdminOrder.Save.{status_section, is_saving, status_disabled, is_split, option_disabled}
use radif.AdminOrder.Fields.{
  pick_status, open_customer, close_customer, type_name, type_mobile, type_address,
  type_postal_code, type_customer_note,
}
use radif.AdminOrder.View.Handlers.{
  Handler, copy_message, share_message, save_section, submit_customer, change,
}

unfoldable pub message_state_label : CopyState → List (Node Handler)
message_state_label idle = []
message_state_label copied = words copied_label ∷ []
message_state_label shared = words shared_label ∷ []
message_state_label failed = words not_copied_label ∷ []

-- `search` is the query of the address, and `can_share` whether the browser shares.
unfoldable pub head : Text → Bool → State → AdminOrder → List (Node Handler)
unfolding message_state_label
head search can_share s o =
    link back_to_orders false (text "/orders" ++ search)
      ∷ words (persian_digits o.order_code ++ dot ++ o.shop.name)
      ∷ button copy_message_label false copy_message
      ∷ []
    ++ (when can_share (button send_label false share_message ∷ [])
        ++ (message_state_label s.message_state ++ when_text s.error (λ e. notice e ∷ [])))

-- An option of the choice of a status.
unfoldable pub status_option : AdminOrder → Text × Text → Choice Handler
unfolding option_disabled
status_option o (value, label) =
    let given = text_eq value (text "waiting_info") && o.customer_submitted in
    let missing = text_eq value (text "waiting_payment") && not o.receipt_uploaded in
    let shown =
      if is_split o && text_eq value (text "paid") then first_payment_confirmed else label in
    record {
      value = value;
      label = shown ++ (if given then details_given else if missing then receipt_needed else []);
      disabled = option_disabled value o;
      picked = change (pick_status value);
    }

unfoldable pub status_part : State → AdminOrder → List (Node Handler)
unfolding status_option
status_part s o =
    choice false (map (status_option o) admin_status_labels) s.status
    ∷ button (elim s.saving [ status ↦ saving_label | _ ↦ save_status_label ]) (status_disabled s o)
        (save_section (status_section s.status))
    ∷ []

unfoldable pub customer_shown : AdminOrder → List (Node Handler)
customer_shown o =
    words o.customer_full_name
      ∷ words o.customer_mobile
      ∷ copy_button o.customer_mobile copy_label
      ∷ words o.customer_address
      ∷ copy_button o.customer_address copy_address_label
      ∷ []
    ++ (when_text o.customer_postal_code (λ t. words t ∷ [])
        ++ when_text o.customer_note (λ t. words t ∷ []))

unfoldable pub customer_form : State → List (Node Handler)
customer_form s =
    field s.customer.full_name (λ t. change (type_name t))
    ∷ field s.customer.mobile (λ t. change (type_mobile t))
    ∷ field s.customer.address (λ t. change (type_address t))
    ∷ field s.customer.postal_code (λ t. change (type_postal_code t))
    ∷ field s.customer.note (λ t. change (type_customer_note t))
    ∷ button cancel_label false (change close_customer)
    ∷ button (elim s.saving [ customer ↦ saving_label | _ ↦ save_label ]) (is_saving s.saving)
        submit_customer
    ∷ []

unfoldable pub customer_part : State → AdminOrder → List (Node Handler)
unfolding customer_shown customer_form
customer_part s o =
    when (o.customer_submitted && not s.editing_customer)
      (button edit_customer_label false (change open_customer) ∷ [])
    ++ (when (not o.customer_submitted) (words customer_awaited ∷ [])
        ++ (when (o.customer_submitted && not s.editing_customer) (customer_shown o)
            ++ when (o.customer_submitted && s.editing_customer) (customer_form s)))
