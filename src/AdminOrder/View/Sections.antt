-- ===== src/AdminOrder/View/Sections.antt =====
-- The products, the delivery, the internal fields, the link and the history of an order's page, and the
-- whole page (web/src/pages/AdminOrderPage.tsx).
use radif.Prelude.{
  if◌then◌else◌, or_else, is_empty, text, text_eq, Text, Bool, false, not, ◌&&◌, none, some, List,
  [], ◌∷◌, ◌++◌,
}
use radif.Shared.Types.{AdminOrder, AdminItem, AdminHistoryEntry}
use radif.Shared.Storage.{channel_text}
use radif.Shared.Channels.{sales_channel_label, channel_options}
use radif.Shared.Statuses.{admin_status_labels, label_in}
use radif.Shared.Drawing.{
  Node, words, notice, waiting, copy_button, button, field, choice, Display, when, when_text,
  flat_map,
}
use radif.Shared.Messages.{first_payment_confirmed}
use radif.Shared.Labels.{times, dot, saving_label, save_date_label, cancel_label, save_label}
use radif.AdminOrder.Labels.{
  order_not_found, pick_date_notice, copy_tracking_label, save_tracking_label, quick_edit_label,
  not_recorded, no_note, copy_link_label, making_link_label, new_link_label, link_was_rotated,
}
use radif.AdminOrder.State.{State, date, tracking, internal, link}
use radif.AdminOrder.Save.{
  date_section, tracking_section, internal_section, is_saving, date_disabled, tracking_disabled,
  is_split,
}
use radif.AdminOrder.Fields.{
  pick_date, type_tracking, open_internal, close_internal, pick_channel, type_reference, type_note,
}
use radif.AdminOrder.View.Handlers.{Handler, save_section, rotate_link, change}
use radif.AdminOrder.View.Customer.{head, status_part, customer_part}
use radif.AdminOrder.View.Payments.{in_tomans, told, payments_part}

unfoldable pub item_nodes : Display → AdminItem → List (Node Handler)
unfolding in_tomans
item_nodes d item =
    words (item.name ++ times ++ d.number item.quantity) ∷ in_tomans d item.unit_price ∷ []

unfoldable pub items_part : Display → AdminOrder → List (Node Handler)
unfolding item_nodes in_tomans
items_part d o = flat_map (item_nodes d) o.items ++ in_tomans d o.amount ∷ []

-- The picker of the date stands as a field: what it hands on is a date.
unfoldable pub shipping_part : Display → State → AdminOrder → List (Node Handler)
shipping_part d s o =
    field s.date (λ t. change (pick_date t))
    ∷ words (if is_empty s.date then pick_date_notice else d.date s.date)
    ∷ button (elim s.saving [ date ↦ saving_label | _ ↦ save_date_label ]) (date_disabled s o)
        (save_section (date_section s.date))
    ∷ field s.tracking (λ t. change (type_tracking t))
    ∷ (when_text s.tracking (λ t. copy_button t copy_tracking_label ∷ [])
        ++ button (elim s.saving [ tracking ↦ saving_label | _ ↦ save_tracking_label ])
            (tracking_disabled s o) (save_section (tracking_section s.tracking))
          ∷ [])

-- JavaScript's `||` of texts.
unfoldable pub text_or : Text → Text → Text
text_or [] u = u
text_or (c ∷ t) u = c ∷ t

unfoldable pub internal_shown : AdminOrder → List (Node Handler)
unfolding text_or
internal_shown o =
    words (sales_channel_label o.sales_channel)
    ∷ words (text_or o.conversation_reference not_recorded)
    ∷ words (text_or o.internal_note no_note)
    ∷ []

unfoldable pub internal_form : State → List (Node Handler)
internal_form s =
    choice false (channel_options (λ c. change (pick_channel c))) (channel_text s.sales_channel)
    ∷ field s.conversation_reference (λ t. change (type_reference t))
    ∷ field s.internal_note (λ t. change (type_note t))
    ∷ button cancel_label false (change close_internal)
    ∷ button (elim s.saving [ internal ↦ saving_label | _ ↦ save_label ]) (is_saving s.saving)
        (save_section (
          internal_section (channel_text s.sales_channel) s.conversation_reference s.internal_note))
    ∷ []

unfoldable pub internal_part : State → AdminOrder → List (Node Handler)
unfolding internal_shown internal_form
internal_part s o =
    when (not s.editing_internal) (button quick_edit_label false (change open_internal) ∷ [])
    ++ (when (not s.editing_internal) (internal_shown o)
        ++ when s.editing_internal (internal_form s))

-- The link of the customer is not offered while a new one is made.
unfoldable pub link_part : State → AdminOrder → List (Node Handler)
link_part s o =
    words o.customer_url
    ∷ (elim s.saving [ link ↦ [] | _ ↦ copy_button o.customer_url copy_link_label ∷ [] ]
        ++ button (elim s.saving [ link ↦ making_link_label | _ ↦ new_link_label ])
            (is_saving s.saving) rotate_link
          ∷ when s.link_rotated (words link_was_rotated ∷ []))

unfoldable pub history_nodes : Display → AdminOrder → AdminHistoryEntry → List (Node Handler)
unfolding told
history_nodes d o entry =
    words (
      if is_split o && text_eq entry.new_status (text "paid")
      then first_payment_confirmed
      else or_else (label_in admin_status_labels entry.new_status) entry.new_status)
    ∷ words (d.date_time entry.created_at ++ told entry.changed_by_admin_name (λ name. dot ++ name))
    ∷ []

unfoldable pub history_part : Display → AdminOrder → List (Node Handler)
unfolding history_nodes
history_part d o =
    flat_map (history_nodes d o) o.history
    ++ words (d.date_time o.created_at) ∷ words (d.date_time o.updated_at) ∷ []

unfoldable pub order_view : Display → Text → Bool → State → AdminOrder → List (Node Handler)
order_view d search can_share s o =
    head search can_share s o
    ++ (status_part s o
        ++ (customer_part s o
            ++ (payments_part d s o
                ++ (items_part d o
                    ++ (shipping_part d s o
                        ++ (internal_part s o ++ (link_part s o ++ history_part d o)))))))

-- The page: while it loads, without an order, and with one.
unfoldable pub view : Display → Text → Bool → State → List (Node Handler)
unfolding order_view text_or
view d search can_share s = if s.loading then waiting ∷ [] else elim s.order [
  | none ↦ notice (text_or s.error order_not_found) ∷ []
  | some o ↦ order_view d search can_share s o
]
