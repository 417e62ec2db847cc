-- ===== src/CreateOrder/View.antt =====
-- What the page of a new order draws (web/src/pages/CreateOrderPage.tsx). The picker of a date stands as
-- a field: what it hands on is a date.
pub mod Offers
pub mod Ways
use radif.Prelude.{
  ltb, if◌then◌else◌, is_empty, text, decimal, number, Text, ℕ, ◌+◌, ◌-◌, ◌/◌, Bool, true, false,
  not, ◌&&◌, ◌||◌, Option, none, some, List, [], ◌∷◌, ◌++◌,
}
use radif.Shared.Types.{Product, CreatedOrder}
use radif.Shared.Digits.{persian_digits}
use radif.Shared.Storage.{channel_text}
use radif.Shared.Channels.{channel_options}
use radif.Shared.Drawing.{
  Node, words, notice, retry_notice, waiting, link, marked_link, button, field, checkbox, choice,
  Display, when, when_text,
}
use radif.Shared.Labels.{
  tomans, cancel_label, copied_label, shared_label, not_copied_label, message_copied_label,
  copy_message_label, send_label, save_date_label,
}
use radif.Components.ProductChoices.{Change, items_total}
use radif.Components.ProductChoices.View.{choices_view}
use radif.CreateOrder.Labels.{
  change_date_label, copying_label, link_copied_label, copy_link_label, link_not_copied,
  another_order_label, open_order_label, to_orders_label, import_label, no_active_product,
  discount_applied, discount_hint, price_of_products, dash, days_from_today, pick_promised_date,
  creating_label, create_label,
}
use radif.CreateOrder.State.{State, CopyState, idle, copying, copied, shared, failed}
use radif.CreateOrder.Fields.{
  Edit, focus_amount, focus_initial, pick_channel, type_reference, type_note, pick_updated_date,
  open_date_editor, close_date_editor,
}

pub data Handler : Type 0 where
  load : Handler
  toggled : Product → Handler
  changed : ℕ → Change → Handler
  type_amount type_initial pick_date : Text → Handler
  check_split : Bool → Handler
  change : Edit → Handler
  copy_message share_order copy_link : Handler
  submit save_date reset : Handler

-- Whether a handler calls the server to make or change an order, or drops the form.
unfoldable pub is_serious : Handler → Bool
is_serious submit = true
is_serious save_date = true
is_serious reset = true
is_serious _ = false

unfoldable pub copy_state_label : CopyState → List (Node Handler)
copy_state_label idle = []
copy_state_label copying = words copying_label ∷ []
copy_state_label copied = words copied_label ∷ []
copy_state_label shared = words shared_label ∷ []
copy_state_label failed = words not_copied_label ∷ []

unfoldable pub is_copying : CopyState → Bool
is_copying copying = true
is_copying _ = false

unfoldable pub date_editor : State → List (Node Handler)
date_editor s =
    field s.updated_delivery_date (λ t. change (pick_updated_date t))
    ∷ (when_text s.delivery_update_error (λ e. words e ∷ [])
        ++ button cancel_label s.delivery_update_pending (change close_date_editor)
          ∷ button (if s.delivery_update_pending then [] else save_date_label)
              s.delivery_update_pending save_date
          ∷ [])

unfoldable pub link_copy_notice : CopyState → List (Node Handler)
link_copy_notice failed = words link_not_copied ∷ []
link_copy_notice _ = []

unfoldable pub created_links : State → CreatedOrder → List (Node Handler)
created_links s order =
    button another_order_label s.pending reset
    ∷ marked_link open_order_label s.pending (text "/orders/" ++ decimal order.id)
    ∷ marked_link to_orders_label s.pending (text "/orders")
    ∷ []

unfoldable pub created_messages : Bool → State → CreatedOrder → List (Node Handler)
unfolding copy_state_label is_copying link_copy_notice
created_messages can_share s order =
    copy_state_label s.copy_state
    ++ button (elim s.copy_state [ copied ↦ message_copied_label | _ ↦ copy_message_label ])
        (is_copying s.copy_state) copy_message
      ∷ (when can_share (button send_label false share_order ∷ [])
          ++ words order.customer_url
            ∷ button (elim s.link_copy_state [ copied ↦ link_copied_label | _ ↦ copy_link_label ])
                false copy_link
            ∷ link_copy_notice s.link_copy_state)

unfoldable pub created_view : Display → Bool → State → CreatedOrder → List (Node Handler)
created_view d can_share s order =
    words (persian_digits order.order_code)
    ∷ words (d.date order.estimated_delivery_date)
    ∷ (when (not s.editing_delivery_date)
          (button change_date_label false (change open_date_editor) ∷ [])
        ++ (when s.editing_delivery_date (date_editor s)
            ++ (created_messages can_share s order ++ created_links s order)))

-- The value of a field of an amount: as it is typed, or as a number.
unfoldable pub shown_amount : Display → Bool → Text → Text
shown_amount d focused amount = if focused then persian_digits amount else d.number (number amount)

unfoldable pub discount_line : Display → State → Text
discount_line d s =
    if ltb 0 (number s.amount) && ltb (number s.amount) (items_total s.items)
    then d.number (items_total s.items - number s.amount) ++ discount_applied
    else discount_hint

unfoldable pub rest_line : Display → State → Text
rest_line d s =
    (if ltb (number s.initial_payment_amount) (number s.amount)
      then d.number (number s.amount - number s.initial_payment_amount)
      else dash)
    ++ tomans

unfoldable pub split_part : Display → State → List (Node Handler)
unfolding shown_amount rest_line
split_part d s =
    field (shown_amount d s.initial_payment_focused s.initial_payment_amount) type_initial
    ∷ (when_text s.initial_payment_error (λ e. words e ∷ [])
        ++ words (d.number (number s.initial_payment_amount) ++ tomans)
          ∷ words (rest_line d s)
          ∷ [])

-- `deliveryDateHelp`
unfoldable pub date_help : Display → State → Text
date_help d s =
    if ltb 0 s.work_days
    then d.number s.work_days ++ days_from_today
    else if is_empty s.delivery_date
    then pick_promised_date
    else []

unfoldable pub fields_part : Display → State → List (Node Handler)
fields_part d s =
    words (price_of_products ++ (d.number (items_total s.items) ++ tomans))
    ∷ field (shown_amount d s.amount_focused s.amount) type_amount
    ∷ (when_text s.amount_error (λ e. words e ∷ [])
        ++ words (discount_line d s)
          ∷ checkbox s.split_payment check_split
          ∷ (when s.split_payment (split_part d s)
              ++ field s.delivery_date pick_date
                ∷ (when_text (date_help d s) (λ t. words t ∷ [])
                    ++ (when_text s.delivery_date_error (λ e. words e ∷ [])
                        ++ choice false (channel_options (λ c. change (pick_channel c)))
                            (channel_text s.sales_channel)
                          ∷ field s.conversation_reference (λ t. change (type_reference t))
                          ∷ field s.note (λ t. change (type_note t))
                          ∷ []))))

unfoldable pub products_part : Display → State → List (Node Handler)
products_part d s =
    when s.loading (waiting ∷ [])
    ++ (when_text s.load_error (λ e. retry_notice e load ∷ [])
        ++ (when (not s.loading && is_empty s.load_error && is_empty s.products)
              (words no_active_product ∷ [])
            ++ choices_view d toggled changed s.products s.items))

unfoldable pub submit_disabled : State → Bool
submit_disabled s = is_empty s.items || is_empty s.delivery_date || s.pending || s.loading

unfoldable pub form_view : Display → Text → State → List (Node Handler)
form_view d shop_name s =
    words shop_name
    ∷ link import_label false (text "/orders/import")
    ∷ (products_part d s
        ++ (when (not (is_empty s.items)) (fields_part d s)
            ++ (when_text s.error (λ e. notice e ∷ [])
                ++ button (if s.pending then creating_label else create_label) (submit_disabled s)
                    submit
                  ∷ [])))

-- The page for the order that was made, if there is one.
unfoldable pub page_view : Display → Text → Bool → State → Option CreatedOrder → List (Node Handler)
page_view d shop_name can_share s none = form_view d shop_name s
page_view d shop_name can_share s (some order) = created_view d can_share s order

unfoldable pub view : Display → Text → Bool → State → List (Node Handler)
unfolding page_view
view d shop_name can_share s = page_view d shop_name can_share s s.created
