-- ===== src/HistoricalOrder/View.antt =====
-- What the page of an old order draws (web/src/pages/HistoricalOrderPage.tsx). The picker of a date stands
-- as a field, and the texts of the receipt's picker are in its own module.
pub mod Offers
use radif.Prelude.{
  if◌then◌else◌, or_else, is_empty, text, trim, decimal, number, Text, ℕ, ◌+◌, ◌/◌, Bool, true,
  false, not, ◌&&◌, ◌||◌, Option, none, some, List, [], ◌∷◌, ◌++◌, map,
}
use radif.Shared.Types.{Product, CreatedOrder}
use radif.Shared.Api.{File}
use radif.Shared.Digits.{persian_digits}
use radif.Shared.Storage.{channel_text}
use radif.Shared.Channels.{sales_channel_label, channel_options}
use radif.Shared.Statuses.{admin_status_labels, label_in}
use radif.Shared.Drawing.{
  Node, words, notice, retry_notice, waiting, link, button, field, choice, Choice, Display, when,
  when_text, flat_map,
}
use radif.Shared.Labels.{tomans, times, being_saved_label}
use radif.Components.ProductChoices.{SelectedOrderItem, Change}
use radif.Components.ProductChoices.View.{choices_view}
use radif.Components.ReceiptPicker.View.{receipt_view}
use radif.CreateOrder.Labels.{no_active_product}
use radif.HistoricalOrder.Labels.{
  back_to_new_label, back_label, correct_label, record_label, attached_label, without_receipt,
  review_label,
}
use radif.HistoricalOrder.State.{State, import_statuses}
use radif.HistoricalOrder.Fields.{
  Edit, type_amount, focus_amount, pick_date, type_name, type_mobile, type_address,
  type_postal_code, pick_status, pick_channel, type_reference, type_note, submit_disabled,
}

pub data Handler : Type 0 where
  load open_picker remove_receipt : Handler
  toggled : Product → Handler
  changed : ℕ → Change → Handler
  change : Edit → Handler
  back review submit : Handler

unfoldable pub is_serious : Handler → Bool
is_serious back = true
is_serious review = true
is_serious submit = true
is_serious _ = false

unfoldable pub item_nodes : Display → SelectedOrderItem → List (Node Handler)
item_nodes d item = words (item.product.name ++ (times ++ d.number item.quantity)) ∷ []

unfoldable pub has_receipt : Option File → Bool
has_receipt none = false
has_receipt (some file) = true

-- A status that is none of the labels' is drawn as nothing.
unfoldable pub reviewed : Display → State → List (Node Handler)
reviewed d s =
    words (d.number (number s.amount) ++ tomans)
    ∷ words (d.date s.delivery_date)
    ∷ words s.customer.full_name
    ∷ words s.customer.mobile
    ∷ words s.customer.address
    ∷ (when_text s.customer.postal_code (λ t. words t ∷ [])
        ++ words (or_else (label_in admin_status_labels s.status) [])
          ∷ words (if has_receipt s.receipt then attached_label else without_receipt)
          ∷ words (sales_channel_label s.sales_channel)
          ∷ (when_text (trim s.conversation_reference) (λ t. words t ∷ [])
              ++ when_text (trim s.note) (λ t. words t ∷ [])))

unfoldable pub review_view : Display → State → List (Node Handler)
review_view d s =
    button back_label s.pending back
    ∷ (flat_map (item_nodes d) s.items
        ++ (reviewed d s
            ++ (when_text s.error (λ e. notice e ∷ [])
                ++ button correct_label s.pending back
                  ∷ button (if s.pending then being_saved_label else record_label)
                      (submit_disabled s) submit
                  ∷ [])))

unfoldable pub created_part : Option CreatedOrder → List (Node Handler)
created_part none = []
created_part (some order) =
    link (persian_digits order.order_code) false (text "/orders/" ++ decimal order.id) ∷ []

unfoldable pub products_part : Display → State → List (Node Handler)
products_part d s =
    when s.loading (waiting ∷ [])
    ++ (when_text s.load_error (λ e. retry_notice e load ∷ [])
        ++ (when (not s.loading && is_empty s.load_error && is_empty s.products)
              (words no_active_product ∷ [])
            ++ when (not s.loading && is_empty s.load_error)
                (choices_view d toggled changed s.products s.items)))

unfoldable pub status_option : Text → Choice Handler
status_option value = record {
  value = value;
  label = or_else (label_in admin_status_labels value) [];
  disabled = false;
  picked = change (pick_status value);
}

unfoldable pub fields_part : (ℕ → Text) → Text → Display → State → List (Node Handler)
fields_part megabytes preview d s =
    field (if s.amount_focused then persian_digits s.amount else d.number (number s.amount))
      (λ t. change (type_amount t))
    ∷ field s.delivery_date (λ t. change (pick_date t))
    ∷ field s.customer.full_name (λ t. change (type_name t))
    ∷ field s.customer.mobile (λ t. change (type_mobile t))
    ∷ field s.customer.address (λ t. change (type_address t))
    ∷ field s.customer.postal_code (λ t. change (type_postal_code t))
    ∷ choice false (map status_option import_statuses) s.status
    ∷ (receipt_view megabytes open_picker remove_receipt s.receipt_busy s.receipt preview
        ++ choice false (channel_options (λ c. change (pick_channel c)))
            (channel_text s.sales_channel)
          ∷ field s.conversation_reference (λ t. change (type_reference t))
          ∷ field s.note (λ t. change (type_note t))
          ∷ [])

unfoldable pub review_disabled : State → Bool
review_disabled s = is_empty s.items || s.pending || s.loading || s.receipt_busy

unfoldable pub form_view : (ℕ → Text) → Text → Display → Text → State → List (Node Handler)
form_view megabytes preview d shop_name s =
    link back_to_new_label false (text "/orders/new")
    ∷ words shop_name
    ∷ (created_part s.created
        ++ (products_part d s
            ++ (when (not (is_empty s.items)) (fields_part megabytes preview d s)
                ++ (when_text s.error (λ e. notice e ∷ [])
                    ++ button review_label (review_disabled s) review ∷ []))))

unfoldable pub view : (ℕ → Text) → Text → Display → Text → State → List (Node Handler)
view megabytes preview d shop_name s =
    if s.reviewing then review_view d s else form_view megabytes preview d shop_name s
