-- ===== src/Shared/Messages.antt =====
-- The fixed messages of the pages, each with its meaning in English.
use radif.Prelude.{Text, text}

-- the server was not reached; check the network and try again
abbrev pub no_connection : Text
no_connection =
    text
      "\u{627}\u{631}\u{62a}\u{628}\u{627}\u{637} \u{628}\u{627} \u{631}\u{62f}\u{6cc}\u{641} \u{628}\u{631}\u{642}\u{631}\u{627}\u{631} \u{646}\u{634}\u{62f}. \u{627}\u{6cc}\u{646}\u{62a}\u{631}\u{646}\u{62a} \u{631}\u{627} \u{628}\u{631}\u{631}\u{633}\u{6cc} \u{648} \u{62f}\u{648}\u{628}\u{627}\u{631}\u{647} \u{62a}\u{644}\u{627}\u{634} \u{6a9}\u{646}\u{6cc}\u{62f}."

-- the server was not reached; try again
abbrev pub no_answer : Text
no_answer =
    text
      "\u{627}\u{631}\u{62a}\u{628}\u{627}\u{637} \u{628}\u{627} \u{631}\u{62f}\u{6cc}\u{641} \u{628}\u{631}\u{642}\u{631}\u{627}\u{631} \u{646}\u{634}\u{62f}. \u{62f}\u{648}\u{628}\u{627}\u{631}\u{647} \u{62a}\u{644}\u{627}\u{634} \u{6a9}\u{646}\u{6cc}\u{62f}."

-- the products were not received
abbrev pub products_not_loaded : Text
products_not_loaded =
    text
      "\u{645}\u{62d}\u{635}\u{648}\u{644}\u{200c}\u{647}\u{627} \u{62f}\u{631}\u{6cc}\u{627}\u{641}\u{62a} \u{646}\u{634}\u{62f}\u{646}\u{62f}."

-- enter the order's amount as a number above zero
abbrev pub amount_not_positive : Text
amount_not_positive =
    text
      "\u{645}\u{628}\u{644}\u{63a} \u{633}\u{641}\u{627}\u{631}\u{634} \u{631}\u{627} \u{628}\u{647}\u{200c}\u{635}\u{648}\u{631}\u{62a} \u{6cc}\u{6a9} \u{639}\u{62f}\u{62f} \u{628}\u{632}\u{631}\u{6af}\u{200c}\u{62a}\u{631} \u{627}\u{632} \u{635}\u{641}\u{631} \u{648}\u{627}\u{631}\u{62f} \u{6a9}\u{646}\u{6cc}\u{62f}."

-- the first payment must be above zero and below the order's amount
abbrev pub initial_payment_out_of_range : Text
initial_payment_out_of_range =
    text
      "\u{645}\u{628}\u{644}\u{63a} \u{67e}\u{631}\u{62f}\u{627}\u{62e}\u{62a} \u{627}\u{648}\u{644} \u{628}\u{627}\u{6cc}\u{62f} \u{628}\u{6cc}\u{634}\u{62a}\u{631} \u{627}\u{632} \u{635}\u{641}\u{631} \u{648} \u{6a9}\u{645}\u{62a}\u{631} \u{627}\u{632} \u{645}\u{628}\u{644}\u{63a} \u{633}\u{641}\u{627}\u{631}\u{634} \u{628}\u{627}\u{634}\u{62f}."

-- choose today or a later day for the delivery
abbrev pub delivery_date_in_past : Text
delivery_date_in_past =
    text
      "\u{62a}\u{627}\u{631}\u{6cc}\u{62e} \u{62a}\u{62d}\u{648}\u{6cc}\u{644} \u{631}\u{627} \u{628}\u{631}\u{627}\u{6cc} \u{627}\u{645}\u{631}\u{648}\u{632} \u{6cc}\u{627} \u{6cc}\u{6a9}\u{6cc} \u{627}\u{632} \u{631}\u{648}\u{632}\u{647}\u{627}\u{6cc} \u{628}\u{639}\u{62f} \u{627}\u{646}\u{62a}\u{62e}\u{627}\u{628} \u{6a9}\u{646}\u{6cc}\u{62f}."

-- the order was not created; try again
abbrev pub order_not_created : Text
order_not_created =
    text
      "\u{633}\u{641}\u{627}\u{631}\u{634} \u{633}\u{627}\u{62e}\u{62a}\u{647} \u{646}\u{634}\u{62f}. \u{62f}\u{648}\u{628}\u{627}\u{631}\u{647} \u{62a}\u{644}\u{627}\u{634} \u{6a9}\u{646}\u{6cc}\u{62f}."

-- the delivery date did not change
abbrev pub delivery_date_not_changed : Text
delivery_date_not_changed =
    text
      "\u{62a}\u{627}\u{631}\u{6cc}\u{62e} \u{62a}\u{62d}\u{648}\u{6cc}\u{644} \u{62a}\u{63a}\u{6cc}\u{6cc}\u{631} \u{646}\u{6a9}\u{631}\u{62f}."

-- the order was not received
abbrev pub order_not_loaded : Text
order_not_loaded =
    text
      "\u{633}\u{641}\u{627}\u{631}\u{634} \u{62f}\u{631}\u{6cc}\u{627}\u{641}\u{62a} \u{646}\u{634}\u{62f}."

-- enter the full name
abbrev pub name_missing : Text
name_missing =
    text
      "\u{646}\u{627}\u{645} \u{648} \u{646}\u{627}\u{645} \u{62e}\u{627}\u{646}\u{648}\u{627}\u{62f}\u{6af}\u{6cc} \u{631}\u{627} \u{648}\u{627}\u{631}\u{62f} \u{6a9}\u{646}\u{6cc}\u{62f}."

-- enter a valid Iranian mobile number
abbrev pub mobile_invalid : Text
mobile_invalid =
    text
      "\u{634}\u{645}\u{627}\u{631}\u{647} \u{645}\u{648}\u{628}\u{627}\u{6cc}\u{644} \u{645}\u{639}\u{62a}\u{628}\u{631} \u{627}\u{6cc}\u{631}\u{627}\u{646}\u{6cc} \u{648}\u{627}\u{631}\u{62f} \u{6a9}\u{646}\u{6cc}\u{62f}."

-- enter the full address
abbrev pub address_missing : Text
address_missing =
    text
      "\u{646}\u{634}\u{627}\u{646}\u{6cc} \u{6a9}\u{627}\u{645}\u{644} \u{631}\u{627} \u{648}\u{627}\u{631}\u{62f} \u{6a9}\u{646}\u{6cc}\u{62f}."

-- the postal code must have ten digits
abbrev pub postal_code_invalid : Text
postal_code_invalid =
    text
      "\u{6a9}\u{62f} \u{67e}\u{633}\u{62a}\u{6cc} \u{628}\u{627}\u{6cc}\u{62f} ۱۰ \u{631}\u{642}\u{645} \u{628}\u{627}\u{634}\u{62f}."

-- choose the picture of the receipt
abbrev pub receipt_missing : Text
receipt_missing =
    text
      "\u{62a}\u{635}\u{648}\u{6cc}\u{631} \u{631}\u{633}\u{6cc}\u{62f} \u{67e}\u{631}\u{62f}\u{627}\u{62e}\u{62a} \u{631}\u{627} \u{627}\u{646}\u{62a}\u{62e}\u{627}\u{628} \u{6a9}\u{646}\u{6cc}\u{62f}."

-- the details were not saved; try again
abbrev pub details_not_saved : Text
details_not_saved =
    text
      "\u{627}\u{637}\u{644}\u{627}\u{639}\u{627}\u{62a} \u{62b}\u{628}\u{62a} \u{646}\u{634}\u{62f}. \u{62f}\u{648}\u{628}\u{627}\u{631}\u{647} \u{62a}\u{644}\u{627}\u{634} \u{6a9}\u{646}\u{6cc}\u{62f}."

-- choose the picture of the final receipt
abbrev pub final_receipt_missing : Text
final_receipt_missing =
    text
      "\u{62a}\u{635}\u{648}\u{6cc}\u{631} \u{631}\u{633}\u{6cc}\u{62f} \u{67e}\u{631}\u{62f}\u{627}\u{62e}\u{62a} \u{646}\u{647}\u{627}\u{6cc}\u{6cc} \u{631}\u{627} \u{627}\u{646}\u{62a}\u{62e}\u{627}\u{628} \u{6a9}\u{646}\u{6cc}\u{62f}."

-- the final receipt was not saved
abbrev pub final_receipt_not_saved : Text
final_receipt_not_saved =
    text
      "\u{631}\u{633}\u{6cc}\u{62f} \u{67e}\u{631}\u{62f}\u{627}\u{62e}\u{62a} \u{646}\u{647}\u{627}\u{6cc}\u{6cc} \u{62b}\u{628}\u{62a} \u{646}\u{634}\u{62f}."

-- the changes were not saved
abbrev pub changes_not_saved : Text
changes_not_saved =
    text
      "\u{62a}\u{63a}\u{6cc}\u{6cc}\u{631}\u{627}\u{62a} \u{630}\u{62e}\u{6cc}\u{631}\u{647} \u{646}\u{634}\u{62f}."

-- check the name, mobile, address and postal code
abbrev pub customer_fields_invalid : Text
customer_fields_invalid =
    text
      "\u{646}\u{627}\u{645}، \u{634}\u{645}\u{627}\u{631}\u{647} \u{645}\u{648}\u{628}\u{627}\u{6cc}\u{644}، \u{646}\u{634}\u{627}\u{646}\u{6cc} \u{648} \u{6a9}\u{62f} \u{67e}\u{633}\u{62a}\u{6cc} \u{631}\u{627} \u{628}\u{631}\u{631}\u{633}\u{6cc} \u{6a9}\u{646}\u{6cc}\u{62f}."

-- the new link was not created
abbrev pub link_not_created : Text
link_not_created =
    text
      "\u{644}\u{6cc}\u{646}\u{6a9} \u{62c}\u{62f}\u{6cc}\u{62f} \u{633}\u{627}\u{62e}\u{62a}\u{647} \u{646}\u{634}\u{62f}."

-- the request of the final payment was not saved
abbrev pub final_request_not_saved : Text
final_request_not_saved =
    text
      "\u{62f}\u{631}\u{62e}\u{648}\u{627}\u{633}\u{62a} \u{67e}\u{631}\u{62f}\u{627}\u{62e}\u{62a} \u{646}\u{647}\u{627}\u{6cc}\u{6cc} \u{62b}\u{628}\u{62a} \u{646}\u{634}\u{62f}."

-- the final payment was not confirmed
abbrev pub final_not_confirmed : Text
final_not_confirmed =
    text
      "\u{67e}\u{631}\u{62f}\u{627}\u{62e}\u{62a} \u{646}\u{647}\u{627}\u{6cc}\u{6cc} \u{62a}\u{623}\u{6cc}\u{6cc}\u{62f} \u{646}\u{634}\u{62f}."

-- wait until the picture of the receipt is ready
abbrev pub receipt_busy_notice : Text
receipt_busy_notice =
    text
      "\u{6a9}\u{645}\u{6cc} \u{635}\u{628}\u{631} \u{6a9}\u{646}\u{6cc}\u{62f} \u{62a}\u{627} \u{62a}\u{635}\u{648}\u{6cc}\u{631} \u{631}\u{633}\u{6cc}\u{62f} \u{622}\u{645}\u{627}\u{62f}\u{647} \u{634}\u{648}\u{62f}."

-- this status needs the picture of the receipt
abbrev pub status_needs_receipt : Text
status_needs_receipt =
    text
      "\u{628}\u{631}\u{627}\u{6cc} \u{648}\u{636}\u{639}\u{6cc}\u{62a} \u{62f}\u{631} \u{627}\u{646}\u{62a}\u{638}\u{627}\u{631} \u{62a}\u{623}\u{6cc}\u{6cc}\u{62f} \u{67e}\u{631}\u{62f}\u{627}\u{62e}\u{62a}، \u{62a}\u{635}\u{648}\u{6cc}\u{631} \u{631}\u{633}\u{6cc}\u{62f} \u{631}\u{627} \u{627}\u{646}\u{62a}\u{62e}\u{627}\u{628} \u{6a9}\u{646}\u{6cc}\u{62f}."

-- check the products and the final amount
abbrev pub items_or_amount_invalid : Text
items_or_amount_invalid =
    text
      "\u{645}\u{62d}\u{635}\u{648}\u{644}\u{200c}\u{647}\u{627} \u{648} \u{645}\u{628}\u{644}\u{63a} \u{646}\u{647}\u{627}\u{6cc}\u{6cc} \u{633}\u{641}\u{627}\u{631}\u{634} \u{631}\u{627} \u{628}\u{631}\u{631}\u{633}\u{6cc} \u{6a9}\u{646}\u{6cc}\u{62f}."

-- choose the delivery date
abbrev pub delivery_date_missing : Text
delivery_date_missing =
    text
      "\u{62a}\u{627}\u{631}\u{6cc}\u{62e} \u{62a}\u{62d}\u{648}\u{6cc}\u{644} \u{631}\u{627} \u{627}\u{646}\u{62a}\u{62e}\u{627}\u{628} \u{6a9}\u{646}\u{6cc}\u{62f}."

-- check the customer's name, mobile, address and postal code
abbrev pub customer_of_order_invalid : Text
customer_of_order_invalid =
    text
      "\u{646}\u{627}\u{645}، \u{634}\u{645}\u{627}\u{631}\u{647} \u{645}\u{648}\u{628}\u{627}\u{6cc}\u{644}، \u{646}\u{634}\u{627}\u{646}\u{6cc} \u{648} \u{6a9}\u{62f} \u{67e}\u{633}\u{62a}\u{6cc} \u{645}\u{634}\u{62a}\u{631}\u{6cc} \u{631}\u{627} \u{628}\u{631}\u{631}\u{633}\u{6cc} \u{6a9}\u{646}\u{6cc}\u{62f}."

-- the order was not saved; try again
abbrev pub order_not_imported : Text
order_not_imported =
    text
      "\u{633}\u{641}\u{627}\u{631}\u{634} \u{62b}\u{628}\u{62a} \u{646}\u{634}\u{62f}. \u{62f}\u{648}\u{628}\u{627}\u{631}\u{647} \u{62a}\u{644}\u{627}\u{634} \u{6a9}\u{646}\u{6cc}\u{62f}."

-- the orders were not received
abbrev pub orders_not_loaded : Text
orders_not_loaded =
    text
      "\u{633}\u{641}\u{627}\u{631}\u{634}\u{200c}\u{647}\u{627} \u{62f}\u{631}\u{6cc}\u{627}\u{641}\u{62a} \u{646}\u{634}\u{62f}\u{646}\u{62f}."

-- no more orders were received
abbrev pub more_orders_not_loaded : Text
more_orders_not_loaded =
    text
      "\u{633}\u{641}\u{627}\u{631}\u{634}\u{200c}\u{647}\u{627}\u{6cc} \u{628}\u{6cc}\u{634}\u{62a}\u{631} \u{62f}\u{631}\u{6cc}\u{627}\u{641}\u{62a} \u{646}\u{634}\u{62f}\u{646}\u{62f}."

-- the card was not saved
abbrev pub card_not_saved : Text
card_not_saved =
    text "\u{6a9}\u{627}\u{631}\u{62a} \u{630}\u{62e}\u{6cc}\u{631}\u{647} \u{646}\u{634}\u{62f}."

-- the payment details were not saved
abbrev pub card_details_not_saved : Text
card_details_not_saved =
    text
      "\u{627}\u{637}\u{644}\u{627}\u{639}\u{627}\u{62a} \u{67e}\u{631}\u{62f}\u{627}\u{62e}\u{62a} \u{630}\u{62e}\u{6cc}\u{631}\u{647} \u{646}\u{634}\u{62f}."

-- the card was not activated
abbrev pub card_not_activated : Text
card_not_activated =
    text
      "\u{634}\u{645}\u{627}\u{631}\u{647} \u{6a9}\u{627}\u{631}\u{62a} \u{641}\u{639}\u{627}\u{644} \u{646}\u{634}\u{62f}."

-- the shop's settings were not saved
abbrev pub shop_settings_not_saved : Text
shop_settings_not_saved =
    text
      "\u{62a}\u{646}\u{638}\u{6cc}\u{645}\u{627}\u{62a} \u{641}\u{631}\u{648}\u{634}\u{6af}\u{627}\u{647} \u{630}\u{62e}\u{6cc}\u{631}\u{647} \u{646}\u{634}\u{62f}."

-- the logo was not saved
abbrev pub logo_not_saved : Text
logo_not_saved =
    text "\u{644}\u{648}\u{6af}\u{648} \u{630}\u{62e}\u{6cc}\u{631}\u{647} \u{646}\u{634}\u{62f}."

-- the logout failed; try again
abbrev pub logout_failed : Text
logout_failed =
    text
      "\u{62e}\u{631}\u{648}\u{62c} \u{627}\u{646}\u{62c}\u{627}\u{645} \u{646}\u{634}\u{62f}. \u{62f}\u{648}\u{628}\u{627}\u{631}\u{647} \u{62a}\u{644}\u{627}\u{634} \u{6a9}\u{646}\u{6cc}\u{62f}."

-- the product was not found
abbrev pub product_not_found : Text
product_not_found =
    text "\u{645}\u{62d}\u{635}\u{648}\u{644} \u{67e}\u{6cc}\u{62f}\u{627} \u{646}\u{634}\u{62f}."

-- the product was not received
abbrev pub product_not_loaded : Text
product_not_loaded =
    text
      "\u{645}\u{62d}\u{635}\u{648}\u{644} \u{62f}\u{631}\u{6cc}\u{627}\u{641}\u{62a} \u{646}\u{634}\u{62f}."

-- finish or cancel the crop
abbrev pub crop_unfinished : Text
crop_unfinished =
    text
      "\u{628}\u{631}\u{634} \u{62a}\u{635}\u{648}\u{6cc}\u{631} \u{631}\u{627} \u{62b}\u{628}\u{62a} \u{6cc}\u{627} \u{644}\u{63a}\u{648} \u{6a9}\u{646}\u{6cc}\u{62f}."

-- complete the name, price and picture
abbrev pub product_fields_invalid : Text
product_fields_invalid =
    text
      "\u{646}\u{627}\u{645}، \u{642}\u{6cc}\u{645}\u{62a} \u{635}\u{62d}\u{6cc}\u{62d} \u{648} \u{62a}\u{635}\u{648}\u{6cc}\u{631} \u{645}\u{62d}\u{635}\u{648}\u{644} \u{631}\u{627} \u{6a9}\u{627}\u{645}\u{644} \u{6a9}\u{646}\u{6cc}\u{62f}."

-- the product was not saved
abbrev pub product_not_saved : Text
product_not_saved =
    text
      "\u{645}\u{62d}\u{635}\u{648}\u{644} \u{630}\u{62e}\u{6cc}\u{631}\u{647} \u{646}\u{634}\u{62f}."

-- the product's state did not change
abbrev pub product_state_not_changed : Text
product_state_not_changed =
    text
      "\u{648}\u{636}\u{639}\u{6cc}\u{62a} \u{645}\u{62d}\u{635}\u{648}\u{644} \u{62a}\u{63a}\u{6cc}\u{6cc}\u{631} \u{646}\u{6a9}\u{631}\u{62f}."

-- the picture must be JPEG, PNG or WebP
abbrev pub image_type_invalid : Text
image_type_invalid =
    text
      "\u{62a}\u{635}\u{648}\u{6cc}\u{631} \u{628}\u{627}\u{6cc}\u{62f} JPEG، PNG \u{6cc}\u{627} WebP \u{628}\u{627}\u{634}\u{62f}."

-- the picture was not cropped
abbrev pub crop_failed : Text
crop_failed =
    text
      "\u{62a}\u{635}\u{648}\u{6cc}\u{631} \u{628}\u{631}\u{634} \u{646}\u{62e}\u{648}\u{631}\u{62f}."

-- try again
abbrev pub try_again : Text
try_again =
    text
      "\u{62f}\u{648}\u{628}\u{627}\u{631}\u{647} \u{62a}\u{644}\u{627}\u{634} \u{6a9}\u{646}\u{6cc}\u{62f}."

-- the report was not received
abbrev pub report_not_loaded : Text
report_not_loaded =
    text
      "\u{6af}\u{632}\u{627}\u{631}\u{634} \u{62f}\u{631}\u{6cc}\u{627}\u{641}\u{62a} \u{646}\u{634}\u{62f}."

-- days late
abbrev pub days_late : Text
days_late =
    text
      " \u{631}\u{648}\u{632} \u{639}\u{642}\u{628}\u{200c}\u{627}\u{641}\u{62a}\u{627}\u{62f}\u{647}"

-- today
abbrev pub today_label : Text
today_label = text "\u{627}\u{645}\u{631}\u{648}\u{632}"

-- tomorrow
abbrev pub tomorrow_label : Text
tomorrow_label = text "\u{641}\u{631}\u{62f}\u{627}"

-- days from now
abbrev pub days_ahead : Text
days_ahead = text " \u{631}\u{648}\u{632} \u{62f}\u{6cc}\u{6af}\u{631}"

-- settled in two payments
abbrev pub settled_in_two : Text
settled_in_two =
    text
      "\u{62a}\u{633}\u{648}\u{6cc}\u{647} \u{62f}\u{648} \u{645}\u{631}\u{62d}\u{644}\u{647}\u{200c}\u{627}\u{6cc}"

-- the final receipt is ready to be checked
abbrev pub final_receipt_ready : Text
final_receipt_ready =
    text
      "\u{631}\u{633}\u{6cc}\u{62f} \u{646}\u{647}\u{627}\u{6cc}\u{6cc} \u{622}\u{645}\u{627}\u{62f}\u{647} \u{628}\u{631}\u{631}\u{633}\u{6cc}"

-- waiting for the final receipt
abbrev pub final_receipt_awaited : Text
final_receipt_awaited =
    text
      "\u{645}\u{646}\u{62a}\u{638}\u{631} \u{631}\u{633}\u{6cc}\u{62f} \u{646}\u{647}\u{627}\u{6cc}\u{6cc}"

-- an order of two payments
abbrev pub two_payments : Text
two_payments =
    text
      "\u{67e}\u{631}\u{62f}\u{627}\u{62e}\u{62a} \u{62f}\u{648} \u{645}\u{631}\u{62d}\u{644}\u{647}\u{200c}\u{627}\u{6cc}"

-- the first payment is confirmed
abbrev pub first_payment_confirmed : Text
first_payment_confirmed =
    text
      "\u{67e}\u{631}\u{62f}\u{627}\u{62e}\u{62a} \u{627}\u{648}\u{644} \u{62a}\u{623}\u{6cc}\u{6cc}\u{62f} \u{634}\u{62f}\u{647}"

-- the customer's details are not given
abbrev pub customer_details_missing : Text
customer_details_missing =
    text
      "\u{627}\u{637}\u{644}\u{627}\u{639}\u{627}\u{62a} \u{645}\u{634}\u{62a}\u{631}\u{6cc} \u{62b}\u{628}\u{62a} \u{646}\u{634}\u{62f}\u{647}"

-- change the search or the filters
abbrev pub change_search_or_filters : Text
change_search_or_filters =
    text
      "\u{639}\u{628}\u{627}\u{631}\u{62a} \u{62c}\u{633}\u{62a}\u{62c}\u{648} \u{6cc}\u{627} \u{641}\u{6cc}\u{644}\u{62a}\u{631}\u{647}\u{627} \u{631}\u{627} \u{62a}\u{63a}\u{6cc}\u{6cc}\u{631} \u{62f}\u{647}\u{6cc}\u{62f}."

-- shipped and cancelled orders come here
abbrev pub archive_holds : Text
archive_holds =
    text
      "\u{633}\u{641}\u{627}\u{631}\u{634}\u{200c}\u{647}\u{627}\u{6cc} \u{627}\u{631}\u{633}\u{627}\u{644}\u{200c}\u{634}\u{62f}\u{647} \u{648} \u{644}\u{63a}\u{648}\u{634}\u{62f}\u{647} \u{627}\u{6cc}\u{646}\u{62c}\u{627} \u{645}\u{6cc}\u{200c}\u{622}\u{6cc}\u{646}\u{62f}."

-- there is no order in progress for now
abbrev pub none_in_progress : Text
none_in_progress =
    text
      "\u{641}\u{639}\u{644}\u{627}ً \u{633}\u{641}\u{627}\u{631}\u{634} \u{62f}\u{631} \u{62c}\u{631}\u{6cc}\u{627}\u{646}\u{6cc} \u{646}\u{62f}\u{627}\u{631}\u{6cc}\u{62f}."

-- start with a new order
abbrev pub start_with_new_order : Text
start_with_new_order =
    text
      "\u{627}\u{632} \u{633}\u{641}\u{627}\u{631}\u{634} \u{62c}\u{62f}\u{6cc}\u{62f} \u{634}\u{631}\u{648}\u{639} \u{6a9}\u{646}\u{6cc}\u{62f}."

-- the browser could not make a WebP picture
abbrev pub webp_failed : Text
webp_failed =
    text
      "\u{645}\u{631}\u{648}\u{631}\u{6af}\u{631} \u{646}\u{62a}\u{648}\u{627}\u{646}\u{633}\u{62a} \u{62a}\u{635}\u{648}\u{6cc}\u{631} WebP \u{628}\u{633}\u{627}\u{632}\u{62f}."

-- waiting for your details
abbrev pub waiting_your_details : Text
waiting_your_details =
    text
      "\u{62f}\u{631} \u{627}\u{646}\u{62a}\u{638}\u{627}\u{631} \u{627}\u{637}\u{644}\u{627}\u{639}\u{627}\u{62a} \u{634}\u{645}\u{627}"

-- waiting for the customer's details
abbrev pub waiting_customer_details : Text
waiting_customer_details =
    text
      "\u{62f}\u{631} \u{627}\u{646}\u{62a}\u{638}\u{627}\u{631} \u{627}\u{637}\u{644}\u{627}\u{639}\u{627}\u{62a} \u{645}\u{634}\u{62a}\u{631}\u{6cc}"

-- waiting for the payment to be confirmed
abbrev pub waiting_confirmation : Text
waiting_confirmation =
    text
      "\u{62f}\u{631} \u{627}\u{646}\u{62a}\u{638}\u{627}\u{631} \u{62a}\u{623}\u{6cc}\u{6cc}\u{62f} \u{67e}\u{631}\u{62f}\u{627}\u{62e}\u{62a}"

-- paid
abbrev pub paid_label : Text
paid_label = text "\u{67e}\u{631}\u{62f}\u{627}\u{62e}\u{62a} \u{634}\u{62f}\u{647}"

-- in preparation
abbrev pub preparing_label : Text
preparing_label =
    text
      "\u{62f}\u{631} \u{62d}\u{627}\u{644} \u{622}\u{645}\u{627}\u{62f}\u{647}\u{200c}\u{633}\u{627}\u{632}\u{6cc}"

-- shipped
abbrev pub shipped_label : Text
shipped_label = text "\u{627}\u{631}\u{633}\u{627}\u{644} \u{634}\u{62f}\u{647}"

-- cancelled
abbrev pub cancelled_label : Text
cancelled_label = text "\u{644}\u{63a}\u{648} \u{634}\u{62f}\u{647}"

-- the first payment was confirmed
abbrev pub first_payment_was_confirmed : Text
first_payment_was_confirmed =
    text
      "\u{67e}\u{631}\u{62f}\u{627}\u{62e}\u{62a} \u{627}\u{648}\u{644} \u{62a}\u{623}\u{6cc}\u{6cc}\u{62f} \u{634}\u{62f}"

-- pay now
abbrev pub pay_now_label : Text
pay_now_label =
    text
      "\u{627}\u{644}\u{627}\u{646} \u{67e}\u{631}\u{62f}\u{627}\u{62e}\u{62a} \u{6a9}\u{646}\u{6cc}\u{62f}"

-- confirmed
abbrev pub confirmed_label : Text
confirmed_label = text "\u{62a}\u{623}\u{6cc}\u{6cc}\u{62f} \u{634}\u{62f}"

-- the receipt is being checked
abbrev pub receipt_checked_label : Text
receipt_checked_label =
    text
      "\u{631}\u{633}\u{6cc}\u{62f} \u{62f}\u{631} \u{62d}\u{627}\u{644} \u{628}\u{631}\u{631}\u{633}\u{6cc}"

-- closed
abbrev pub closed_label : Text
closed_label = text "\u{628}\u{633}\u{62a}\u{647} \u{634}\u{62f}\u{647}"

-- settled
abbrev pub settled_label : Text
settled_label = text "\u{62a}\u{633}\u{648}\u{6cc}\u{647} \u{634}\u{62f}"

-- after the preparation
abbrev pub after_preparing_label : Text
after_preparing_label =
    text
      "\u{67e}\u{633} \u{627}\u{632} \u{622}\u{645}\u{627}\u{62f}\u{647}\u{200c}\u{633}\u{627}\u{632}\u{6cc}"

-- the final payment
abbrev pub final_payment_heading : Text
final_payment_heading =
    text "\u{67e}\u{631}\u{62f}\u{627}\u{62e}\u{62a} \u{646}\u{647}\u{627}\u{6cc}\u{6cc}"

-- the first payment
abbrev pub first_payment_heading : Text
first_payment_heading = text "\u{67e}\u{631}\u{62f}\u{627}\u{62e}\u{62a} \u{627}\u{648}\u{644}"

-- the shop's payment details
abbrev pub shop_payment_heading : Text
shop_payment_heading =
    text
      "\u{627}\u{637}\u{644}\u{627}\u{639}\u{627}\u{62a} \u{67e}\u{631}\u{62f}\u{627}\u{62e}\u{62a} \u{641}\u{631}\u{648}\u{634}\u{6af}\u{627}\u{647}"

-- the first receipt is uploaded
abbrev pub first_receipt_uploaded : Text
first_receipt_uploaded =
    text
      "\u{631}\u{633}\u{6cc}\u{62f} \u{67e}\u{631}\u{62f}\u{627}\u{62e}\u{62a} \u{627}\u{648}\u{644} \u{628}\u{627}\u{631}\u{6af}\u{630}\u{627}\u{631}\u{6cc} \u{634}\u{62f}\u{647} \u{627}\u{633}\u{62a}."

-- the receipt is uploaded
abbrev pub receipt_uploaded_notice : Text
receipt_uploaded_notice =
    text
      "\u{631}\u{633}\u{6cc}\u{62f} \u{67e}\u{631}\u{62f}\u{627}\u{62e}\u{62a} \u{628}\u{627}\u{631}\u{6af}\u{630}\u{627}\u{631}\u{6cc} \u{634}\u{62f}\u{647} \u{627}\u{633}\u{62a}."

-- no receipt is uploaded yet
abbrev pub no_receipt_uploaded : Text
no_receipt_uploaded =
    text
      "\u{647}\u{646}\u{648}\u{632} \u{631}\u{633}\u{6cc}\u{62f}\u{6cc} \u{628}\u{627}\u{631}\u{6af}\u{630}\u{627}\u{631}\u{6cc} \u{646}\u{634}\u{62f}\u{647} \u{627}\u{633}\u{62a}."
