-- ===== src/AdminOrder/Labels.antt =====
-- The labels of an order's page (web/src/pages/AdminOrderPage.tsx), each with its meaning in English.
use radif.Prelude.{Text, text}

-- the order was not found
abbrev pub order_not_found : Text
order_not_found =
    text "\u{633}\u{641}\u{627}\u{631}\u{634} \u{67e}\u{6cc}\u{62f}\u{627} \u{646}\u{634}\u{62f}."

-- back to the orders
abbrev pub back_to_orders : Text
back_to_orders =
    text
      "\u{628}\u{627}\u{632}\u{6af}\u{634}\u{62a} \u{628}\u{647} \u{633}\u{641}\u{627}\u{631}\u{634}\u{200c}\u{647}\u{627}"

-- save the status
abbrev pub save_status_label : Text
save_status_label = text "\u{62b}\u{628}\u{62a} \u{648}\u{636}\u{639}\u{6cc}\u{62a}"

-- (the details are given)
abbrev pub details_given : Text
details_given =
    text
      " (\u{627}\u{637}\u{644}\u{627}\u{639}\u{627}\u{62a} \u{62b}\u{628}\u{62a} \u{634}\u{62f}\u{647})"

-- (needs a receipt)
abbrev pub receipt_needed : Text
receipt_needed =
    text " (\u{646}\u{6cc}\u{627}\u{632}\u{645}\u{646}\u{62f} \u{631}\u{633}\u{6cc}\u{62f})"

-- correct the details
abbrev pub edit_customer_label : Text
edit_customer_label =
    text "\u{627}\u{635}\u{644}\u{627}\u{62d} \u{627}\u{637}\u{644}\u{627}\u{639}\u{627}\u{62a}"

-- the customer has not given the details yet
abbrev pub customer_awaited : Text
customer_awaited =
    text
      "\u{645}\u{634}\u{62a}\u{631}\u{6cc} \u{647}\u{646}\u{648}\u{632} \u{627}\u{637}\u{644}\u{627}\u{639}\u{627}\u{62a} \u{62a}\u{62d}\u{648}\u{6cc}\u{644} \u{631}\u{627} \u{62b}\u{628}\u{62a} \u{646}\u{6a9}\u{631}\u{62f}\u{647} \u{627}\u{633}\u{62a}."

-- copy
abbrev pub copy_label : Text
copy_label = text "\u{6a9}\u{67e}\u{6cc}"

-- copy the address
abbrev pub copy_address_label : Text
copy_address_label = text "\u{6a9}\u{67e}\u{6cc} \u{646}\u{634}\u{627}\u{646}\u{6cc}"

-- no receipt is uploaded
abbrev pub no_receipt : Text
no_receipt =
    text
      "\u{631}\u{633}\u{6cc}\u{62f}\u{6cc} \u{628}\u{627}\u{631}\u{6af}\u{630}\u{627}\u{631}\u{6cc} \u{646}\u{634}\u{62f}\u{647} \u{627}\u{633}\u{62a}."

-- get the receipt and the details, and confirm the first payment, before
abbrev pub request_not_ready : Text
request_not_ready =
    text
      "\u{627}\u{628}\u{62a}\u{62f}\u{627} \u{631}\u{633}\u{6cc}\u{62f} \u{648} \u{627}\u{637}\u{644}\u{627}\u{639}\u{627}\u{62a} \u{645}\u{634}\u{62a}\u{631}\u{6cc} \u{631}\u{627} \u{62f}\u{631}\u{6cc}\u{627}\u{641}\u{62a} \u{6a9}\u{646}\u{6cc}\u{62f} \u{648} \u{67e}\u{631}\u{62f}\u{627}\u{62e}\u{62a} \u{627}\u{648}\u{644} \u{631}\u{627} \u{628}\u{627} \u{648}\u{636}\u{639}\u{6cc}\u{62a} «\u{67e}\u{631}\u{62f}\u{627}\u{62e}\u{62a} \u{627}\u{648}\u{644} \u{62a}\u{623}\u{6cc}\u{6cc}\u{62f} \u{634}\u{62f}\u{647}» \u{62b}\u{628}\u{62a} \u{6a9}\u{646}\u{6cc}\u{62f}."

-- request the final payment
abbrev pub request_final_label : Text
request_final_label =
    text
      "\u{62f}\u{631}\u{62e}\u{648}\u{627}\u{633}\u{62a} \u{67e}\u{631}\u{62f}\u{627}\u{62e}\u{62a} \u{646}\u{647}\u{627}\u{6cc}\u{6cc}"

-- copy the message for the customer
abbrev pub copy_final_label : Text
copy_final_label =
    text
      "\u{6a9}\u{67e}\u{6cc} \u{67e}\u{6cc}\u{627}\u{645} \u{628}\u{631}\u{627}\u{6cc} \u{645}\u{634}\u{62a}\u{631}\u{6cc}"

-- the copy failed, send the link by itself
abbrev pub final_copy_failed : Text
final_copy_failed =
    text
      "\u{6a9}\u{67e}\u{6cc} \u{62e}\u{648}\u{62f}\u{6a9}\u{627}\u{631} \u{645}\u{645}\u{6a9}\u{646} \u{646}\u{634}\u{62f}\u{61b} \u{644}\u{6cc}\u{646}\u{6a9} \u{645}\u{634}\u{62a}\u{631}\u{6cc} \u{631}\u{627} \u{62c}\u{62f}\u{627}\u{6af}\u{627}\u{646}\u{647} \u{628}\u{641}\u{631}\u{633}\u{62a}\u{6cc}\u{62f}."

-- the customer has not sent the final receipt
abbrev pub final_receipt_missing_yet : Text
final_receipt_missing_yet =
    text
      "\u{645}\u{634}\u{62a}\u{631}\u{6cc} \u{647}\u{646}\u{648}\u{632} \u{631}\u{633}\u{6cc}\u{62f} \u{646}\u{647}\u{627}\u{6cc}\u{6cc} \u{631}\u{627} \u{627}\u{632} \u{644}\u{6cc}\u{646}\u{6a9} \u{633}\u{641}\u{627}\u{631}\u{634} \u{646}\u{641}\u{631}\u{633}\u{62a}\u{627}\u{62f}\u{647} \u{627}\u{633}\u{62a}."

-- being confirmed
abbrev pub being_confirmed_label : Text
being_confirmed_label =
    text "\u{62f}\u{631} \u{62d}\u{627}\u{644} \u{62a}\u{623}\u{6cc}\u{6cc}\u{62f}…"

-- confirm the final payment
abbrev pub confirm_final_label : Text
confirm_final_label =
    text
      "\u{62a}\u{623}\u{6cc}\u{6cc}\u{62f} \u{67e}\u{631}\u{62f}\u{627}\u{62e}\u{62a} \u{646}\u{647}\u{627}\u{6cc}\u{6cc}"

-- confirmed
abbrev pub confirmed_mark : Text
confirmed_mark = text "\u{62a}\u{623}\u{6cc}\u{6cc}\u{62f} \u{634}\u{62f}\u{647}"

-- by
abbrev pub by_admin : Text
by_admin = text " \u{62a}\u{648}\u{633}\u{637} "

-- choose the date
abbrev pub pick_date_notice : Text
pick_date_notice =
    text
      "\u{62a}\u{627}\u{631}\u{6cc}\u{62e} \u{631}\u{627} \u{627}\u{646}\u{62a}\u{62e}\u{627}\u{628} \u{6a9}\u{646}\u{6cc}\u{62f}."

-- copy the tracking code
abbrev pub copy_tracking_label : Text
copy_tracking_label =
    text "\u{6a9}\u{67e}\u{6cc} \u{6a9}\u{62f} \u{631}\u{647}\u{6af}\u{6cc}\u{631}\u{6cc}"

-- save the tracking code
abbrev pub save_tracking_label : Text
save_tracking_label =
    text
      "\u{630}\u{62e}\u{6cc}\u{631}\u{647} \u{6a9}\u{62f} \u{631}\u{647}\u{6af}\u{6cc}\u{631}\u{6cc}"

-- edit
abbrev pub quick_edit_label : Text
quick_edit_label = text "\u{648}\u{6cc}\u{631}\u{627}\u{6cc}\u{634} \u{633}\u{631}\u{6cc}\u{639}"

-- not recorded
abbrev pub not_recorded : Text
not_recorded = text "\u{62b}\u{628}\u{62a} \u{646}\u{634}\u{62f}\u{647}"

-- no note is recorded
abbrev pub no_note : Text
no_note =
    text
      "\u{6cc}\u{627}\u{62f}\u{62f}\u{627}\u{634}\u{62a}\u{6cc} \u{62b}\u{628}\u{62a} \u{646}\u{634}\u{62f}\u{647} \u{627}\u{633}\u{62a}."

-- copy the customer's link
abbrev pub copy_link_label : Text
copy_link_label =
    text "\u{6a9}\u{67e}\u{6cc} \u{644}\u{6cc}\u{646}\u{6a9} \u{645}\u{634}\u{62a}\u{631}\u{6cc}"

-- a link is being made
abbrev pub making_link_label : Text
making_link_label =
    text
      "\u{62f}\u{631} \u{62d}\u{627}\u{644} \u{633}\u{627}\u{62e}\u{62a} \u{644}\u{6cc}\u{646}\u{6a9}…"

-- make a new link
abbrev pub new_link_label : Text
new_link_label =
    text "\u{633}\u{627}\u{62e}\u{62a} \u{644}\u{6cc}\u{646}\u{6a9} \u{62c}\u{62f}\u{6cc}\u{62f}"

-- the new link is made and the old one is off
abbrev pub link_was_rotated : Text
link_was_rotated =
    text
      "\u{644}\u{6cc}\u{646}\u{6a9} \u{62c}\u{62f}\u{6cc}\u{62f} \u{633}\u{627}\u{62e}\u{62a}\u{647} \u{634}\u{62f} \u{648} \u{644}\u{6cc}\u{646}\u{6a9} \u{642}\u{628}\u{644}\u{6cc} \u{627}\u{632} \u{6a9}\u{627}\u{631} \u{627}\u{641}\u{62a}\u{627}\u{62f}."
