-- ===== src/PublicOrder/Labels.antt =====
-- The labels of a customer's page (web/src/pages/PublicOrderPage.tsx), each with its meaning in English.
use radif.Prelude.{Text, text}

-- made with Radif
abbrev pub made_with : Text
made_with = text "\u{633}\u{627}\u{62e}\u{62a}\u{647}\u{200c}\u{634}\u{62f}\u{647} \u{628}\u{627} "

-- the receipt of the first payment
abbrev pub shop_checks_first : Text
shop_checks_first =
    text
      "\u{631}\u{633}\u{6cc}\u{62f} \u{67e}\u{631}\u{62f}\u{627}\u{62e}\u{62a} \u{627}\u{648}\u{644}"

-- the receipt of the payment
abbrev pub shop_checks : Text
shop_checks = text "\u{631}\u{633}\u{6cc}\u{62f} \u{67e}\u{631}\u{62f}\u{627}\u{62e}\u{62a}"

-- pieces
abbrev pub pieces : Text
pieces = text " \u{639}\u{62f}\u{62f}"

-- tomans of discount
abbrev pub discount_label : Text
discount_label = text " \u{62a}\u{648}\u{645}\u{627}\u{646} \u{62a}\u{62e}\u{641}\u{6cc}\u{641}"

-- rials
abbrev pub rials : Text
rials = text " \u{631}\u{6cc}\u{627}\u{644}"

-- copy the amount
abbrev pub copy_amount_label : Text
copy_amount_label = text "\u{6a9}\u{67e}\u{6cc} \u{645}\u{628}\u{644}\u{63a}"

-- copy
abbrev pub copy_label : Text
copy_label = text "\u{6a9}\u{67e}\u{6cc}"

-- the shop tells later when to pay
abbrev pub paid_later : Text
paid_later =
    text
      "\u{641}\u{631}\u{648}\u{634}\u{6af}\u{627}\u{647} \u{67e}\u{633} \u{627}\u{632} \u{622}\u{645}\u{627}\u{62f}\u{647}\u{200c}\u{634}\u{62f}\u{646} \u{633}\u{641}\u{627}\u{631}\u{634}، \u{632}\u{645}\u{627}\u{646} \u{67e}\u{631}\u{62f}\u{627}\u{62e}\u{62a} \u{631}\u{627} \u{627}\u{639}\u{644}\u{627}\u{645} \u{645}\u{6cc}\u{200c}\u{6a9}\u{646}\u{62f}."

-- the amount was not copied
abbrev pub amount_not_copied : Text
amount_not_copied =
    text
      "\u{6a9}\u{67e}\u{6cc} \u{62e}\u{648}\u{62f}\u{6a9}\u{627}\u{631} \u{645}\u{645}\u{6a9}\u{646} \u{646}\u{634}\u{62f}\u{61b} \u{62f}\u{648}\u{628}\u{627}\u{631}\u{647} \u{62a}\u{644}\u{627}\u{634} \u{6a9}\u{646}\u{6cc}\u{62f}."

-- the card was not copied, select it
abbrev pub card_not_copied : Text
card_not_copied =
    text
      "\u{6a9}\u{67e}\u{6cc} \u{62e}\u{648}\u{62f}\u{6a9}\u{627}\u{631} \u{645}\u{645}\u{6a9}\u{646} \u{646}\u{634}\u{62f}\u{61b} \u{634}\u{645}\u{627}\u{631}\u{647} \u{6a9}\u{627}\u{631}\u{62a} \u{628}\u{627}\u{644}\u{627} \u{631}\u{627} \u{646}\u{6af}\u{647} \u{62f}\u{627}\u{631}\u{6cc}\u{62f} \u{648} \u{627}\u{646}\u{62a}\u{62e}\u{627}\u{628} \u{6a9}\u{646}\u{6cc}\u{62f}."

-- the IBAN was not copied, select it
abbrev pub iban_not_copied : Text
iban_not_copied =
    text
      "\u{6a9}\u{67e}\u{6cc} \u{62e}\u{648}\u{62f}\u{6a9}\u{627}\u{631} \u{645}\u{645}\u{6a9}\u{646} \u{646}\u{634}\u{62f}\u{61b} \u{634}\u{645}\u{627}\u{631}\u{647} \u{634}\u{628}\u{627} \u{628}\u{627}\u{644}\u{627} \u{631}\u{627} \u{646}\u{6af}\u{647} \u{62f}\u{627}\u{631}\u{6cc}\u{62f} \u{648} \u{627}\u{646}\u{62a}\u{62e}\u{627}\u{628} \u{6a9}\u{646}\u{6cc}\u{62f}."

-- the final receipt is sent
abbrev pub final_receipt_sent : Text
final_receipt_sent =
    text
      "\u{631}\u{633}\u{6cc}\u{62f} \u{646}\u{647}\u{627}\u{6cc}\u{6cc} \u{627}\u{631}\u{633}\u{627}\u{644} \u{634}\u{62f}"

-- being sent
abbrev pub sending_label : Text
sending_label = text "\u{62f}\u{631} \u{62d}\u{627}\u{644} \u{627}\u{631}\u{633}\u{627}\u{644}…"

-- send the final receipt
abbrev pub send_final_label : Text
send_final_label =
    text
      "\u{627}\u{631}\u{633}\u{627}\u{644} \u{631}\u{633}\u{6cc}\u{62f} \u{67e}\u{631}\u{62f}\u{627}\u{62e}\u{62a} \u{646}\u{647}\u{627}\u{6cc}\u{6cc}"

-- a message to the shop
abbrev pub message_shop_label : Text
message_shop_label =
    text
      "\u{67e}\u{6cc}\u{627}\u{645} \u{628}\u{647} \u{641}\u{631}\u{648}\u{634}\u{6af}\u{627}\u{647}"

-- ask to correct the details
abbrev pub correct_details_label : Text
correct_details_label =
    text
      "\u{62f}\u{631}\u{62e}\u{648}\u{627}\u{633}\u{62a} \u{627}\u{635}\u{644}\u{627}\u{62d} \u{627}\u{637}\u{644}\u{627}\u{639}\u{627}\u{62a}"

-- the message is copied, press message on the shop's page
abbrev pub in_app_hint : Text
in_app_hint =
    text
      "\u{645}\u{62a}\u{646} \u{67e}\u{6cc}\u{627}\u{645} \u{6a9}\u{67e}\u{6cc} \u{645}\u{6cc}\u{200c}\u{634}\u{648}\u{62f}\u{61b} \u{62f}\u{631} \u{635}\u{641}\u{62d}\u{647} \u{641}\u{631}\u{648}\u{634}\u{6af}\u{627}\u{647} \u{631}\u{648}\u{6cc} «\u{67e}\u{6cc}\u{627}\u{645}» \u{628}\u{632}\u{646}\u{6cc}\u{62f}."

-- the message is copied, and Instagram opens
abbrev pub out_of_app_hint : Text
out_of_app_hint =
    text
      "\u{645}\u{62a}\u{646} \u{67e}\u{6cc}\u{627}\u{645} \u{6a9}\u{67e}\u{6cc} \u{645}\u{6cc}\u{200c}\u{634}\u{648}\u{62f} \u{648} \u{627}\u{6cc}\u{646}\u{633}\u{62a}\u{627}\u{6af}\u{631}\u{627}\u{645} \u{628}\u{627}\u{632} \u{645}\u{6cc}\u{200c}\u{634}\u{648}\u{62f}."

-- record the details and send the first receipt
abbrev pub send_first_label : Text
send_first_label =
    text
      "\u{62b}\u{628}\u{62a} \u{627}\u{637}\u{644}\u{627}\u{639}\u{627}\u{62a} \u{648} \u{627}\u{631}\u{633}\u{627}\u{644} \u{631}\u{633}\u{6cc}\u{62f} \u{627}\u{648}\u{644}"

-- record the details and send the receipt
abbrev pub send_receipt_label : Text
send_receipt_label =
    text
      "\u{62b}\u{628}\u{62a} \u{627}\u{637}\u{644}\u{627}\u{639}\u{627}\u{62a} \u{648} \u{627}\u{631}\u{633}\u{627}\u{644} \u{631}\u{633}\u{6cc}\u{62f}"

-- the details of this order are closed
abbrev pub submission_closed : Text
submission_closed =
    text
      "\u{62b}\u{628}\u{62a} \u{627}\u{637}\u{644}\u{627}\u{639}\u{627}\u{62a} \u{627}\u{6cc}\u{646} \u{633}\u{641}\u{627}\u{631}\u{634} \u{628}\u{633}\u{62a}\u{647} \u{634}\u{62f}\u{647} \u{627}\u{633}\u{62a}"

-- the details are recorded
abbrev pub details_recorded : Text
details_recorded =
    text
      "\u{627}\u{637}\u{644}\u{627}\u{639}\u{627}\u{62a} \u{62a}\u{62d}\u{648}\u{6cc}\u{644} \u{62b}\u{628}\u{62a} \u{634}\u{62f}"

-- the digits that are hidden
abbrev pub hidden_digits : Text
hidden_digits = text "••••••"

-- copy the tracking code
abbrev pub copy_tracking_label : Text
copy_tracking_label =
    text "\u{6a9}\u{67e}\u{6cc} \u{6a9}\u{62f} \u{631}\u{647}\u{6af}\u{6cc}\u{631}\u{6cc}"

-- the order's amount, to
abbrev pub order_amount_text : Text
order_amount_text =
    text
      "\u{645}\u{628}\u{644}\u{63a} \u{633}\u{641}\u{627}\u{631}\u{634} \u{631}\u{627} \u{628}\u{647} "

-- the amount
abbrev pub amount_text : Text
amount_text = text "\u{645}\u{628}\u{644}\u{63a} "

-- tomans, to
abbrev pub tomans_to : Text
tomans_to = text " \u{62a}\u{648}\u{645}\u{627}\u{646} \u{631}\u{627} \u{628}\u{647} "

-- one of the numbers below
abbrev pub one_of_numbers : Text
one_of_numbers =
    text
      "\u{6cc}\u{6a9}\u{6cc} \u{627}\u{632} \u{634}\u{645}\u{627}\u{631}\u{647}\u{200c}\u{647}\u{627}\u{6cc} \u{632}\u{6cc}\u{631}"

-- the card below
abbrev pub card_below : Text
card_below =
    text "\u{634}\u{645}\u{627}\u{631}\u{647} \u{6a9}\u{627}\u{631}\u{62a} \u{632}\u{6cc}\u{631}"

-- transfer it
abbrev pub transfer_text : Text
transfer_text = text " \u{648}\u{627}\u{631}\u{6cc}\u{632} \u{6a9}\u{646}\u{6cc}\u{62f}."
