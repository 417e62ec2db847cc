-- ===== src/CreateOrder/Labels.antt =====
-- The labels of the form of a new order (web/src/pages/CreateOrderPage.tsx), each with its meaning in
-- English.
use radif.Prelude.{Text, text}

-- change
abbrev pub change_date_label : Text
change_date_label = text "\u{62a}\u{63a}\u{6cc}\u{6cc}\u{631}"

-- being copied
abbrev pub copying_label : Text
copying_label = text "\u{62f}\u{631} \u{62d}\u{627}\u{644} \u{6a9}\u{67e}\u{6cc}…"

-- the link is copied
abbrev pub link_copied_label : Text
link_copied_label = text "\u{644}\u{6cc}\u{646}\u{6a9} \u{6a9}\u{67e}\u{6cc} \u{634}\u{62f}"

-- copy the link
abbrev pub copy_link_label : Text
copy_link_label = text "\u{6a9}\u{67e}\u{6cc} \u{644}\u{6cc}\u{646}\u{6a9}"

-- the link was not copied, select its text
abbrev pub link_not_copied : Text
link_not_copied =
    text
      "\u{6a9}\u{67e}\u{6cc} \u{644}\u{6cc}\u{646}\u{6a9} \u{627}\u{646}\u{62c}\u{627}\u{645} \u{646}\u{634}\u{62f}\u{61b} \u{645}\u{62a}\u{646} \u{6a9}\u{627}\u{62f}\u{631} \u{631}\u{627} \u{627}\u{646}\u{62a}\u{62e}\u{627}\u{628} \u{6a9}\u{646}\u{6cc}\u{62f}."

-- make another order
abbrev pub another_order_label : Text
another_order_label =
    text
      "\u{633}\u{627}\u{62e}\u{62a} \u{633}\u{641}\u{627}\u{631}\u{634} \u{62f}\u{6cc}\u{6af}\u{631}"

-- see and edit the order
abbrev pub open_order_label : Text
open_order_label =
    text
      "\u{645}\u{634}\u{627}\u{647}\u{62f}\u{647} \u{648} \u{648}\u{6cc}\u{631}\u{627}\u{6cc}\u{634} \u{633}\u{641}\u{627}\u{631}\u{634}"

-- go to the orders
abbrev pub to_orders_label : Text
to_orders_label =
    text
      "\u{631}\u{641}\u{62a}\u{646} \u{628}\u{647} \u{633}\u{641}\u{627}\u{631}\u{634}\u{200c}\u{647}\u{627}"

-- record old orders
abbrev pub import_label : Text
import_label =
    text
      "\u{62b}\u{628}\u{62a} \u{633}\u{641}\u{627}\u{631}\u{634}\u{200c}\u{647}\u{627}\u{6cc} \u{642}\u{62f}\u{6cc}\u{645}\u{6cc}"

-- there is no active product
abbrev pub no_active_product : Text
no_active_product =
    text
      "\u{645}\u{62d}\u{635}\u{648}\u{644} \u{641}\u{639}\u{627}\u{644}\u{6cc} \u{67e}\u{6cc}\u{62f}\u{627} \u{646}\u{634}\u{62f}"

-- tomans of discount
abbrev pub discount_applied : Text
discount_applied =
    text
      " \u{62a}\u{648}\u{645}\u{627}\u{646} \u{62a}\u{62e}\u{641}\u{6cc}\u{641} \u{627}\u{639}\u{645}\u{627}\u{644} \u{634}\u{62f}"

-- lower the final amount for a discount
abbrev pub discount_hint : Text
discount_hint =
    text
      "\u{628}\u{631}\u{627}\u{6cc} \u{627}\u{639}\u{645}\u{627}\u{644} \u{62a}\u{62e}\u{641}\u{6cc}\u{641}، \u{645}\u{628}\u{644}\u{63a} \u{646}\u{647}\u{627}\u{6cc}\u{6cc} \u{631}\u{627} \u{6a9}\u{645}\u{62a}\u{631} \u{6a9}\u{646}\u{6cc}\u{62f}."

-- the price of the products
abbrev pub price_of_products : Text
price_of_products =
    text "\u{642}\u{6cc}\u{645}\u{62a} \u{645}\u{62d}\u{635}\u{648}\u{644}\u{200c}\u{647}\u{627}: "

-- a dash
abbrev pub dash : Text
dash = text "—"

-- working days from today
abbrev pub days_from_today : Text
days_from_today =
    text
      " \u{631}\u{648}\u{632} \u{6a9}\u{627}\u{631}\u{6cc} \u{627}\u{632} \u{627}\u{645}\u{631}\u{648}\u{632}"

-- choose the date that was promised
abbrev pub pick_promised_date : Text
pick_promised_date =
    text
      "\u{62a}\u{627}\u{631}\u{6cc}\u{62e} \u{648}\u{639}\u{62f}\u{647}\u{200c}\u{62f}\u{627}\u{62f}\u{647}\u{200c}\u{634}\u{62f}\u{647} \u{628}\u{647} \u{645}\u{634}\u{62a}\u{631}\u{6cc} \u{631}\u{627} \u{627}\u{646}\u{62a}\u{62e}\u{627}\u{628} \u{6a9}\u{646}\u{6cc}\u{62f}."

-- the order is being made
abbrev pub creating_label : Text
creating_label =
    text
      "\u{62f}\u{631} \u{62d}\u{627}\u{644} \u{633}\u{627}\u{62e}\u{62a} \u{633}\u{641}\u{627}\u{631}\u{634}…"

-- make and copy the link
abbrev pub create_label : Text
create_label =
    text "\u{633}\u{627}\u{62e}\u{62a} \u{648} \u{6a9}\u{67e}\u{6cc} \u{644}\u{6cc}\u{646}\u{6a9}"
