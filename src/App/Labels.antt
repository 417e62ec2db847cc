-- ===== src/App/Labels.antt =====
-- The labels of the frame of a shop's pages (web/src/AdminApp.tsx), each with its meaning in English.
use radif.Prelude.{Text, text}

-- orders
abbrev pub orders_label : Text
orders_label = text "\u{633}\u{641}\u{627}\u{631}\u{634}\u{200c}\u{647}\u{627}"

-- new order
abbrev pub new_order_label : Text
new_order_label = text "\u{633}\u{641}\u{627}\u{631}\u{634} \u{62c}\u{62f}\u{6cc}\u{62f}"

-- products
abbrev pub products_label : Text
products_label = text "\u{645}\u{62d}\u{635}\u{648}\u{644}\u{200c}\u{647}\u{627}"

-- report
abbrev pub report_label : Text
report_label = text "\u{6af}\u{632}\u{627}\u{631}\u{634}"

-- account
abbrev pub account_label : Text
account_label = text "\u{62d}\u{633}\u{627}\u{628}"

-- there is no active shop
abbrev pub no_shop : Text
no_shop =
    text
      "\u{641}\u{631}\u{648}\u{634}\u{6af}\u{627}\u{647} \u{641}\u{639}\u{627}\u{644}\u{6cc} \u{646}\u{62f}\u{627}\u{631}\u{6cc}\u{62f}"

-- log out
abbrev pub log_out_label : Text
log_out_label = text "\u{62e}\u{631}\u{648}\u{62c} \u{627}\u{632} \u{62d}\u{633}\u{627}\u{628}"

-- the trial is over
abbrev pub trial_over : Text
trial_over =
    text
      "\u{62f}\u{648}\u{631}\u{647} \u{622}\u{632}\u{645}\u{627}\u{6cc}\u{634}\u{6cc} \u{62a}\u{645}\u{627}\u{645} \u{634}\u{62f}\u{647}. "

-- activate on WhatsApp
abbrev pub activate_label : Text
activate_label =
    text
      "\u{641}\u{639}\u{627}\u{644}\u{200c}\u{633}\u{627}\u{632}\u{6cc} \u{62f}\u{631} \u{648}\u{627}\u{62a}\u{633}\u{627}\u{67e}"

-- days until the trial ends
abbrev pub trial_days : Text
trial_days =
    text
      " \u{631}\u{648}\u{632} \u{62a}\u{627} \u{67e}\u{627}\u{6cc}\u{627}\u{646} \u{62f}\u{648}\u{631}\u{647}\u{200c}\u{6cc} \u{622}\u{632}\u{645}\u{627}\u{6cc}\u{634}\u{6cc}."

-- activate the shop to make changes
abbrev pub read_only_notice : Text
read_only_notice =
    text
      "\u{628}\u{631}\u{627}\u{6cc} \u{627}\u{646}\u{62c}\u{627}\u{645} \u{62a}\u{63a}\u{6cc}\u{6cc}\u{631}\u{627}\u{62a}، \u{62f}\u{633}\u{62a}\u{631}\u{633}\u{6cc} \u{641}\u{631}\u{648}\u{634}\u{6af}\u{627}\u{647} \u{631}\u{627} \u{627}\u{632} \u{648}\u{627}\u{62a}\u{633}\u{627}\u{67e} \u{641}\u{639}\u{627}\u{644} \u{6a9}\u{646}\u{6cc}\u{62f}."

-- close the offer to install
abbrev pub close_offer_label : Text
close_offer_label =
    text
      "\u{628}\u{633}\u{62a}\u{646} \u{67e}\u{6cc}\u{634}\u{646}\u{647}\u{627}\u{62f} \u{646}\u{635}\u{628}"

-- faster, and without a browser
abbrev pub install_hint : Text
install_hint =
    text
      "\u{62f}\u{633}\u{62a}\u{631}\u{633}\u{6cc} \u{633}\u{631}\u{6cc}\u{639}\u{200c}\u{62a}\u{631} \u{648} \u{646}\u{645}\u{627}\u{6cc}\u{634} \u{62a}\u{645}\u{627}\u{645}\u{200c}\u{635}\u{641}\u{62d}\u{647}، \u{628}\u{62f}\u{648}\u{646} \u{646}\u{6cc}\u{627}\u{632} \u{628}\u{647} \u{628}\u{627}\u{632} \u{6a9}\u{631}\u{62f}\u{646} \u{645}\u{631}\u{648}\u{631}\u{6af}\u{631}."

-- add it to the home screen in Safari
abbrev pub install_ios_hint : Text
install_ios_hint =
    text
      "\u{62f}\u{631} Safari \u{631}\u{648}\u{6cc} \u{627}\u{634}\u{62a}\u{631}\u{627}\u{6a9}\u{200c}\u{6af}\u{630}\u{627}\u{631}\u{6cc} \u{628}\u{632}\u{646}\u{6cc}\u{62f} \u{648} «\u{627}\u{641}\u{632}\u{648}\u{62f}\u{646} \u{628}\u{647} \u{635}\u{641}\u{62d}\u{647} \u{627}\u{635}\u{644}\u{6cc}» \u{631}\u{627} \u{627}\u{646}\u{62a}\u{62e}\u{627}\u{628} \u{6a9}\u{646}\u{6cc}\u{62f}."

-- install
abbrev pub install_label : Text
install_label = text "\u{646}\u{635}\u{628} \u{631}\u{62f}\u{6cc}\u{641}"
