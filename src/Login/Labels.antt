-- ===== src/Login/Labels.antt =====
-- The texts of the login (web/src/pages/LoginPage.tsx), each with its meaning in English.
use radif.Prelude.{Text, text}

-- make your shop
abbrev pub shop_title : Text
shop_title =
    text
      "\u{641}\u{631}\u{648}\u{634}\u{6af}\u{627}\u{647}\u{62a} \u{631}\u{627} \u{628}\u{633}\u{627}\u{632}."

-- log in
abbrev pub identifier_title : Text
identifier_title = text "\u{648}\u{631}\u{648}\u{62f} \u{628}\u{647} \u{631}\u{62f}\u{6cc}\u{641}."

-- choose your password
abbrev pub code_title : Text
code_title =
    text
      "\u{631}\u{645}\u{632}\u{62a} \u{631}\u{627} \u{627}\u{646}\u{62a}\u{62e}\u{627}\u{628} \u{6a9}\u{646}."

-- enter the password
abbrev pub password_title : Text
password_title =
    text
      "\u{631}\u{645}\u{632} \u{639}\u{628}\u{648}\u{631} \u{631}\u{627} \u{648}\u{627}\u{631}\u{62f} \u{6a9}\u{646}."

-- enter your mobile number or user name
abbrev pub identifier_hint : Text
identifier_hint =
    text
      "\u{634}\u{645}\u{627}\u{631}\u{647} \u{645}\u{648}\u{628}\u{627}\u{6cc}\u{644} \u{6cc}\u{627} \u{646}\u{627}\u{645} \u{6a9}\u{627}\u{631}\u{628}\u{631}\u{6cc}\u{200c}\u{627}\u{62a} \u{631}\u{627} \u{648}\u{627}\u{631}\u{62f} \u{6a9}\u{646}."

-- record the card for payments here
abbrev pub shop_hint : Text
shop_hint =
    text
      "\u{6a9}\u{627}\u{631}\u{62a} \u{67e}\u{631}\u{62f}\u{627}\u{62e}\u{62a} \u{633}\u{641}\u{627}\u{631}\u{634}\u{200c}\u{647}\u{627} \u{631}\u{627} \u{647}\u{645}\u{6cc}\u{646}\u{200c}\u{62c}\u{627} \u{62b}\u{628}\u{62a} \u{6a9}\u{646}."

-- enter the code and a password of at least eight characters
abbrev pub code_hint : Text
code_hint =
    text
      "\u{6a9}\u{62f} \u{67e}\u{6cc}\u{627}\u{645}\u{6a9}\u{200c}\u{634}\u{62f}\u{647} \u{648} \u{6cc}\u{6a9} \u{631}\u{645}\u{632} \u{62d}\u{62f}\u{627}\u{642}\u{644} ۸ \u{646}\u{648}\u{6cc}\u{633}\u{647}\u{200c}\u{627}\u{6cc} \u{648}\u{627}\u{631}\u{62f} \u{6a9}\u{646}."

-- change
abbrev pub change_label : Text
change_label = text "\u{62a}\u{63a}\u{6cc}\u{6cc}\u{631}"

-- hide the password
abbrev pub hide_password : Text
hide_password =
    text
      "\u{67e}\u{646}\u{647}\u{627}\u{646}\u{200c}\u{6a9}\u{631}\u{62f}\u{646} \u{631}\u{645}\u{632} \u{639}\u{628}\u{648}\u{631}"

-- show the password
abbrev pub show_password : Text
show_password =
    text "\u{646}\u{645}\u{627}\u{6cc}\u{634} \u{631}\u{645}\u{632} \u{639}\u{628}\u{648}\u{631}"

-- I forgot the password
abbrev pub forgot_label : Text
forgot_label =
    text
      "\u{631}\u{645}\u{632} \u{639}\u{628}\u{648}\u{631} \u{631}\u{627} \u{641}\u{631}\u{627}\u{645}\u{648}\u{634} \u{6a9}\u{631}\u{62f}\u{647}\u{200c}\u{627}\u{645}"

-- being done
abbrev pub working_label : Text
working_label = text "\u{62f}\u{631} \u{62d}\u{627}\u{644} \u{627}\u{646}\u{62c}\u{627}\u{645}…"

-- continue
abbrev pub continue_label : Text
continue_label = text "\u{627}\u{62f}\u{627}\u{645}\u{647}"

-- log in
abbrev pub enter_label : Text
enter_label = text "\u{648}\u{631}\u{648}\u{62f}"

-- make the shop and start the trial
abbrev pub make_shop_label : Text
make_shop_label =
    text
      "\u{633}\u{627}\u{62e}\u{62a} \u{641}\u{631}\u{648}\u{634}\u{6af}\u{627}\u{647} \u{648} \u{634}\u{631}\u{648}\u{639} \u{622}\u{632}\u{645}\u{627}\u{6cc}\u{634}\u{6cc}"

-- confirm and log in
abbrev pub confirm_label : Text
confirm_label = text "\u{62a}\u{623}\u{6cc}\u{6cc}\u{62f} \u{648} \u{648}\u{631}\u{648}\u{62f}"
