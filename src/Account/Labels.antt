-- ===== src/Account/Labels.antt =====
-- The labels of the account page (web/src/pages/AccountPage.tsx), each with its meaning in English.
use radif.Prelude.{Text, text}

-- shops
abbrev pub shops_label : Text
shops_label = text " \u{641}\u{631}\u{648}\u{634}\u{6af}\u{627}\u{647}"

-- active until
abbrev pub active_until : Text
active_until = text "\u{641}\u{639}\u{627}\u{644} \u{62a}\u{627} "

-- active
abbrev pub active_access : Text
active_access = text "\u{62f}\u{633}\u{62a}\u{631}\u{633}\u{6cc} \u{641}\u{639}\u{627}\u{644}"

-- on trial until
abbrev pub trial_until : Text
trial_until = text "\u{622}\u{632}\u{645}\u{627}\u{6cc}\u{634}\u{6cc} \u{62a}\u{627} "

-- needs to be activated
abbrev pub needs_activation : Text
needs_activation =
    text
      "\u{646}\u{6cc}\u{627}\u{632}\u{645}\u{646}\u{62f} \u{641}\u{639}\u{627}\u{644}\u{200c}\u{633}\u{627}\u{632}\u{6cc}"

-- save the logo
abbrev pub save_logo_label : Text
save_logo_label = text "\u{630}\u{62e}\u{6cc}\u{631}\u{647} \u{644}\u{648}\u{6af}\u{648}"

-- the active card
abbrev pub active_card : Text
active_card = text "\u{6a9}\u{627}\u{631}\u{62a} \u{641}\u{639}\u{627}\u{644}"

-- a stored card
abbrev pub stored_card : Text
stored_card =
    text
      "\u{6a9}\u{627}\u{631}\u{62a} \u{630}\u{62e}\u{6cc}\u{631}\u{647}\u{200c}\u{634}\u{62f}\u{647}"

-- edit the card
abbrev pub edit_card_label : Text
edit_card_label =
    text
      "\u{648}\u{6cc}\u{631}\u{627}\u{6cc}\u{634} \u{627}\u{637}\u{644}\u{627}\u{639}\u{627}\u{62a} \u{6a9}\u{627}\u{631}\u{62a} "

-- being activated
abbrev pub activating_label : Text
activating_label =
    text
      "\u{62f}\u{631} \u{62d}\u{627}\u{644} \u{641}\u{639}\u{627}\u{644}\u{200c}\u{633}\u{627}\u{632}\u{6cc}…"

-- use it for new orders
abbrev pub activate_label : Text
activate_label =
    text
      "\u{627}\u{646}\u{62a}\u{62e}\u{627}\u{628} \u{628}\u{631}\u{627}\u{6cc} \u{633}\u{641}\u{627}\u{631}\u{634}\u{200c}\u{647}\u{627}\u{6cc} \u{62c}\u{62f}\u{6cc}\u{62f}"

-- no card is recorded yet
abbrev pub no_card : Text
no_card =
    text
      "\u{647}\u{646}\u{648}\u{632} \u{6a9}\u{627}\u{631}\u{62a} \u{67e}\u{631}\u{62f}\u{627}\u{62e}\u{62a}\u{6cc} \u{62b}\u{628}\u{62a} \u{646}\u{634}\u{62f}\u{647} \u{627}\u{633}\u{62a}."

-- close the form of a new card
abbrev pub close_card_form : Text
close_card_form =
    text
      "\u{628}\u{633}\u{62a}\u{646} \u{641}\u{631}\u{645} \u{6a9}\u{627}\u{631}\u{62a} \u{62c}\u{62f}\u{6cc}\u{62f}"

-- save the card
abbrev pub save_card_label : Text
save_card_label = text "\u{630}\u{62e}\u{6cc}\u{631}\u{647} \u{6a9}\u{627}\u{631}\u{62a}"

-- add a card
abbrev pub add_card_label : Text
add_card_label =
    text
      "\u{627}\u{641}\u{632}\u{648}\u{62f}\u{646} \u{6a9}\u{627}\u{631}\u{62a} \u{62c}\u{62f}\u{6cc}\u{62f}"

-- show no way of contact
abbrev pub no_support : Text
no_support =
    text
      "\u{646}\u{645}\u{627}\u{6cc}\u{634} \u{646}\u{62f}\u{627}\u{62f}\u{646} \u{631}\u{627}\u{647} \u{627}\u{631}\u{62a}\u{628}\u{627}\u{637}\u{6cc}"

-- the settings are saved
abbrev pub settings_saved : Text
settings_saved =
    text
      "\u{62a}\u{646}\u{638}\u{6cc}\u{645}\u{627}\u{62a} \u{641}\u{631}\u{648}\u{634}\u{6af}\u{627}\u{647} \u{630}\u{62e}\u{6cc}\u{631}\u{647} \u{634}\u{62f}."

-- save the settings
abbrev pub save_settings_label : Text
save_settings_label =
    text "\u{630}\u{62e}\u{6cc}\u{631}\u{647} \u{62a}\u{646}\u{638}\u{6cc}\u{645}\u{627}\u{62a}"

-- being logged out
abbrev pub logging_out_label : Text
logging_out_label = text "\u{62f}\u{631} \u{62d}\u{627}\u{644} \u{62e}\u{631}\u{648}\u{62c}…"

-- log out
abbrev pub log_out_label : Text
log_out_label = text "\u{62e}\u{631}\u{648}\u{62c} \u{627}\u{632} \u{62d}\u{633}\u{627}\u{628}"
