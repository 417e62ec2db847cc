-- ===== src/Shared/Labels.antt =====
-- The labels that several pages share (web/src/pages), each with its meaning in English.
use radif.Prelude.{Text, text}

-- saving
abbrev pub saving_label : Text
saving_label = text "\u{62f}\u{631} \u{62d}\u{627}\u{644} \u{630}\u{62e}\u{6cc}\u{631}\u{647}…"

-- copied
abbrev pub copied_label : Text
copied_label = text "\u{6a9}\u{67e}\u{6cc} \u{634}\u{62f}"

-- sent
abbrev pub shared_label : Text
shared_label = text "\u{627}\u{631}\u{633}\u{627}\u{644} \u{634}\u{62f}"

-- not copied
abbrev pub not_copied_label : Text
not_copied_label = text "\u{6a9}\u{67e}\u{6cc} \u{646}\u{634}\u{62f}"

-- never mind
abbrev pub cancel_label : Text
cancel_label = text "\u{627}\u{646}\u{635}\u{631}\u{627}\u{641}"

-- save
abbrev pub save_label : Text
save_label = text "\u{630}\u{62e}\u{6cc}\u{631}\u{647}"

-- send
abbrev pub send_label : Text
send_label = text "\u{627}\u{631}\u{633}\u{627}\u{644}"

-- copy the message
abbrev pub copy_message_label : Text
copy_message_label = text "\u{6a9}\u{67e}\u{6cc} \u{67e}\u{6cc}\u{627}\u{645}"

-- the message is copied
abbrev pub message_copied_label : Text
message_copied_label = text "\u{67e}\u{6cc}\u{627}\u{645} \u{6a9}\u{67e}\u{6cc} \u{634}\u{62f}"

-- show in full size
abbrev pub full_size_label : Text
full_size_label =
    text
      "\u{646}\u{645}\u{627}\u{6cc}\u{634} \u{62f}\u{631} \u{627}\u{646}\u{62f}\u{627}\u{632}\u{647} \u{6a9}\u{627}\u{645}\u{644}"

-- save the date
abbrev pub save_date_label : Text
save_date_label = text "\u{630}\u{62e}\u{6cc}\u{631}\u{647} \u{62a}\u{627}\u{631}\u{6cc}\u{62e}"

-- being recorded
abbrev pub being_saved_label : Text
being_saved_label = text "\u{62f}\u{631} \u{62d}\u{627}\u{644} \u{62b}\u{628}\u{62a}…"

-- tomans
abbrev pub tomans : Text
tomans = text " \u{62a}\u{648}\u{645}\u{627}\u{646}"

-- times
abbrev pub times : Text
times = text " × "

-- a dot between two words
abbrev pub dot : Text
dot = text " · "

-- Instagram
abbrev pub instagram_label : Text
instagram_label = text "\u{627}\u{6cc}\u{646}\u{633}\u{62a}\u{627}\u{6af}\u{631}\u{627}\u{645}"

-- WhatsApp
abbrev pub whatsapp_label : Text
whatsapp_label = text "\u{648}\u{627}\u{62a}\u{633}\u{627}\u{67e}"

-- Telegram
abbrev pub telegram_label : Text
telegram_label = text "\u{62a}\u{644}\u{6af}\u{631}\u{627}\u{645}"

-- Bale
abbrev pub bale_label : Text
bale_label = text "\u{628}\u{644}\u{647}"

-- other
abbrev pub other_label : Text
other_label = text "\u{633}\u{627}\u{6cc}\u{631}"
