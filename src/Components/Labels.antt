-- ===== src/Components/Labels.antt =====
-- The labels of web/src/components.tsx, each with its meaning in English.
use radif.Prelude.{Text, text}

-- one fewer
abbrev pub fewer_label : Text
fewer_label = text "−"

-- items of
abbrev pub items_of : Text
items_of = text " \u{642}\u{644}\u{645} \u{627}\u{632} "

-- products are chosen
abbrev pub products_chosen : Text
products_chosen =
    text
      " \u{645}\u{62d}\u{635}\u{648}\u{644} \u{627}\u{646}\u{62a}\u{62e}\u{627}\u{628} \u{634}\u{62f}\u{647}"

-- choose the picture of the receipt
abbrev pub pick_receipt_label : Text
pick_receipt_label =
    text
      "\u{627}\u{646}\u{62a}\u{62e}\u{627}\u{628} \u{62a}\u{635}\u{648}\u{6cc}\u{631} \u{631}\u{633}\u{6cc}\u{62f}"

-- change the picture
abbrev pub change_picture_label : Text
change_picture_label =
    text "\u{62a}\u{63a}\u{6cc}\u{6cc}\u{631} \u{62a}\u{635}\u{648}\u{6cc}\u{631}"

-- remove
abbrev pub remove_label : Text
remove_label = text "\u{62d}\u{630}\u{641}"

-- the picture is being prepared
abbrev pub preparing_picture : Text
preparing_picture =
    text
      "\u{62f}\u{631} \u{62d}\u{627}\u{644} \u{622}\u{645}\u{627}\u{62f}\u{647}\u{200c}\u{633}\u{627}\u{632}\u{6cc} \u{62a}\u{635}\u{648}\u{6cc}\u{631}…"
