-- ===== src/HistoricalOrder/Labels.antt =====
-- The labels of the form of an old order (web/src/pages/HistoricalOrderPage.tsx), each with its meaning
-- in English.
use radif.Prelude.{Text, text}

-- back to the new order
abbrev pub back_to_new_label : Text
back_to_new_label =
    text
      "\u{628}\u{627}\u{632}\u{6af}\u{634}\u{62a} \u{628}\u{647} \u{633}\u{641}\u{627}\u{631}\u{634} \u{62c}\u{62f}\u{6cc}\u{62f}"

-- back, to correct
abbrev pub back_label : Text
back_label =
    text "\u{628}\u{627}\u{632}\u{6af}\u{634}\u{62a} \u{648} \u{627}\u{635}\u{644}\u{627}\u{62d}"

-- correct
abbrev pub correct_label : Text
correct_label = text "\u{627}\u{635}\u{644}\u{627}\u{62d}"

-- record the order
abbrev pub record_label : Text
record_label = text "\u{62b}\u{628}\u{62a} \u{633}\u{641}\u{627}\u{631}\u{634}"

-- attached
abbrev pub attached_label : Text
attached_label = text "\u{67e}\u{6cc}\u{648}\u{633}\u{62a} \u{634}\u{62f}\u{647}"

-- without a receipt
abbrev pub without_receipt : Text
without_receipt = text "\u{628}\u{62f}\u{648}\u{646} \u{631}\u{633}\u{6cc}\u{62f}"

-- read again and record
abbrev pub review_label : Text
review_label =
    text "\u{628}\u{627}\u{632}\u{62e}\u{648}\u{627}\u{646}\u{6cc} \u{648} \u{62b}\u{628}\u{62a}"
