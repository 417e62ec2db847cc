-- ===== src/Report/Labels.antt =====
-- The labels of the report (web/src/pages/ReportPage.tsx), each with its meaning in English.
use radif.Prelude.{Text, text}

-- orders that are paid, being prepared or shipped
abbrev pub orders_counted : Text
orders_counted =
    text
      " \u{633}\u{641}\u{627}\u{631}\u{634} \u{67e}\u{631}\u{62f}\u{627}\u{62e}\u{62a}\u{200c}\u{634}\u{62f}\u{647}، \u{62f}\u{631} \u{62d}\u{627}\u{644} \u{622}\u{645}\u{627}\u{62f}\u{647}\u{200c}\u{633}\u{627}\u{632}\u{6cc} \u{6cc}\u{627} \u{627}\u{631}\u{633}\u{627}\u{644}\u{200c}\u{634}\u{62f}\u{647}"

-- there is no report yet
abbrev pub no_report_yet : Text
no_report_yet =
    text
      "\u{647}\u{646}\u{648}\u{632} \u{6af}\u{632}\u{627}\u{631}\u{634}\u{6cc} \u{646}\u{62f}\u{627}\u{631}\u{6cc}\u{62f}"

-- record a new order
abbrev pub record_order_label : Text
record_order_label =
    text "\u{62b}\u{628}\u{62a} \u{633}\u{641}\u{627}\u{631}\u{634} \u{62c}\u{62f}\u{6cc}\u{62f}"

-- no confirmed order ranks the products yet
abbrev pub no_ranking_yet : Text
no_ranking_yet =
    text
      "\u{647}\u{646}\u{648}\u{632} \u{633}\u{641}\u{627}\u{631}\u{634} \u{62a}\u{627}\u{6cc}\u{6cc}\u{62f}\u{634}\u{62f}\u{647}\u{200c}\u{627}\u{6cc} \u{628}\u{631}\u{627}\u{6cc} \u{631}\u{62a}\u{628}\u{647}\u{200c}\u{628}\u{646}\u{62f}\u{6cc} \u{645}\u{62d}\u{635}\u{648}\u{644}\u{200c}\u{647}\u{627} \u{648}\u{62c}\u{648}\u{62f} \u{646}\u{62f}\u{627}\u{631}\u{62f}."

-- pieces
abbrev pub pieces_label : Text
pieces_label = text " \u{639}\u{62f}\u{62f}"
