-- ===== src/Shared/Templates.antt =====
-- The texts that messages for customers are made of: the default template of a shared order, and
-- the pieces of the message that asks for the final payment (web/src/shared.ts and
-- web/src/pages/AdminOrderPage.tsx). A line end is written as its escape.
use radif.Prelude.{Text, text}

-- defaultShareMessageTemplate
abbrev pub default_share_message_template : Text
default_share_message_template =
    text
      "\u{645}\u{631}\u{633}\u{6cc} \u{6a9}\u{647} {shopName} \u{631}\u{648} \u{627}\u{646}\u{62a}\u{62e}\u{627}\u{628} \u{6a9}\u{631}\u{62f}\u{6cc}\u{646} 🤍\n\u{633}\u{641}\u{627}\u{631}\u{634} \u{634}\u{645}\u{627} \u{628}\u{627} \u{6a9}\u{62f} {orderCode} \u{62b}\u{628}\u{62a} \u{634}\u{62f} ✨\n\n\u{628}\u{631}\u{627}\u{6cc} \u{645}\u{634}\u{627}\u{647}\u{62f}\u{647} \u{62c}\u{632}\u{626}\u{6cc}\u{627}\u{62a} \u{633}\u{641}\u{627}\u{631}\u{634} \u{648} \u{67e}\u{631}\u{62f}\u{627}\u{62e}\u{62a} \u{645}\u{628}\u{644}\u{63a} {amount}، \u{627}\u{632} \u{644}\u{6cc}\u{646}\u{6a9} \u{632}\u{6cc}\u{631} \u{648}\u{627}\u{631}\u{62f} \u{635}\u{641}\u{62d}\u{647} \u{633}\u{641}\u{627}\u{631}\u{634}\u{62a}\u{648}\u{646} \u{628}\u{634}\u{6cc}\u{646} 👇\n{customerUrl}\n\n\u{627}\u{637}\u{644}\u{627}\u{639}\u{627}\u{62a} \u{67e}\u{631}\u{62f}\u{627}\u{62e}\u{62a} \u{62f}\u{627}\u{62e}\u{644} \u{647}\u{645}\u{648}\u{646} \u{635}\u{641}\u{62d}\u{647} \u{62f}\u{631} \u{62f}\u{633}\u{62a}\u{631}\u{633}\u{62a}\u{648}\u{646}\u{647} \u{648} \u{628}\u{639}\u{62f} \u{627}\u{632} \u{648}\u{627}\u{631}\u{6cc}\u{632} \u{645}\u{6cc}\u{200c}\u{62a}\u{648}\u{646}\u{6cc}\u{646} \u{62a}\u{635}\u{648}\u{6cc}\u{631} \u{631}\u{633}\u{6cc}\u{62f} \u{67e}\u{631}\u{62f}\u{627}\u{62e}\u{62a} \u{631}\u{648} \u{647}\u{645} \u{647}\u{645}\u{648}\u{646}\u{200c}\u{62c}\u{627} \u{627}\u{631}\u{633}\u{627}\u{644} \u{6a9}\u{646}\u{6cc}\u{646}.\n\n\u{627}\u{632} \u{647}\u{645}\u{6cc}\u{646} \u{644}\u{6cc}\u{646}\u{6a9} \u{645}\u{6cc}\u{200c}\u{62a}\u{648}\u{646}\u{6cc}\u{646} \u{648}\u{636}\u{639}\u{6cc}\u{62a} \u{633}\u{641}\u{627}\u{631}\u{634} \u{648} \u{645}\u{631}\u{627}\u{62d}\u{644} \u{622}\u{645}\u{627}\u{62f}\u{647}\u{200c}\u{633}\u{627}\u{632}\u{6cc} \u{648} \u{627}\u{631}\u{633}\u{627}\u{644} \u{631}\u{648} \u{647}\u{645} \u{67e}\u{6cc}\u{6af}\u{6cc}\u{631}\u{6cc} \u{6a9}\u{646}\u{6cc}\u{646} 🌿\n\n\u{632}\u{645}\u{627}\u{646} \u{62a}\u{642}\u{631}\u{6cc}\u{628}\u{6cc} \u{62a}\u{62d}\u{648}\u{6cc}\u{644}: {deliveryDate}\n\n\u{645}\u{631}\u{633}\u{6cc} \u{627}\u{632} \u{627}\u{639}\u{62a}\u{645}\u{627}\u{62f}\u{62a}\u{648}\u{646} 🤍"

-- thanks, up to the shop's name
abbrev pub final_message_start : Text
final_message_start = text "\u{645}\u{631}\u{633}\u{6cc} \u{6a9}\u{647} "

-- up to the order's code
abbrev pub final_message_code : Text
final_message_code =
    text
      " \u{631}\u{648} \u{627}\u{646}\u{62a}\u{62e}\u{627}\u{628} \u{6a9}\u{631}\u{62f}\u{6cc}\u{646} 🤍\n\u{633}\u{641}\u{627}\u{631}\u{634} \u{634}\u{645}\u{627} \u{628}\u{627} \u{6a9}\u{62f} "

-- the order waits for the rest, up to the amount
abbrev pub final_message_amount : Text
final_message_amount =
    text
      " \u{622}\u{645}\u{627}\u{62f}\u{647} \u{62a}\u{6a9}\u{645}\u{6cc}\u{644} \u{67e}\u{631}\u{62f}\u{627}\u{62e}\u{62a} \u{627}\u{633}\u{62a} ✨\n\n\u{628}\u{631}\u{627}\u{6cc} \u{67e}\u{631}\u{62f}\u{627}\u{62e}\u{62a} \u{628}\u{627}\u{642}\u{6cc}\u{200c}\u{645}\u{627}\u{646}\u{62f}\u{647} \u{645}\u{628}\u{644}\u{63a} "

-- tomans, and the link below, up to the link
abbrev pub final_message_link : Text
final_message_link =
    text
      " \u{62a}\u{648}\u{645}\u{627}\u{646}، \u{627}\u{632} \u{644}\u{6cc}\u{646}\u{6a9} \u{632}\u{6cc}\u{631} \u{648}\u{627}\u{631}\u{62f} \u{635}\u{641}\u{62d}\u{647} \u{633}\u{641}\u{627}\u{631}\u{634}\u{62a}\u{648}\u{646} \u{628}\u{634}\u{6cc}\u{646} 👇\n"

-- how the receipt is sent, and thanks
abbrev pub final_message_end : Text
final_message_end =
    text
      "\n\n\u{627}\u{637}\u{644}\u{627}\u{639}\u{627}\u{62a} \u{67e}\u{631}\u{62f}\u{627}\u{62e}\u{62a} \u{62f}\u{627}\u{62e}\u{644} \u{647}\u{645}\u{648}\u{646} \u{635}\u{641}\u{62d}\u{647} \u{62f}\u{631} \u{62f}\u{633}\u{62a}\u{631}\u{633}\u{62a}\u{648}\u{646}\u{647} \u{648} \u{628}\u{639}\u{62f} \u{627}\u{632} \u{648}\u{627}\u{631}\u{6cc}\u{632} \u{645}\u{6cc}\u{200c}\u{62a}\u{648}\u{646}\u{6cc}\u{646} \u{62a}\u{635}\u{648}\u{6cc}\u{631} \u{631}\u{633}\u{6cc}\u{62f} \u{67e}\u{631}\u{62f}\u{627}\u{62e}\u{62a} \u{631}\u{648} \u{647}\u{645} \u{647}\u{645}\u{648}\u{646}\u{200c}\u{62c}\u{627} \u{627}\u{631}\u{633}\u{627}\u{644} \u{6a9}\u{646}\u{6cc}\u{646}.\n\n\u{645}\u{631}\u{633}\u{6cc} \u{627}\u{632} \u{627}\u{639}\u{62a}\u{645}\u{627}\u{62f}\u{62a}\u{648}\u{646} 🤍"
