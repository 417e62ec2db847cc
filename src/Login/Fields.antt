-- ===== src/Login/Fields.antt =====
-- The handlers of the plain fields of the login (web/src/pages/LoginPage.tsx).
use radif.Prelude.{Text, not}
use radif.Login.Steps.{State}

pub data Edit : Type 0 where
  type_identifier type_password type_code : Text → Edit
  toggle_visible : Edit
  type_shop_name type_instagram type_card_number type_iban type_instructions : Text → Edit

unfoldable pub edit : Edit → State → State
edit (type_identifier typed) s = record s { identifier = typed }
edit (type_password typed) s = record s { password = typed }
edit (type_code typed) s = record s { code = typed }
edit toggle_visible s = record s { password_visible = not s.password_visible }
edit (type_shop_name typed) s = record s { shop = record s.shop { name = typed } }
edit (type_instagram typed) s = record s { shop = record s.shop { instagram_username = typed } }
edit (type_card_number typed) s = record s { shop = record s.shop { card_number = typed } }
edit (type_iban typed) s = record s { shop = record s.shop { iban = typed } }
edit (type_instructions typed) s = record s {
  shop = record s.shop { payment_instructions = typed };
}
