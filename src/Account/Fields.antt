-- ===== src/Account/Fields.antt =====
-- The handlers of the plain fields of the account page (web/src/pages/AccountPage.tsx).
use radif.Prelude.{Text, Bool, true, false, Option, none, some, []}
use radif.Shared.Types.{PaymentCard, SupportChannel}
use radif.Shared.Api.{File}
use radif.Account.State.{State}

pub data Edit : Type 0 where
  pick_logo : Option File → Edit
  crop_logo : Bool → Edit
  open_card : PaymentCard → Edit
  close_card open_new_card close_new_card : Edit
  type_card_number type_iban type_instructions type_edited_iban type_edited_instructions :
      Text → Edit
  type_instagram type_whatsapp type_template : Text → Edit
  pick_channel : Option SupportChannel → Edit

unfoldable pub edit : Edit → State → State
edit (pick_logo file) s = record s { logo_file = file; logo_error = [] }
edit (crop_logo cropping) s = record s { logo_cropping = cropping }
edit (open_card card) s = record s {
  editing_card_id = some card.id;
  edited_iban = card.iban;
  edited_instructions = card.payment_instructions;
  card_error = [];
}
edit close_card s = record s { editing_card_id = none }
edit open_new_card s = record s { adding_card = true; editing_card_id = none; card_error = [] }
edit close_new_card s = record s { adding_card = false; card_error = [] }
edit (type_card_number typed) s = record s { card_number = typed }
edit (type_iban typed) s = record s { iban = typed }
edit (type_instructions typed) s = record s { payment_instructions = typed }
edit (type_edited_iban typed) s = record s { edited_iban = typed }
edit (type_edited_instructions typed) s = record s { edited_instructions = typed }
edit (type_instagram typed) s = record s { instagram_username = typed; saved = false }
edit (type_whatsapp typed) s = record s { whatsapp_number = typed; saved = false }
edit (type_template typed) s = record s { share_message_template = typed; saved = false }
edit (pick_channel channel) s = record s { support_channel = channel; saved = false }
