-- ===== src/Account/State.antt =====
-- The state of the account page (web/src/pages/AccountPage.tsx), with the shop that the session
-- holds for it: `onShopUpdated` replaces that shop.
use radif.Prelude.{
  or_else, text, decimal, Text, ℕ, Bool, true, false, ◌||◌, Option, none, some, List, [], ◌∷◌, ◌++◌,
}
use radif.Shared.Types.{Shop, PaymentCard, SupportChannel}
use radif.Shared.Api.{File}

-- `cardPending`: the empty text is `idle`.
pub data CardPending : Type 0 where
  idle adding : CardPending
  editing activating : ℕ → CardPending

pub record State : Type 0 where
  pub shop : Shop
  pub pending : Bool
  pub saving : Bool
  pub error : Text
  pub saved : Bool
  pub logo_saving : Bool
  pub logo_cropping : Bool
  pub logo_file : Option File
  pub logo_error : Text
  pub card_pending : CardPending
  pub card_error : Text
  pub card_number : Text
  pub iban : Text
  pub payment_instructions : Text
  pub adding_card : Bool
  pub editing_card_id : Option ℕ
  pub edited_iban : Text
  pub edited_instructions : Text
  pub instagram_username : Text
  pub whatsapp_number : Text
  pub support_channel : Option SupportChannel
  pub share_message_template : Text

unfoldable pub is_card_pending : CardPending → Bool
is_card_pending idle = false
is_card_pending adding = true
is_card_pending (editing id) = true
is_card_pending (activating id) = true

-- The guard of the handlers for cards and for the settings.
unfoldable pub is_busy : State → Bool
is_busy s = is_card_pending s.card_pending || s.saving

-- `number ? "+" + number : ""`
unfoldable pub shown_number : Option Text → Text
shown_number none = []
shown_number (some []) = []
shown_number (some (c ∷ t)) = b'+' ∷ c ∷ t

-- The page as it is opened for a shop.
unfoldable pub init : Shop → State
init shop = record {
  shop = shop;
  pending = false;
  saving = false;
  error = [];
  saved = false;
  logo_saving = false;
  logo_cropping = false;
  logo_file = none;
  logo_error = [];
  card_pending = idle;
  card_error = [];
  card_number = [];
  iban = [];
  payment_instructions = [];
  adding_card = false;
  editing_card_id = none;
  edited_iban = [];
  edited_instructions = [];
  instagram_username = or_else shop.instagram_username [];
  whatsapp_number = shown_number shop.whatsapp_number;
  support_channel = shop.support_channel;
  share_message_template = or_else shop.share_message_template [];
}

-- The effect that runs when another shop is selected.
unfoldable pub change_shop : Shop → State → State
unfolding shown_number
change_shop shop s = record s {
  shop = shop;
  instagram_username = or_else shop.instagram_username [];
  whatsapp_number = shown_number shop.whatsapp_number;
  support_channel = shop.support_channel;
  share_message_template = or_else shop.share_message_template [];
  saved = false;
  logo_saving = false;
  logo_cropping = false;
  logo_file = none;
  logo_error = [];
  error = [];
  card_error = [];
  card_number = [];
  iban = [];
  payment_instructions = [];
  adding_card = false;
  editing_card_id = none;
}

unfoldable pub shop_path : Shop → Text
shop_path shop = text "/api/shops/" ++ decimal shop.id

-- `updateCards`: `made` is the state of the render that made the handler.
unfoldable pub update_cards : State → List PaymentCard → State → State
update_cards made cards s = record s { shop = record made.shop { payment_cards = cards } }
