-- ===== src/Account/Settings.antt =====
-- The support channels, the logo and the logout (web/src/pages/AccountPage.tsx).
use radif.Prelude.{
  if◌then◌else◌, or_else, text, Text, true, false, ◌||◌, Option, none, some, List, [], ◌∷◌, ◌++◌,
}
use radif.Shared.Types.{Shop, SupportChannel, instagram, whatsapp}
use radif.Shared.Messages.{shop_settings_not_saved, logo_not_saved, logout_failed}
use radif.Shared.Api.{
  Effect, call, str, file, File, patch, json, form, Request, Settled, fulfilled, rejected,
  message_or,
}
use radif.Account.State.{State, is_busy, shown_number, shop_path}

unfoldable pub support_text : Option SupportChannel → Text
support_text none = []
support_text (some instagram) = text "instagram"
support_text (some whatsapp) = text "whatsapp"

-- The answer of `/support`; a field that the answer leaves out is `none`.
pub record SupportSettings : Type 0 where
  pub instagram_username : Option Text
  pub whatsapp_number : Option Text
  pub support_channel : Option SupportChannel
  pub share_message_template : Option Text

-- A field of `{ ...shop, ...support }`: the answer's, or the shop's where the answer has none.
unfoldable pub spread_field {ℓ} : {A : Type ℓ} → Option A → Option A → Option A
spread_field (some a) _ = some a
spread_field none old = old

-- A field that the answer does not have stays. An answer whose channel is an empty text, which the source
-- hands on, is not among those modelled: its channel is one of the two or is missing.
unfoldable pub spread_support : Shop → SupportSettings → Shop
unfolding spread_field
spread_support shop support = record shop {
  instagram_username = spread_field support.instagram_username shop.instagram_username;
  whatsapp_number = spread_field support.whatsapp_number shop.whatsapp_number;
  support_channel = spread_field support.support_channel shop.support_channel;
  share_message_template = spread_field support.share_message_template shop.share_message_template;
}

unfoldable pub support_request : State → Request
unfolding shop_path support_text
support_request s = record {
  method = patch;
  path = shop_path s.shop ++ text "/support";
  body = json (
      ("instagramUsername", str s.instagram_username)
      ∷ ("whatsappNumber", str s.whatsapp_number)
      ∷ ("supportChannel", str (support_text s.support_channel))
      ∷ ("shareMessageTemplate", str s.share_message_template)
      ∷ []);
}

unfoldable pub settle_support : State → Settled SupportSettings → State → State
unfolding spread_support shown_number
settle_support made (fulfilled support) s = record s {
  shop = spread_support made.shop support;
  instagram_username = or_else support.instagram_username [];
  whatsapp_number = shown_number support.whatsapp_number;
  support_channel = support.support_channel;
  share_message_template = or_else support.share_message_template [];
  saved = true;
  saving = false;
}
settle_support made (rejected reason) s = record s {
  error = message_or reason shop_settings_not_saved;
  saving = false;
}

unfoldable pub save_support :
    Settled SupportSettings → (State → State) → State → State × List Effect
unfolding settle_support support_request
save_support reply meanwhile s = if is_busy s then (s, []) else (
  settle_support s reply (meanwhile (record s { saving = true; saved = false; error = [] })),
  call (support_request s) ∷ [],
)

unfoldable pub logo_request : State → File → Request
unfolding shop_path
logo_request s image = record {
  method = patch;
  path = shop_path s.shop ++ text "/logo";
  body = form (("image", file image) ∷ []);
}

-- The answer holds the path of the new logo.
unfoldable pub settle_logo : State → Settled Text → State → State
settle_logo made (fulfilled path) s = record s {
  shop = record made.shop { logo_path = some path };
  logo_file = none;
  logo_saving = false;
}
settle_logo made (rejected reason) s = record s {
  logo_error = message_or reason logo_not_saved;
  logo_saving = false;
}

unfoldable pub begin_logo : State → State
begin_logo s = record s { logo_saving = true; logo_error = [] }

unfoldable pub save_logo : Settled Text → (State → State) → State → State × List Effect
unfolding settle_logo logo_request begin_logo
save_logo reply meanwhile s = elim s.logo_file [
  | none ↦ (s, [])
  | some image ↦
      if s.logo_saving || is_busy s
      then (s, [])
      else (settle_logo s reply (meanwhile (begin_logo s)), call (logo_request s image) ∷ [])
]

-- `logout`: the session's `onLogout` succeeds, or throws. A page that is left stays pending.
unfoldable pub logout : Settled (Unit {0}) → (State → State) → State → State
logout (fulfilled _) meanwhile s = meanwhile (record s { pending = true; error = [] })
logout (rejected reason) meanwhile s =
    record (meanwhile (record s { pending = true; error = [] })) {
      error = message_or reason logout_failed;
      pending = false;
    }
