-- ===== src/Account/View.antt =====
-- What the account page draws (web/src/pages/AccountPage.tsx). The editor of the logo is drawn by a
-- component of its own.
pub mod Offers
use radif.Prelude.{
  ◌==◌, if◌then◌else◌, length, is_empty, Text, ℕ, ◌+◌, Bool, true, false, not, ◌&&◌, ◌||◌, Option,
  none, some, List, [], ◌∷◌, ◌++◌,
}
use radif.Shared.Types.{
  Me, Shop, PaymentCard, SubscriptionState, trial, paid, inactive, SupportChannel,
}
use radif.Shared.Types.{SupportChannel}
use radif.Shared.Groups.{format_card_number, format_iban}
use radif.Shared.Drawing.{
  Node, words, notice, button, field, choice, Choice, Display, when, when_text, flat_map,
}
use radif.Shared.Labels.{saving_label, save_label, cancel_label, instagram_label, whatsapp_label}
use radif.Account.Labels.{
  shops_label, active_until, active_access, trial_until, needs_activation, save_logo_label,
  active_card, stored_card, edit_card_label, activating_label, activate_label, no_card,
  close_card_form, save_card_label, add_card_label, no_support, settings_saved, save_settings_label,
  logging_out_label, log_out_label,
}
use radif.Account.State.{
  State, CardPending, idle, adding, editing, activating, is_card_pending, is_busy,
}
use radif.Account.Settings.{support_text}
use radif.Account.Cards.{ordered_cards}
use radif.Account.Fields.{
  Edit, open_card, close_card, open_new_card, close_new_card, type_card_number, type_iban,
  type_instructions, type_edited_iban, type_edited_instructions, type_instagram, type_whatsapp,
  type_template, pick_channel,
}

pub data Handler : Type 0 where
  save_logo add_card save_support log_out : Handler
  save_card activate_card : ℕ → Handler
  change : Edit → Handler

unfoldable pub is_serious : Handler → Bool
is_serious (change _) = false
is_serious _ = true

-- A date of the shop, where there is one and its text is not empty.
unfoldable pub given_date : Option Text → Option Text
given_date none = none
given_date (some []) = none
given_date (some (c ∷ t)) = some (c ∷ t)

unfoldable pub paid_line : Display → Option Text → Text
paid_line d none = active_access
paid_line d (some date) = active_until ++ d.date date

unfoldable pub trial_line : Display → Option Text → Text
trial_line d none = trial_until
trial_line d (some date) = trial_until ++ d.date date

unfoldable pub access_line : Display → SubscriptionState → Shop → Text
unfolding given_date paid_line trial_line
access_line d paid shop = paid_line d (given_date shop.paid_through)
access_line d trial shop = trial_line d (given_date shop.trial_ends_at)
access_line d inactive shop = needs_activation

unfoldable pub is_given : {A : Type 0} → Option A → Bool
is_given none = false
is_given (some _) = true

unfoldable pub logo_disabled : State → Bool
unfolding is_given
logo_disabled s = not (is_given s.logo_file) || s.logo_cropping || s.logo_saving || is_busy s

unfoldable pub logo_part : State → List (Node Handler)
logo_part s =
    button (if s.logo_saving then saving_label else save_logo_label) (logo_disabled s) save_logo
    ∷ when_text s.logo_error (λ e. notice e ∷ [])

-- Whether the card is the one that is edited, and whether its own call is on its way.
unfoldable pub is_edited : State → PaymentCard → Bool
is_edited s card = elim s.editing_card_id [ none ↦ false | some id ↦ id == card.id ]

unfoldable pub is_saved_now : CardPending → PaymentCard → Bool
is_saved_now (editing id) card = id == card.id
is_saved_now _ card = false

unfoldable pub is_activated_now : CardPending → PaymentCard → Bool
is_activated_now (activating id) card = id == card.id
is_activated_now _ card = false

unfoldable pub card_form : State → PaymentCard → List (Node Handler)
card_form s card =
    field s.edited_iban (λ t. change (type_edited_iban t))
    ∷ field s.edited_instructions (λ t. change (type_edited_instructions t))
    ∷ button cancel_label false (change close_card)
    ∷ button (if is_saved_now s.card_pending card then saving_label else save_label) (is_busy s)
        (save_card card.id)
    ∷ []

unfoldable pub card_nodes : State → PaymentCard → List (Node Handler)
card_nodes s card =
    words (if card.active then active_card else stored_card)
    ∷ button (edit_card_label ++ format_card_number card.card_number) false
        (change (open_card card))
    ∷ words (format_card_number card.card_number)
    ∷ (when_text card.iban (λ t. words (format_iban t) ∷ [])
        ++ ((if is_edited s card then card_form s card else words card.payment_instructions ∷ [])
            ++ when (not card.active && not (is_edited s card)) (
                button
                  (if is_activated_now s.card_pending card
                    then activating_label
                    else activate_label)
                  (is_busy s) (activate_card card.id)
                ∷ [])))

unfoldable pub is_adding : CardPending → Bool
is_adding adding = true
is_adding _ = false

unfoldable pub new_card_part : State → List (Node Handler)
new_card_part s =
    if s.adding_card
    then button close_card_form false (change close_new_card)
      ∷ field s.card_number (λ t. change (type_card_number t))
      ∷ field s.iban (λ t. change (type_iban t))
      ∷ field s.payment_instructions (λ t. change (type_instructions t))
      ∷ button (if is_adding s.card_pending then saving_label else save_card_label) (is_busy s)
          add_card
      ∷ []
    else button add_card_label false (change open_new_card) ∷ []

unfoldable pub cards_part : State → List (Node Handler)
cards_part s =
    flat_map (card_nodes s) (ordered_cards s.shop.payment_cards)
    ++ (when (is_empty (ordered_cards s.shop.payment_cards)) (words no_card ∷ [])
        ++ (new_card_part s ++ when_text s.card_error (λ e. notice e ∷ [])))

unfoldable pub support_option : Option SupportChannel → Text → Choice Handler
support_option channel label = record {
  value = support_text channel;
  label = label;
  disabled = false;
  picked = change (pick_channel channel);
}

unfoldable pub settings_part : State → List (Node Handler)
unfolding support_option
settings_part s =
    field s.instagram_username (λ t. change (type_instagram t))
    ∷ field s.whatsapp_number (λ t. change (type_whatsapp t))
    ∷ choice false
        (support_option none no_support
          ∷ support_option (some SupportChannel.instagram) instagram_label
          ∷ support_option (some SupportChannel.whatsapp) whatsapp_label
          ∷ [])
        (support_text s.support_channel)
    ∷ field s.share_message_template (λ t. change (type_template t))
    ∷ (when s.saved (words settings_saved ∷ [])
        ++ button (if s.saving then saving_label else save_settings_label) (is_busy s) save_support
          ∷ [])

unfoldable pub view : Display → Me → State → List (Node Handler)
view d me s =
    words me.admin.name
    ∷ words me.admin.login
    ∷ words (d.number (length me.shops) ++ shops_label)
    ∷ words (access_line d s.shop.subscription_state s.shop)
    ∷ (logo_part s
        ++ (cards_part s
            ++ (settings_part s
                ++ (when_text s.error (λ e. notice e ∷ [])
                    ++ button (if s.pending then logging_out_label else log_out_label) s.pending
                        log_out
                      ∷ []))))
