-- ===== src/Account/View/Offers.antt =====
-- Which buttons the account page offers while something is being saved.
use radif.Prelude.{◌≡◌, refl, Bool, true, false, not, ◌&&◌, [], ◌∷◌, arith}
use radif.Shared.Types.{Me, PaymentCard}
use radif.Shared.Drawing.{
  words, notice, Display, offers, offer_laws, offers-when_text, offers-flat_map,
}
use radif.Shared.Groups.{format_iban}
use radif.Account.State.{State, is_busy}
use radif.Account.Cards.{ordered_cards}
use radif.Account.Fields.{open_card, close_card, open_new_card, close_new_card}
use radif.Account.View.{
  Handler, change, log_out, is_serious, logo_disabled, logo_part, card_form, card_nodes,
  new_card_part, cards_part, settings_part, view,
}

module _ (p : Handler → Bool) (plain : (a : Handler) → is_serious a ≡ false → p a ≡ false)
    (s : State) (h : is_busy s ≡ true) where
  offers-logo : offers p (logo_part s) ≡ false
  unfolding offers logo_part logo_disabled
  offers-logo =
      simp (offers-when_text p s.logo_error (λ e. notice e ∷ []) (λ u. refl)) (ground arith)

  offers-card : (card : PaymentCard) → offers p (card_nodes s card) ≡ false
  unfolding offers card_nodes card_form is_serious
  offers-card card =
      simp (offer_laws, offers-when_text p card.iban (λ t. words (format_iban t) ∷ []) (λ u. refl))
        (ground (arith, plain (change (open_card card)), plain (change close_card)))

  offers-new_card : offers p (new_card_part s) ≡ false
  unfolding offers new_card_part is_serious
  offers-new_card = ground (arith, plain (change open_new_card), plain (change close_new_card))

  offers-cards : offers p (cards_part s) ≡ false
  unfolding offers cards_part
  offers-cards =
      simp
        (
          offer_laws,
          offers-new_card,
          offers-flat_map p (card_nodes s) (ordered_cards s.shop.payment_cards) offers-card,
          offers-when_text p s.card_error (λ e. notice e ∷ []) (λ u. refl),
        )
        (ground arith)

  offers-settings : offers p (settings_part s) ≡ false
  unfolding offers settings_part
  offers-settings = simp offer_laws (ground arith)

-- While a card or the settings are being saved, the account page offers no button that saves or
-- activates a card, nor one that saves the settings or the logo: of all that call the server it offers
-- the logout alone, unless that is on its way, too.
pub busy-offers :
    (p : Handler → Bool) (d : Display) (me : Me) (s : State)
    → ((a : Handler) → is_serious a ≡ false → p a ≡ false)
    → is_busy s ≡ true
    → offers p (view d me s) ≡ (not s.pending && p log_out)
unfolding offers view
busy-offers p d me s plain h =
    simp
      (
        offer_laws,
        offers-logo p plain s h,
        offers-cards p plain s h,
        offers-settings p plain s h,
        offers-when_text p s.error (λ e. notice e ∷ []) (λ u. refl),
      )
      (ground arith)
