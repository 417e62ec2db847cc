-- ===== src/Account/Laws.antt =====
-- What the handlers of the account page do with the shop.
use radif.Prelude.{
  ==_iff, All, Text, ℕ, ◌≡◌, refl, ap, ◌↔◌, Bool, true, false, some, List, [], ◌∷◌, ◌++◌, map,
  arith,
}
use radif.Shared.Types.{PaymentCard}
use radif.Shared.Api.{File, Settled, fulfilled}
use radif.Account.State.{State, is_busy}
use radif.Account.Cards.{add_payment_card, save_payment_card, activate_only, activate_card}
use radif.Account.Settings.{SupportSettings, save_support, save_logo, begin_logo}

pub card_ids : List PaymentCard → List ℕ
card_ids cards = map (λ (c : PaymentCard). c.id) cards

activate_only-active :
    (id : ℕ) (cards : List PaymentCard)
    → All (λ (c : PaymentCard). (c.active ≡ true) ↔ (c.id ≡ id)) (activate_only id cards)
unfolding activate_only
activate_only-active id [] = tt
activate_only-active id (c ∷ cards) = (==_iff c.id id, activate_only-active id cards)

activate_only-ids :
    (id : ℕ) (cards : List PaymentCard) → card_ids (activate_only id cards) ≡ card_ids cards
unfolding activate_only card_ids
activate_only-ids id [] = refl
activate_only-ids id (c ∷ cards) = ap (λ ids. c.id ∷ ids) (activate_only-ids id cards)

-- When a confirmed activation succeeds on a page that is not busy, the shop keeps its cards, and
-- the active ones are exactly those with the id that the server answers.
pub activate_card_only :
    (card answer : PaymentCard) (meanwhile : State → State) (s : State)
    → is_busy s ≡ false
    → let cards = (activate_card card true (fulfilled answer) meanwhile s).0.shop.payment_cards in
      (card_ids cards ≡ card_ids s.shop.payment_cards)
      × All (λ (c : PaymentCard). (c.active ≡ true) ↔ (c.id ≡ answer.id)) cards
unfolding activate_card
activate_card_only card answer meanwhile s h = rw h (
  activate_only-ids answer.id s.shop.payment_cards,
  activate_only-active answer.id s.shop.payment_cards,
)

-- While a card or the settings are being saved, none of the five handlers that save changes
-- anything or makes a call.
pub busy_ignored :
    (card : PaymentCard) (confirmed : Bool) (card_reply : Settled PaymentCard)
    (support_reply : Settled SupportSettings) (logo_reply : Settled Text) (id : ℕ)
    (meanwhile : State → State) (s : State)
    → is_busy s ≡ true
    → (add_payment_card card_reply meanwhile s ≡ (s, []))
      × (save_payment_card id card_reply meanwhile s ≡ (s, []))
      × (activate_card card confirmed card_reply meanwhile s ≡ (s, []))
      × (save_support support_reply meanwhile s ≡ (s, []))
      × (save_logo logo_reply meanwhile s ≡ (s, []))
unfolding add_payment_card save_payment_card activate_card save_support save_logo
busy_ignored card confirmed card_reply support_reply logo_reply id meanwhile s h =
    (rw h refl, rw h refl, rw h refl, rw h refl, ground arith)

-- Sending a logo does not keep the page from adding a card. A card that is added while the logo is
-- sent is in the shop until the answer for the logo comes, which puts the cards back that the shop
-- had when the logo was sent.
pub save_logo_drops_card :
    (image : File) (card : PaymentCard) (path : Text) (s : State)
    → s.logo_file ≡ some image
    → s.logo_saving ≡ false
    → is_busy s ≡ false
    → let add : State → State = λ t. (add_payment_card (fulfilled card) (λ u. u) t).0 in
      ((add (begin_logo s)).shop.payment_cards ≡ s.shop.payment_cards ++ card ∷ [])
      × ((save_logo (fulfilled path) add s).0.shop.payment_cards ≡ s.shop.payment_cards)
unfolding save_logo add_payment_card is_busy
save_logo_drops_card image card path s e f h = (rw h refl, rw (e, f, h) refl)
