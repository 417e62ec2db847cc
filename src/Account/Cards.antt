-- ===== src/Account/Cards.antt =====
-- The payment cards of a shop (web/src/pages/AccountPage.tsx). A handler is given how its call
-- settles, and `meanwhile`, what other events make of the state before that.
use radif.Prelude.{
  ◌==◌, if◌then◌else◌, keep, text, decimal, Text, ℕ, Bool, false, not, ◌||◌, none, List, [], ◌∷◌,
  ◌++◌,
}
use radif.Shared.Types.{PaymentCard, Shop}
use radif.Shared.Messages.{card_not_saved, card_details_not_saved, card_not_activated}
use radif.Shared.Api.{
  Effect, call, str, post, patch, empty, json, Request, Settled, fulfilled, rejected, message_or,
}
use radif.Account.State.{
  CardPending, idle, adding, editing, activating, State, is_busy, shop_path, update_cards,
}

unfoldable pub add_request : State → Request
unfolding shop_path
add_request s = record {
  method = post;
  path = shop_path s.shop ++ text "/payment-cards";
  body = json (
      ("cardNumber", str s.card_number)
      ∷ ("iban", str s.iban)
      ∷ ("paymentInstructions", str s.payment_instructions)
      ∷ []);
}

unfoldable pub settle_added : State → Settled PaymentCard → State → State
unfolding update_cards
settle_added made (fulfilled card) s =
    record (update_cards made (made.shop.payment_cards ++ card ∷ []) s) {
      card_number = [];
      iban = [];
      payment_instructions = [];
      adding_card = false;
      card_pending = idle;
    }
settle_added made (rejected reason) s = record s {
  card_error = message_or reason card_not_saved;
  card_pending = idle;
}

unfoldable pub begin : CardPending → State → State
begin pending s = record s { card_pending = pending; card_error = [] }

unfoldable pub add_payment_card :
    Settled PaymentCard → (State → State) → State → State × List Effect
unfolding settle_added add_request begin
add_payment_card reply meanwhile s =
    if is_busy s
    then (s, [])
    else (settle_added s reply (meanwhile (begin adding s)), call (add_request s) ∷ [])

-- The cards with the one that was saved in the place of the card with its id.
unfoldable pub replace_card : PaymentCard → List PaymentCard → List PaymentCard
replace_card card [] = []
replace_card card (current ∷ cards) =
    (if current.id == card.id then card else current) ∷ replace_card card cards

unfoldable pub card_path : Shop → ℕ → Text
unfolding shop_path
card_path shop id = shop_path shop ++ text "/payment-cards/" ++ decimal id

unfoldable pub save_request : ℕ → State → Request
unfolding card_path
save_request id s = record {
  method = patch;
  path = card_path s.shop id;
  body =
      json (("iban", str s.edited_iban) ∷ ("paymentInstructions", str s.edited_instructions) ∷ []);
}

unfoldable pub settle_saved : State → Settled PaymentCard → State → State
unfolding update_cards
settle_saved made (fulfilled card) s =
    record (update_cards made (replace_card card made.shop.payment_cards) s) {
      editing_card_id = none;
      card_pending = idle;
    }
settle_saved made (rejected reason) s = record s {
  card_error = message_or reason card_details_not_saved;
  card_pending = idle;
}

unfoldable pub save_payment_card :
    ℕ → Settled PaymentCard → (State → State) → State → State × List Effect
unfolding settle_saved save_request begin
save_payment_card id reply meanwhile s =
    if is_busy s
    then (s, [])
    else (settle_saved s reply (meanwhile (begin (editing id) s)), call (save_request id s) ∷ [])

-- The cards with the one of an id active, and no other.
unfoldable pub activate_only : ℕ → List PaymentCard → List PaymentCard
activate_only id [] = []
activate_only id (current ∷ cards) =
    record current { active = current.id == id } ∷ activate_only id cards

unfoldable pub settle_activated : State → Settled PaymentCard → State → State
unfolding update_cards
settle_activated made (fulfilled card) s =
    record (update_cards made (activate_only card.id made.shop.payment_cards) s) {
      card_pending = idle;
    }
settle_activated made (rejected reason) s = record s {
  card_error = message_or reason card_not_activated;
  card_pending = idle;
}

unfoldable pub activate_request : ℕ → State → Request
unfolding card_path
activate_request id s = record {
  method = post;
  path = card_path s.shop id ++ text "/activate";
  body = empty;
}

-- `confirmed` is what the question is answered with.
unfoldable pub activate_card :
    PaymentCard → Bool → Settled PaymentCard → (State → State) → State → State × List Effect
unfolding settle_activated activate_request begin
activate_card card confirmed reply meanwhile s = if is_busy s || not confirmed then (s, []) else (
  settle_activated s reply (meanwhile (begin (activating card.id) s)),
  call (activate_request card.id s) ∷ [],
)

unfoldable pub inactive_cards : List PaymentCard → List PaymentCard
inactive_cards cards = keep (λ (c : PaymentCard). not c.active) cards

-- `orderedCards`: a stable sort that puts the active cards first.
unfoldable pub ordered_cards : List PaymentCard → List PaymentCard
unfolding inactive_cards
ordered_cards cards = keep (λ (c : PaymentCard). c.active) cards ++ inactive_cards cards
