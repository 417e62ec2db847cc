-- ===== src/Account/Replies.antt =====
-- The shop of the session and what the server has answered (web/src/pages/AccountPage.tsx).
use radif.Prelude.{
  Text, ℕ, ◌≡◌, refl, sym, ◌∙◌, ap, subst, true, false, ◌||◌, Option, none, some, [], ◌∷◌, ◌++◌,
  arith,
}
use radif.Shared.Types.{Shop, PaymentCard}
use radif.Shared.Api.{Settled, fulfilled, rejected}
use radif.Account.State.{
  adding, editing, activating, State, init, is_busy, is_card_pending, update_cards,
}
use radif.Account.Cards as Cards
use radif.Account.Cards.{settle_added, settle_saved, settle_activated, replace_card, activate_only}
use radif.Account.Settings.{
  SupportSettings, spread_support, settle_support, begin_logo, settle_logo,
}
use radif.Account.Fields.{Edit, edit}

pub data Call : Type 0 where
  add settings logo : Call
  save activate : ℕ → Call

-- The answer that a call can get.
pub data Answer : Call → Type 0 where
  card_added : Settled PaymentCard → Answer add
  card_saved : (id : ℕ) → Settled PaymentCard → Answer (save id)
  card_activated : (id : ℕ) → Settled PaymentCard → Answer (activate id)
  settings_saved : Settled SupportSettings → Answer settings
  logo_saved : Settled Text → Answer logo

-- A handler up to its call, and from its answer on, for the render that made it.
unfoldable pub begin : Call → State → State
begin add s = Cards.begin adding s
begin settings s = record s { saving = true; saved = false; error = [] }
begin logo s = begin_logo s
begin (save id) s = Cards.begin (editing id) s
begin (activate id) s = Cards.begin (activating id) s

unfoldable pub settle : {c : Call} → Answer c → State → State → State
settle (card_added reply) made s = settle_added made reply s
settle (card_saved id reply) made s = settle_saved made reply s
settle (card_activated id reply) made s = settle_activated made reply s
settle (settings_saved reply) made s = settle_support made reply s
settle (logo_saved reply) made s = settle_logo made reply s

-- What an answer says of the shop: what was saved, or nothing.
unfoldable pub told : {c : Call} → Answer c → Shop → Shop
told (card_added (fulfilled card)) shop = record shop {
  payment_cards = shop.payment_cards ++ card ∷ [];
}
told (card_saved id (fulfilled card)) shop = record shop {
  payment_cards = replace_card card shop.payment_cards;
}
told (card_activated id (fulfilled card)) shop = record shop {
  payment_cards = activate_only card.id shop.payment_cards;
}
told (settings_saved (fulfilled support)) shop = spread_support shop support
told (logo_saved (fulfilled path)) shop = record shop { logo_path = some path }
told _ shop = shop

-- The page, with the shop that the answers so far make of the first one, and the call that has not
-- been answered, with the state that its handler was made in.
pub record Page : Type 0 where
  pub state : State
  pub server : Shop
  pub call : Option (Call × State)

-- What happens. A call begins where the guard of the cards and the settings lets it, and where no logo
-- is being saved, which is a guard of the code for the logo only.
pub data Step : Page → Page → Type 0 where
  edited : (p : Page) (e : Edit) → Step p (record p { state = edit e p.state })
  began :
      (p : Page) (c : Call)
      → is_busy p.state ≡ false
      → p.state.logo_saving ≡ false
      → Step p (record p { state = begin c p.state; call = some (c, p.state) })
  answered :
      (p : Page) {c : Call} (made : State) (a : Answer c)
      → p.call ≡ some (c, made)
      → Step p (record { state = settle a made p.state; server = told a p.server; call = none })

pub data Reach (p : Page) : Page → Type 0 where
  here : Reach p p
  next : {q r : Page} → Reach p q → Step q r → Reach p r

-- The handler that waits was made for the shop that the session still has.
MadeFor : Option (Call × State) → Shop → Type 0
MadeFor none shop = Unit
MadeFor (some (c, made)) shop = made.shop ≡ shop

-- A call on its way is marked.
IsMarked : Option (Call × State) → State → Type 0
IsMarked none s = Unit
IsMarked (some _) s = (is_busy s || s.logo_saving) ≡ true

InStep : Page → Type 0
InStep p = (p.state.shop ≡ p.server) × MadeFor p.call p.state.shop × IsMarked p.call p.state

edit-shop : (e : Edit) (s : State) → (edit e s).shop ≡ s.shop
unfolding edit
edit-shop e s = ground arith

begin-shop : (c : Call) (s : State) → (begin c s).shop ≡ s.shop
unfolding begin Cards.begin begin_logo
begin-shop c s = ground arith

settle-told :
    {c : Call} (a : Answer c) (made s : State)
    → made.shop ≡ s.shop
    → (settle a made s).shop ≡ told a s.shop
unfolding settle told settle_added settle_saved settle_activated settle_support settle_logo
    update_cards
settle-told (card_added (fulfilled card)) made s h = rw h refl
settle-told (card_added (rejected reason)) made s h = refl
settle-told (card_saved id (fulfilled card)) made s h = rw h refl
settle-told (card_saved id (rejected reason)) made s h = refl
settle-told (card_activated id (fulfilled card)) made s h = rw h refl
settle-told (card_activated id (rejected reason)) made s h = refl
settle-told (settings_saved (fulfilled support)) made s h = rw h refl
settle-told (settings_saved (rejected reason)) made s h = refl
settle-told (logo_saved (fulfilled path)) made s h = rw h refl
settle-told (logo_saved (rejected reason)) made s h = refl

edit-mark :
    (e : Edit) (s : State)
    → (is_busy (edit e s) || (edit e s).logo_saving) ≡ (is_busy s || s.logo_saving)
unfolding edit is_busy
edit-mark e s = ground arith

edit-IsMarked :
    (call : Option (Call × State)) (e : Edit) (s : State)
    → IsMarked call s
    → IsMarked call (edit e s)
unfolding IsMarked
edit-IsMarked none e s m = tt
edit-IsMarked (some _) e s m = edit-mark e s ∙ m

begin-mark : (c : Call) (s : State) → (is_busy (begin c s) || (begin c s).logo_saving) ≡ true
unfolding begin is_busy is_card_pending Cards.begin begin_logo
begin-mark add s = refl
begin-mark settings s = ground arith
begin-mark logo s = ground arith
begin-mark (save id) s = refl
begin-mark (activate id) s = refl

unmarked :
    (call : Option (Call × State)) (s : State)
    → IsMarked call s
    → is_busy s ≡ false
    → s.logo_saving ≡ false
    → call ≡ none
unfolding IsMarked
unmarked none s m b l = refl
unmarked (some _) s m b l = ground (arith, m, b, l)

Step-InStep : {p q : Page} → Step p q → InStep p → InStep q
unfolding InStep MadeFor IsMarked
Step-InStep (edited p e) (same, made, marked) = (
  edit-shop e p.state ∙ same,
  subst (MadeFor p.call) (sym (edit-shop e p.state)) made,
  edit-IsMarked p.call e p.state marked,
)
Step-InStep (began p c b l) (same, made, marked) =
    (begin-shop c p.state ∙ same, sym (begin-shop c p.state), begin-mark c p.state)
Step-InStep (answered p {c} made a h) (same, m, marked) = (
  settle-told a made p.state (subst (λ call. MadeFor call p.state.shop) h m) ∙ ap (told a) same,
  tt,
  tt,
)

-- As long as no call begins while the logo is being saved, the shop that the page hands to the
-- session is, after any sequence of edits, calls and answers, the first one with every saved card,
-- setting and logo put into it in the order of the answers: nothing is lost. Where nothing is marked
-- as being saved, no call is on its way.
pub Reach-told :
    (shop : Shop) {p : Page}
    → Reach (record { state = init shop; server = shop; call = none }) p
    → (p.state.shop ≡ p.server)
      × (is_busy p.state ≡ false → p.state.logo_saving ≡ false → p.call ≡ none)
unfolding init InStep MadeFor IsMarked
Reach-told shop {p} r = let (same, made, marked) = go r in (same, unmarked p.call p.state marked)
  where
    go : {q : Page} → Reach (record { state = init shop; server = shop; call = none }) q → InStep q
    go here = (refl, tt, tt)
    go (next r s) = Step-InStep s (go r)
