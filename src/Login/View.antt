-- ===== src/Login/View.antt =====
-- What the login draws (web/src/pages/LoginPage.tsx), and which of its buttons can be pressed.
use radif.Prelude.{
  if◌then◌else◌, Text, ◌≡◌, refl, ◌∙◌, subst, Bool, true, false, not, ◌&&◌, ◌||◌, none, some, List,
  [], ◌∷◌, ◌++◌, arith,
}
use radif.Shared.Drawing.{
  Node, words, notice, button, field, when, when_text, offers, offer_laws, offers-when_text,
}
use radif.Login.Labels.{
  shop_title, identifier_title, code_title, password_title, identifier_hint, shop_hint, code_hint,
  change_label, hide_password, show_password, forgot_label, working_label, continue_label,
  enter_label, make_shop_label, confirm_label,
}
use radif.Login.Steps.{
  State, Step, identifier, password, signup, reset, shop, init, mobile, is_reset_mobile,
}
use radif.Login.Fields.{
  Edit, type_identifier, type_password, type_code, toggle_visible, type_shop_name, type_instagram,
  type_card_number, type_iban, type_instructions,
}
use radif.Login.Tasks.{Page, Task, Reach, IsWaiting, Reach-IsWaiting}

-- `submit` is the handler of the step.
pub data Handler : Type 0 where
  submit change_identifier start_reset : Handler
  change : Edit → Handler

unfoldable pub is_serious : Handler → Bool
is_serious (change _) = false
is_serious _ = true

unfoldable pub title : Step → Text
title shop = shop_title
title identifier = identifier_title
title signup = code_title
title reset = code_title
title password = password_title

unfoldable pub hint : Step → Text
hint identifier = identifier_hint
hint shop = shop_hint
hint signup = code_hint
hint reset = code_hint
hint password = []

unfoldable pub password_part : State → List (Node Handler)
password_part s =
    words s.identifier
    ∷ button change_label s.pending change_identifier
    ∷ field s.password (λ t. change (type_password t))
    ∷ button (if s.password_visible then hide_password else show_password) false
        (change toggle_visible)
    ∷ when (is_reset_mobile (mobile s)) (button forgot_label s.pending start_reset ∷ [])

unfoldable pub code_part : State → List (Node Handler)
code_part s =
    field s.code (λ t. change (type_code t)) ∷ field s.password (λ t. change (type_password t)) ∷ []

unfoldable pub shop_part : State → List (Node Handler)
shop_part s =
    field s.shop.name (λ t. change (type_shop_name t))
    ∷ field s.shop.instagram_username (λ t. change (type_instagram t))
    ∷ field s.shop.card_number (λ t. change (type_card_number t))
    ∷ field s.shop.iban (λ t. change (type_iban t))
    ∷ field s.shop.payment_instructions (λ t. change (type_instructions t))
    ∷ []

-- The fields of a step.
unfoldable pub step_part : Step → State → List (Node Handler)
step_part identifier s = field s.identifier (λ t. change (type_identifier t)) ∷ []
step_part password s = password_part s
step_part signup s = code_part s
step_part reset s = code_part s
step_part shop s = shop_part s

unfoldable pub submit_label : Step → Text
submit_label identifier = continue_label
submit_label password = enter_label
submit_label shop = make_shop_label
submit_label signup = confirm_label
submit_label reset = confirm_label

unfoldable pub view : State → List (Node Handler)
view s =
    words (title s.step)
    ∷ words (hint s.step)
    ∷ (step_part s.step s
        ++ (when_text s.error (λ e. notice e ∷ [])
            ++ button (if s.pending then working_label else submit_label s.step) s.pending submit
              ∷ []))

-- The two buttons besides the one that sends the form, which only the step of the password has.
unfoldable pub step_offered : (Handler → Bool) → Step → State → Bool
step_offered p password s =
    not s.pending && (p change_identifier || (is_reset_mobile (mobile s) && p start_reset))
step_offered p _ s = false

module _ (p : Handler → Bool) (plain : (a : Handler) → is_serious a ≡ false → p a ≡ false)
    (s : State) where
  offers-step : (step : Step) → offers p (step_part step s) ≡ step_offered p step s
  unfolding offers step_part step_offered password_part code_part shop_part is_serious
  offers-step identifier = refl
  offers-step password = simp offer_laws (ground (arith, plain (change toggle_visible)))
  offers-step signup = refl
  offers-step reset = refl
  offers-step shop = refl

  pub offers-view : offers p (view s) ≡ (step_offered p s.step s || (not s.pending && p submit))
  unfolding offers view
  offers-view =
      simp
        (
          offer_laws,
          offers-step s.step,
          offers-when_text p s.error (λ e. notice e ∷ []) (λ u. refl),
        )
        (ground arith)

step_offered-pending :
    (p : Handler → Bool) (step : Step) (s : State)
    → s.pending ≡ true
    → step_offered p step s ≡ false
unfolding step_offered
step_offered-pending p password s h = ground arith
step_offered-pending p _ s h = refl

-- However the login is used, while a task waits for the server the page offers neither the button that
-- sends the form nor the ones that go back or start a reset: nothing that begins another task.
pub waiting-offers :
    (p : Handler → Bool) {page : Page} {t : Task}
    → ((a : Handler) → is_serious a ≡ false → p a ≡ false)
    → Reach (record { state = init; task = none }) page
    → page.task ≡ some t
    → offers p (view page.state) ≡ false
unfolding IsWaiting
waiting-offers p {page} {t} plain r e =
    let w = subst (IsWaiting page.state.pending page.state.step) e (Reach-IsWaiting r) in
    offers-view p plain page.state
    ∙ ground (arith, step_offered-pending p page.state.step page.state w.0, w.0)
