-- ===== src/Login/Steps.antt =====
-- The steps of the login (web/src/pages/LoginPage.tsx).
use radif.Prelude.{
  ◌==◌, if◌then◌else◌, length, drop, all, keep, is_empty, text, starts_with, Text, is_space,
  is_digit, String, Bool, true, false, not, ◌&&◌, ◌||◌, Option, none, some, List, [], ◌∷◌,
}
use radif.Shared.Types.{Me}
use radif.Shared.Messages.{try_again}
use radif.Shared.Api.{
  Effect, call, navigate, Value, str, get, post, empty, json, Request, Settled, fulfilled, rejected,
  Thrown, message_or,
}

pub data Step : Type 0 where
  identifier password signup reset shop : Step

pub record ShopFields : Type 0 where
  pub name : Text
  pub instagram_username : Text
  pub card_number : Text
  pub iban : Text
  pub payment_instructions : Text

pub record State : Type 0 where
  pub identifier : Text
  pub password : Text
  pub password_visible : Bool
  pub code : Text
  pub step : Step
  pub pending : Bool
  pub error : Text
  pub shop : ShopFields
  -- the account that was handed to `onLogin`
  pub logged_in : Option Me

unfoldable pub init : State
init = record {
  identifier = [];
  password = [];
  password_visible = false;
  code = [];
  step = Step.identifier;
  pending = false;
  error = [];
  shop = record {
    name = [];
    instagram_username = [];
    card_number = [];
    iban = [];
    payment_instructions = [];
  };
  logged_in = none;
}

-- `identifier.replace(/[\s()-]/g, "")`
unfoldable pub mobile : State → Text
mobile s = keep (λ c. not (is_space c || c == b'(' || c == b')' || c == b'-')) s.identifier

unfoldable pub nine_digits : Text → Bool
nine_digits t = length t == 9 && all is_digit t

unfoldable pub national : Text → Bool
national [] = false
national (c ∷ t) = c == b'9' && nine_digits t

-- `/^((\+|00)?98|0)?9\d{9}$/`: the alternatives of the prefix, and no prefix
unfoldable pub is_reset_mobile : Text → Bool
is_reset_mobile t =
    (starts_with t (b'+' ∷ b'9' ∷ b'8' ∷ []) && national (drop 3 t))
    || (starts_with t (b'0' ∷ b'0' ∷ b'9' ∷ b'8' ∷ []) && national (drop 4 t))
    || (starts_with t (b'9' ∷ b'8' ∷ []) && national (drop 2 t))
    || (starts_with t (b'0' ∷ []) && national (drop 1 t))
    || national t

-- What the server gives to the calls of a task, in their order.
pub data Next : Type 0 where
  next_password next_otp : Next

unfoldable pub begin : State → State
begin s = record s { pending = true; error = [] }

unfoldable pub fail : Thrown → State → State
fail reason s = record s { error = message_or reason try_again; pending = false }

unfoldable pub post_request : Text → List (String × Value) → Request
post_request path fields = record { method = post; path = path; body = json fields }

unfoldable pub me_request : Request
me_request = record { method = get; path = text "/api/me"; body = empty }

-- `done`: an account with a shop is logged in, one without goes on to the shop.
unfoldable pub enter : Me → State → State × List Effect
enter me s =
    if is_empty me.shops
    then (record s { step = shop; pending = false }, [])
    else (record s { logged_in = some me; pending = false }, navigate (text "/orders/new") ∷ [])

unfoldable pub done : Settled Me → State → State × List Effect
done (rejected reason) s = (fail reason s, call me_request ∷ [])
done (fulfilled me) s = let (t, effects) = enter me s in (t, call me_request ∷ effects)

unfoldable pub step_after : Next → Step
step_after next_password = password
step_after next_otp = signup

unfoldable pub settle_identify : Settled Next → State → State
settle_identify (fulfilled next) s = record s {
  password = [];
  code = [];
  step = step_after next;
  pending = false;
}
settle_identify (rejected reason) s = fail reason s

unfoldable pub identify : Settled Next → (State → State) → State → State × List Effect
identify reply meanwhile s = (
  settle_identify reply (meanwhile (begin s)),
  call (post_request (text "/api/auth/identify") (("identifier", str s.identifier) ∷ [])) ∷ [],
)

-- The three tasks that end with `done`: the password, the code of a signup and that of a reset.
pub data Entry : Type 0 where
  by_password by_signup by_reset : Entry

unfoldable pub entry_request : Entry → State → Request
entry_request by_password s =
    post_request (text "/api/auth/password")
      (("identifier", str s.identifier) ∷ ("password", str s.password) ∷ [])
entry_request by_signup s =
    post_request (text "/api/auth/signup/verify")
      (("mobile", str (mobile s)) ∷ ("code", str s.code) ∷ ("password", str s.password) ∷ [])
entry_request by_reset s =
    post_request (text "/api/auth/password/reset/verify")
      (("mobile", str (mobile s)) ∷ ("code", str s.code) ∷ ("password", str s.password) ∷ [])

unfoldable pub settle_entry : Settled (Unit {0}) → Settled Me → State → State × List Effect
settle_entry (rejected reason) me s = (fail reason s, [])
settle_entry (fulfilled _) me s = done me s

unfoldable pub log_in :
    Entry → Settled (Unit {0}) → Settled Me → (State → State) → State → State × List Effect
log_in entry reply me meanwhile s =
    let (t, effects) = settle_entry reply me (meanwhile (begin s)) in
    (t, call (entry_request entry s) ∷ effects)

unfoldable pub settle_reset : Settled (Unit {0}) → State → State
settle_reset (fulfilled _) s = record s { password = []; code = []; step = reset; pending = false }
settle_reset (rejected reason) s = fail reason s

unfoldable pub start_reset : Settled (Unit {0}) → (State → State) → State → State × List Effect
start_reset reply meanwhile s = (
  settle_reset reply (meanwhile (begin s)),
  call (post_request (text "/api/auth/password/reset") (("mobile", str (mobile s)) ∷ [])) ∷ [],
)

unfoldable pub shop_fields : ShopFields → List (String × Value)
shop_fields f =
    ("name", str f.name)
    ∷ ("instagramUsername", str f.instagram_username)
    ∷ ("cardNumber", str f.card_number)
    ∷ ("iban", str f.iban)
    ∷ ("paymentInstructions", str f.payment_instructions)
    ∷ []

unfoldable pub settle_shop : Settled (Unit {0}) → Settled Me → State → State × List Effect
settle_shop (rejected reason) me s = (fail reason s, [])
settle_shop (fulfilled _) (rejected reason) s = (fail reason s, call me_request ∷ [])
settle_shop (fulfilled _) (fulfilled me) s = (
  record s { logged_in = some me; pending = false },
  call me_request ∷ navigate (text "/orders/new") ∷ [],
)

unfoldable pub create_shop :
    Settled (Unit {0}) → Settled Me → (State → State) → State → State × List Effect
create_shop reply me meanwhile s =
    let (t, effects) = settle_shop reply me (meanwhile (begin s)) in
    (t, call (post_request (text "/api/shops") (shop_fields s.shop)) ∷ effects)

-- The link back to the first step.
unfoldable pub change_identifier : State → State
change_identifier s = record s { step = Step.identifier }
