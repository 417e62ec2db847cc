-- ===== src/App/Gate.antt =====
-- What the frame of a shop's pages lets through (web/src/AdminApp.tsx): the gate of an inactive shop,
-- the links below the page, and the offer to install the application.
use radif.Prelude.{
  if◌then◌else◌, text, text_eq, Text, ℕ, Bool, true, false, not, ◌&&◌, ◌||◌, Option, none, some,
  List, [], ◌∷◌,
}
use radif.Shared.Types.{SubscriptionState, trial, paid, inactive}
use radif.Shared.Api.{Effect, store_local}
use radif.App.Shops.{dismiss}

unfoldable pub is_inactive : SubscriptionState → Bool
is_inactive trial = false
is_inactive paid = false
is_inactive inactive = true

-- What an event of the page has been kept from, and whether the notice is drawn that the shop can
-- only be read.
pub record Passed : Type 0 where
  pub prevented : Bool
  pub stopped : Bool
  pub read_only_message : Bool

-- `onSubmitCapture`
unfoldable pub submit_capture : SubscriptionState → Bool → Passed
submit_capture subscription message =
    if is_inactive subscription
    then record { prevented = true; stopped = false; read_only_message = true }
    else record { prevented = false; stopped = false; read_only_message = message }

-- `onClickCapture`: the button around what is clicked, if there is one, by whether it has the
-- attribute `data-allow-inactive`.
unfoldable pub is_gated : SubscriptionState → Option Bool → Bool
is_gated subscription none = false
is_gated subscription (some allowed) = is_inactive subscription && not allowed

unfoldable pub click_capture : SubscriptionState → Option Bool → Bool → Passed
click_capture subscription button message =
    if is_gated subscription button
    then record { prevented = true; stopped = true; read_only_message = true }
    else record { prevented = false; stopped = false; read_only_message = message }

-- The offer to install: `dismissed` is its state, and the event is the browser's, if it gave one.
unfoldable pub shows_install : Bool → Bool → Bool → Bool → Bool
shows_install dismissed standalone has_event ios =
    not dismissed && not standalone && (has_event || ios)

-- `install`: what is stored, whether the offer is dismissed then, and whether `onDone` is called.
unfoldable pub install : Bool → Text → ℕ → Bool → List Effect × Bool × Bool
install false outcome now dismissed = ([], dismissed, false)
install true outcome now dismissed =
    if text_eq outcome (text "dismissed")
    then (store_local (dismiss now).0 (dismiss now).1 ∷ [], true, true)
    else ([], dismissed, true)
