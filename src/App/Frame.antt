-- ===== src/App/Frame.antt =====
-- What the frame of a shop's pages draws around a page (web/src/AdminApp.tsx): the choice of the shop,
-- the notices of its subscription, the offer to install, and the links below.
use radif.Prelude.{
  if◌then◌else◌, or_else, text, decimal, Text, ℕ, ◌≡◌, refl, Bool, false, not, ◌||◌, Option, none,
  some, List, [], ◌∷◌, ◌++◌, map, arith,
}
use radif.Shared.Types.{Me, Shop, SubscriptionState, trial, paid, inactive}
use radif.Shared.Drawing.{
  Node, words, picture, link, button, choice, Choice, Display, when, when_some, ways_out,
}
use radif.App.Labels.{
  orders_label, new_order_label, products_label, report_label, account_label, no_shop,
  log_out_label, trial_over, activate_label, trial_days, read_only_notice, close_offer_label,
  install_hint, install_ios_hint, install_label,
}
use radif.App.Gate.{shows_install}

pub data Handler : Type 0 where
  change_shop : ℕ → Handler
  dismiss install log_out : Handler

-- `navigation`
abbrev pub navigation : List (Text × Text)
navigation =
    (text "/orders", orders_label)
    ∷ (text "/orders/new", new_order_label)
    ∷ (text "/products", products_label)
    ∷ (text "/report", report_label)
    ∷ (text "/account", account_label)
    ∷ []

unfoldable pub bottom_link : Bool → Text × Text → Node Handler
bottom_link disabled (to, label) = link label disabled to

unfoldable pub bottom_navigation : Bool → List (Node Handler)
unfolding bottom_link
bottom_navigation disabled = map (bottom_link disabled) navigation

unfoldable pub shop_option : Shop → Choice Handler
shop_option shop = record {
  value = decimal shop.id;
  label = shop.name;
  disabled = false;
  picked = change_shop shop.id;
}

unfoldable pub shop_switcher : List Shop → Shop → Bool → List (Node Handler)
shop_switcher shops chosen disabled =
    when_some chosen.logo_path (λ path. picture path ∷ [])
    ++ choice disabled (map shop_option shops) (decimal chosen.id) ∷ []

unfoldable pub subscription_part : Display → SubscriptionState → Shop → List (Node Handler)
subscription_part d inactive shop =
    words trial_over ∷ link activate_label false (text "https://wa.me/989362507047") ∷ []
subscription_part d trial shop =
    words (d.number (or_else shop.trial_days_remaining 0) ++ trial_days) ∷ []
subscription_part d paid shop = []

-- `InstallPrompt`, with whether it was dismissed, whether the application is installed, whether the
-- browser gave an event, and whether it is one of iOS.
unfoldable pub install_part : Bool → Bool → Bool → Bool → List (Node Handler)
install_part dismissed standalone has_event ios =
    when (shows_install dismissed standalone has_event ios) (
      button close_offer_label false dismiss
      ∷ words (if has_event then install_hint else install_ios_hint)
      ∷ when has_event (button install_label false install ∷ []))

-- An account without shops.
unfoldable pub shopless_view : List (Node Handler)
shopless_view = words no_shop ∷ button log_out_label false log_out ∷ []

-- The frame above its page.
unfoldable pub head_view : Display → Me → Shop → Bool → Bool → List (Node Handler)
head_view d me shop creating read_only =
    shop_switcher me.shops shop creating
    ++ (subscription_part d shop.subscription_state shop
        ++ when read_only (words read_only_notice ∷ []))

-- Whether a choice can be changed.
unfoldable pub lets_pick : List (Node Handler) → Bool
lets_pick [] = false
lets_pick (choice disabled options value ∷ nodes) = not disabled || lets_pick nodes
lets_pick (_ ∷ nodes) = lets_pick nodes

lets_pick-append :
    (xs ys : List (Node Handler)) → lets_pick (xs ++ ys) ≡ (lets_pick xs || lets_pick ys)
unfolding lets_pick
lets_pick-append [] ys = refl
lets_pick-append (choice disabled options value ∷ xs) ys = ground (arith, lets_pick-append xs ys)
lets_pick-append (_ ∷ xs) ys = lets_pick-append xs ys

lets_pick-picture : (path : Option Text) → lets_pick (when_some path (λ t. picture t ∷ [])) ≡ false
unfolding lets_pick
lets_pick-picture none = refl
lets_pick-picture (some []) = refl
lets_pick-picture (some (c ∷ t)) = refl

lets_pick-subscription :
    (d : Display) (state : SubscriptionState) (shop : Shop)
    → lets_pick (subscription_part d state shop) ≡ false
unfolding lets_pick subscription_part
lets_pick-subscription d trial shop = refl
lets_pick-subscription d paid shop = refl
lets_pick-subscription d inactive shop = refl

-- The frame lets the shop be chosen, and its links be followed, exactly while no page is busy. The
-- links are those of the five parts of the application then.
pub frame_lock :
    (d : Display) (me : Me) (shop : Shop) (creating read_only keyboard : Bool)
    → (lets_pick (head_view d me shop creating read_only) ≡ not creating)
      × (ways_out keyboard (bottom_navigation creating) ≡ (
          if creating
          then []
          else text "/orders"
            ∷ text "/orders/new"
            ∷ text "/products"
            ∷ text "/report"
            ∷ text "/account"
            ∷ []))
unfolding head_view shop_switcher lets_pick bottom_navigation ways_out
frame_lock d me shop creating read_only keyboard = (
  simp
      (
        lets_pick-append,
        lets_pick-picture shop.logo_path,
        lets_pick-subscription d shop.subscription_state shop,
      )
      (ground arith),
  ground arith,
)
