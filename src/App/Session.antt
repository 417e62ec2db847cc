-- ===== src/App/Session.antt =====
-- The session of the application and the page that is shown for an address (web/src/App.tsx).
use radif.Prelude.{◌==◌, if◌then◌else◌, text, text_eq, starts_with, Text, Bool, List, [], ◌∷◌}
use radif.Shared.Types.{Me, Shop}
use radif.Shared.Api.{Effect, unauthorized_event, Settled, fulfilled, rejected, abort_error}

pub data Session : Type 0 where
  loading guest : Session
  ready : Me → Session

-- The answer of `/api/me`.
unfoldable pub me_answered : Settled Me → Session → Session
me_answered (fulfilled me) session = ready me
me_answered (rejected (abort_error _)) session = session
me_answered (rejected _) session = guest

-- The listener of `radif:unauthorized`, for everything that a call does besides its result.
unfoldable pub hear : List Effect → Session → Session
hear [] session = session
hear (unauthorized_event ∷ effects) session = hear effects guest
hear (_ ∷ effects) session = hear effects session

-- The shops with one in the place of the shop with its id.
unfoldable pub replace_shop : Shop → List Shop → List Shop
replace_shop shop [] = []
replace_shop shop (current ∷ shops) =
    (if current.id == shop.id then shop else current) ∷ replace_shop shop shops

-- `onShopUpdated`, made in a render where the session was ready with `me`.
unfoldable pub shop_updated : Me → Shop → Session
unfolding replace_shop
shop_updated me shop = ready (record me { shops = replace_shop shop me.shops })

-- `onLogout`, after the server has ended the session.
unfoldable pub logged_out : Session → Session
logged_out session = guest

-- What is shown: the routes of a public order and those of a guest are each one view.
pub data View : Type 0 where
  landing public_order_routes loading_screen guest_routes new_order_redirect : View
  admin_app : Me → View

unfoldable pub is_landing : Text → Bool
is_landing path = text_eq path (text "/")

unfoldable pub is_public_order : Text → Bool
is_public_order path = starts_with path (text "/o/")

unfoldable pub signed_in_view : Text → Me → View
signed_in_view path me = if text_eq path (text "/login") then new_order_redirect else admin_app me

unfoldable pub view : Text → Session → View
unfolding is_landing is_public_order signed_in_view
view path session =
    if is_landing path
    then landing
    else if is_public_order path
    then public_order_routes
    else elim session [
      | loading ↦ loading_screen
      | guest ↦ guest_routes
      | ready me ↦ signed_in_view path me
    ]
