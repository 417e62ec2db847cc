-- ===== src/App/Shops.antt =====
-- The selected shop and the offer to install the application (web/src/AdminApp.tsx).
use radif.Prelude.{
  ltb, ◌==◌, if◌then◌else◌, any, find, text, text_eq, starts_with, decimal, number, Text, ℕ, ◌-◌,
  ◌*◌, Bool, Option, none, some, List, [], ◌∷◌,
}
use radif.Shared.Types.{Me, Shop}
use radif.Shared.Api.{Effect, store_local, navigate}

-- `Number` of a stored entry; a missing one is 0.
unfoldable pub stored_number : Option Text → ℕ
stored_number none = 0
stored_number (some t) = number t

unfoldable pub first_id : List Shop → Option ℕ
first_id [] = none
first_id (shop ∷ shops) = some shop.id

unfoldable pub has_id : ℕ → Shop → Bool
has_id id shop = shop.id == id

-- The first `shopID`: the stored one where the account has that shop, or else the first shop's.
unfoldable pub initial_shop_id : Option Text → Me → Option ℕ
unfolding stored_number first_id has_id
initial_shop_id stored me =
    if any (has_id (stored_number stored)) me.shops
    then some (stored_number stored)
    else first_id me.shops

unfoldable pub first_shop : List Shop → Option Shop
first_shop [] = none
first_shop (shop ∷ shops) = some shop

unfoldable pub find_shop : Option ℕ → List Shop → Option Shop
find_shop none shops = none
find_shop (some id) shops = find (has_id id) shops

unfoldable pub shop_or_first : Option Shop → List Shop → Option Shop
shop_or_first (some shop) shops = some shop
shop_or_first none shops = first_shop shops

-- `selected`; an account without shops has none.
unfoldable pub selected : Option ℕ → Me → Option Shop
unfolding find_shop shop_or_first first_shop
selected shop_id me = shop_or_first (find_shop shop_id me.shops) me.shops

unfoldable pub target : Text → Text
target path =
    if starts_with path (text "/products")
    then text "/products"
    else if text_eq path (text "/report")
    then text "/report"
    else text "/orders"

-- `changeShop`: the new `shopID`, the entry that is stored, and where the page goes.
unfoldable pub change_shop : Text → ℕ → Option ℕ × List Effect
unfolding target
change_shop path id =
    (some id, store_local (text "radif_shop_id") (decimal id) ∷ navigate (target path) ∷ [])

-- `dismissed` of the offer to install, when the page is opened at a time in milliseconds.
unfoldable pub is_dismissed : Option Text → ℕ → Bool
is_dismissed stored now = ltb (now - stored_number stored) (7 * 24 * 60 * 60 * 1000)

-- `dismiss`: the entry that is stored.
unfoldable pub dismiss : ℕ → Text × Text
dismiss now = (text "radif_install_dismissed_at", decimal now)
