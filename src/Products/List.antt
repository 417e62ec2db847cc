-- ===== src/Products/List.antt =====
-- The page of a shop's products (web/src/pages/ProductsPage.tsx).
use radif.Prelude.{
  leb, ◌==◌, if◌then◌else◌, text, decimal, Text, ℕ, suc, Bool, true, false, not, Option, none, some,
  List, [], ◌∷◌, ◌++◌, map,
}
use radif.Shared.Types.{Product}
use radif.Shared.Messages.{products_not_loaded, product_state_not_changed}
use radif.Shared.Api.{
  Effect, call, delete, post, empty, Request, Settled, fulfilled, rejected, message_or,
}

-- `a` comes before `b` in the order of `sortProducts`: `Number(b.active) - Number(a.active)` and
-- then `b.id - a.id` is not positive.
unfoldable pub not_after : Product → Product → Bool
not_after a b =
    if a.active
    then (if b.active then leb b.id a.id else true)
    else if b.active
    then false
    else leb b.id a.id

unfoldable pub insert : Product → List Product → List Product
insert p [] = p ∷ []
insert p (q ∷ qs) = if not_after p q then p ∷ q ∷ qs else q ∷ insert p qs

-- `Array.prototype.sort` is stable; so is insertion from the right.
unfoldable pub sort_products : List Product → List Product
sort_products [] = []
sort_products (p ∷ ps) = insert p (sort_products ps)

pub record State : Type 0 where
  pub products : List Product
  pub loading : Bool
  pub error : Text
  pub changing : Option ℕ

unfoldable pub init : State
init = record { products = []; loading = true; error = []; changing = none }

-- `loadProducts`, up to its call and from its answer on.
unfoldable pub load : State → State
load s = record s { loading = true; error = [] }

unfoldable pub loaded : Settled (List Product) → State → State
loaded (fulfilled products) s = record s { products = products; loading = false }
loaded (rejected reason) s = record s {
  error = message_or reason products_not_loaded;
  loading = false;
}

unfoldable pub product_path : ℕ → Product → Text
product_path shop_id p = text "/api/shops/" ++ decimal shop_id ++ text "/products/" ++ decimal p.id

unfoldable pub change_request : ℕ → Product → Request
change_request shop_id p =
    if p.active
    then record { method = delete; path = product_path shop_id p; body = empty }
    else record { method = post; path = product_path shop_id p ++ text "/activate"; body = empty }

unfoldable pub flip_active : Product → Product → Product
flip_active p item = if item.id == p.id then record item { active = not p.active } else item

unfoldable pub settle_change : Product → Settled (Unit {0}) → State → State
settle_change p (fulfilled _) s = record s {
  products = sort_products (map (flip_active p) s.products);
  changing = none;
}
settle_change p (rejected reason) s = record s {
  error = message_or reason product_state_not_changed;
  changing = none;
}

unfoldable pub change_active :
    ℕ → Product → Settled (Unit {0}) → (State → State) → State → State × List Effect
change_active shop_id p reply meanwhile s = (
  settle_change p reply (meanwhile (record s { changing = some p.id; error = [] })),
  call (change_request shop_id p) ∷ [],
)

unfoldable pub active_count : List Product → ℕ
active_count [] = 0
active_count (p ∷ ps) = if p.active then suc (active_count ps) else active_count ps
