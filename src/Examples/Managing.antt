-- ===== src/Examples/Managing.antt =====
-- An order of a shop, the shop's account, its products, the session and the login.
use radif.Prelude.{
  text, text_eq, starts_with, decimal, ◌≡◌, refl, true, false, none, some, [], ◌∷◌, ◌++◌,
}
use radif.Shared.Types.{PaymentCard, Product, Me}
use radif.Shared.Api.{fulfilled, api, Fetched, response}
use radif.AdminOrder.State as Order
use radif.AdminOrder.Payment.{Env}
use radif.Account.State as Account
use radif.Account.Cards.{settle_added, add_payment_card}
use radif.Account.Replies as Replies
use radif.Account.Settings.{save_logo, begin_logo}
use radif.Account.Laws.{save_logo_drops_card}
use radif.App.Session.{loading, hear, guest_routes, view}
use radif.App.Shops.{selected, change_shop, initial_shop_id, has_id}
use radif.App.Laws.{api_unauthorized, selected-change_shop}
use radif.Report as Report
use radif.Products.List as Products
use radif.Products.Sorted.{IsSorted, turned, settle_change-IsSorted}
use mathlib.Core.List.{Perm}
use radif.Examples.Data.{
  cup, bowl, card, second_card, gallery, owner, picture, admin_order, formats, signal,
}

abbrev env : Env
env = record {
  confirmed = true;
  writes = true;
  event_key = text "e-1";
  signal = signal;
  formats = formats;
}

abbrev shown : Order.State
shown = record Order.init { order = some admin_order; loading = false }

abbrev account : Account.State
account = record (Account.init gallery) { logo_file = some picture }

save_logo_drops_card_example :
    let add : Account.State → Account.State =
      λ t. (add_payment_card (fulfilled (record card { id = 8 })) (λ u. u) t).0 in
    ((add (begin_logo account)).shop.payment_cards
      ≡ account.shop.payment_cards ++ record card { id = 8 } ∷ [])
    × ((save_logo (fulfilled (text "/l.webp")) add account).0.shop.payment_cards
        ≡ account.shop.payment_cards)
unfolding Account.init Account.is_busy Account.is_card_pending
save_logo_drops_card_example =
    save_logo_drops_card picture (record card { id = 8 }) (text "/l.webp") account refl refl refl

api_unauthorized_example :
    let r : Fetched Me =
      response (record { status = 401; error_field = none; payload = fulfilled owner }) in
    view (text "/orders") (hear (api (text "/api/orders") r).1 loading) ≡ guest_routes
unfolding text text_eq starts_with
api_unauthorized_example =
    api_unauthorized (text "/api/orders") (text "/orders") none (fulfilled owner) loading refl refl
      refl

selected-change_shop_example :
    (shop : radif.Shared.Types.Shop) × ((shop.id ≡ 6)
      × ((selected (change_shop (text "/report") 6).0 owner ≡ some shop)
          × (selected (initial_shop_id (some (decimal 6)) owner) owner ≡ some shop)))
unfolding has_id
selected-change_shop_example = selected-change_shop (text "/report") 6 owner refl

abbrev listed : Products.State
listed = record Products.init { products = cup ∷ bowl ∷ [] }

settle_change-IsSorted_example :
    IsSorted (Products.settle_change bowl (fulfilled tt) listed).products
    × Perm
        (Products.settle_change bowl (fulfilled tt) listed).products
        (turned bowl listed.products)
settle_change-IsSorted_example = settle_change-IsSorted bowl tt listed

abbrev adding_page : Replies.Page
adding_page = record {
  state = Replies.begin Replies.add (Account.init gallery);
  server = gallery;
  call = some (Replies.add, Account.init gallery);
}

abbrev added_page : Replies.Page
added_page = record {
  state = settle_added (Account.init gallery) (fulfilled second_card) adding_page.state;
  server = record gallery { payment_cards = gallery.payment_cards ++ second_card ∷ [] };
  call = none;
}

Reach-told_example :
    (added_page.state.shop ≡ added_page.server)
    × (Account.is_busy added_page.state ≡ false
        → added_page.state.logo_saving ≡ false
        → added_page.call ≡ none)
unfolding Account.init Account.is_busy Account.is_card_pending Replies.settle Replies.told
Reach-told_example = Replies.Reach-told gallery (
    Replies.next
      (Replies.next Replies.here (
        Replies.began (record { state = Account.init gallery; server = gallery; call = none })
          Replies.add refl refl))
      (Replies.answered adding_page (Account.init gallery)
        (Replies.card_added (fulfilled second_card)) refl))

abbrev first_report : Report.ShopReport
first_report = record {
  order_count = 3;
  confirmed_order_count = 2;
  confirmed_order_value = 900000;
  average_order_value = 450000;
  status_counts = (text "paid", 2) ∷ (text "cancelled", 1) ∷ [];
  top_products = record { id = 7; name = text "cup"; quantity = 4 } ∷ [];
}
