-- ===== src/Examples/Drawing.antt =====
-- What the pages draw, and the frame around the page of a new order.
use radif.Prelude.{text, number, decimal, ◌≡◌, refl, true, false, not, ◌&&◌, none, some, [], ◌∷◌}
use radif.Shared.Types.{SalesChannel, OrderSummary}
use radif.Examples.Listing.{archived, archived-IsClean}
use radif.Shared.Api.{fulfilled}
use radif.Shared.Drawing.{Display, offers, ways_out}
use radif.AdminOrder.State as Order
use radif.AdminOrder.Save.{is_saving}
use radif.AdminOrder.Calls as Calls
use radif.AdminOrder.View.Handlers.{changes_order}
use radif.AdminOrder.View.Sections.{view}
use radif.AdminOrder.View.Offers.{offered, offers-admin_view}
use radif.AdminOrder.View.Waiting.{Reach-offers}
use radif.CreateOrder.State as Create
use radif.CreateOrder.Submit.{begin}
use radif.CreateOrder.View as Form
use radif.CreateOrder.View.Offers.{offered_for, offers-create_view}
use radif.CreateOrder.View.Ways.{ways, ways_out-view}
use radif.Components.ProductChoices.{toggle}
use radif.Account.State as Account
use radif.Account.View as Drawn
use radif.Account.View.Offers.{busy-offers}
use radif.App.Busy.{new_order, ordering, Frame, closed_frame, enter, send, here, next}
use radif.Shared.Handled.{Handles}
use radif.Shared.Ages.{Age}
use radif.Orders.Address.{IsClean}
use radif.Orders.Listing as Listing
use radif.Orders.Page as List_page
use radif.Orders.Page.Clean.{Handles-IsClean}
use radif.PublicOrder.State as Public
use radif.PublicOrder.Page.Payments.{Look, is_serious}
use radif.PublicOrder.Page.Details as Customer
use radif.PublicOrder.Page.Offers as Asked
use radif.Examples.Data.{created, cup, gallery, owner, admin_order, public_order, draft}

abbrev display : Display
display = record { number = decimal; date = λ t. t; date_time = λ t. t }

abbrev order_page : Calls.Page
order_page = record { state = Order.loaded (fulfilled admin_order) false Order.init; calls = [] }

offers-admin_view_example :
    offers changes_order (view display [] true order_page.state)
    ≡ offered changes_order order_page.state admin_order
unfolding Order.loaded Order.show_order Order.init
offers-admin_view_example =
    offers-admin_view changes_order display [] true order_page.state admin_order (λ a h. h) refl
      refl

abbrev rotating : Calls.Page
rotating = record { state = Calls.begin Calls.rotate order_page.state; calls = Calls.rotate ∷ [] }

Reach-offers_example : offers changes_order (view display [] true rotating.state) ≡ false
unfolding Order.loaded Order.show_order Order.init Calls.is_enabled is_saving
Reach-offers_example =
    Reach-offers changes_order display [] true (λ a h. h)
      (Calls.next
        (Calls.next Calls.here (
          Calls.load_ended (record { state = Order.init; calls = [] }) (fulfilled admin_order)
            false))
        (Calls.began order_page Calls.rotate admin_order refl refl))
      refl

abbrev empty_form : Create.State
empty_form = Create.init SalesChannel.instagram (text "key-1") 0

abbrev chosen : Create.State
chosen = Create.update_items (toggle cup []) empty_form

abbrev dated : Create.State
dated = Create.pick_date (text "2026-12-01") chosen

offers-create_view_example :
    offers Form.is_serious (Form.view display (text "gallery") true dated)
    ≡ offered_for Form.is_serious dated dated.created
offers-create_view_example =
    offers-create_view Form.is_serious display (text "gallery") true dated (λ a h. h)

abbrev still_pending : Create.State
still_pending = record dated { pending = true; created = some created }

ways_out-view_example :
    ways_out true (Form.view display (text "gallery") true still_pending)
    ≡ ways true still_pending still_pending.created
ways_out-view_example = ways_out-view true display (text "gallery") true still_pending

abbrev open_frame : Frame
open_frame = enter (new_order empty_form) closed_frame

abbrev sent_frame : Frame
sent_frame =
    send (new_order (begin dated)) (ordering 1)
      (record open_frame { page = some (new_order dated) })

abbrev saving_page : Account.State
saving_page = record (Account.init gallery) { saving = true }

busy-offers_example :
    offers Drawn.is_serious (Drawn.view display owner saving_page)
    ≡ (not saving_page.pending && Drawn.is_serious Drawn.log_out)
unfolding Account.init Account.is_busy Account.is_card_pending
busy-offers_example = busy-offers Drawn.is_serious display owner saving_page (λ a h. h) refl

abbrev look : Look
look = record {
  display = display;
  negative = decimal;
  megabytes = decimal;
  preview = [];
  preparing = false;
  final_preview = [];
  preparing_final = false;
}

abbrev shown_to_customer : Public.State
shown_to_customer = Public.loaded (fulfilled public_order) false (Public.init draft)

offers-public_view_example :
    offers is_serious (Customer.view true look shown_to_customer)
    ≡ Asked.offered_for is_serious shown_to_customer public_order
unfolding Public.loaded
offers-public_view_example =
    Asked.offers-public_view is_serious true look shown_to_customer public_order (λ a h. h) refl

abbrev shipped_order : OrderSummary
shipped_order = record {
  id = 12;
  order_code = text "R-12";
  product_summary = text "cup";
  customer_full_name = some (text "Sara");
  customer_submitted = true;
  receipt_uploaded = true;
  initial_payment_amount = none;
  final_payment_requested = false;
  final_receipt_uploaded = false;
  final_payment_confirmed = false;
  has_tracking_code = true;
  amount = 500000;
  status = text "shipped";
  estimated_delivery_date = text "2026-12-01";
  created_at = text "2026-11-01T10:00:00Z";
  updated_at = text "2026-11-20T10:00:00Z";
}

abbrev clock : List_page.Look
clock = record {
  display = display;
  serialize = λ p. text "view=archive";
  today = 20000;
  day_of = λ t. 20001;
  now = 1800000000000;
  time_of = λ t. 1799999000000;
  age_words = λ (a : Age). text "17 minutes ago";
}

abbrev one_shipped : Listing.State
one_shipped = record {
  orders = shipped_order ∷ [];
  loading = false;
  loading_more = false;
  error = [];
  has_more = false;
  active_count = some 0;
  archived_count = 1;
  list_request = 1;
}

Handles-IsClean_example :
    Handles
      (λ a. IsClean (List_page.apply a archived))
      (List_page.view clock (text "gallery") one_shipped archived)
Handles-IsClean_example =
    Handles-IsClean clock (text "gallery") one_shipped archived archived-IsClean
