-- ===== src/CreateOrder/Fields.antt =====
-- The products of the form, and the handlers of its plain fields (web/src/pages/CreateOrderPage.tsx).
use radif.Prelude.{text, decimal, Text, ℕ, Bool, true, false, none, some, List, [], ◌∷◌, ◌++◌}
use radif.Shared.Types.{Product, SalesChannel}
use radif.Shared.Messages.{products_not_loaded}
use radif.Shared.Api.{
  Effect, get, empty, str, Request, Settled, fulfilled, rejected, message_or, SignalReply,
  send_pilot_event,
}
use radif.CreateOrder.State.{State}

-- `loadProducts`, up to its call and from its answer on.
unfoldable pub load_products : State → State
load_products s = record s { loading = true; load_error = [] }

unfoldable pub products_request : ℕ → Request
products_request shop_id = record {
  method = get;
  path = text "/api/shops/" ++ decimal shop_id ++ text "/products";
  body = empty;
}

unfoldable pub products_loaded : Settled (List Product) → State → State
products_loaded (fulfilled products) s = record s { products = products; loading = false }
products_loaded (rejected reason) s = record s {
  load_error = message_or reason products_not_loaded;
  loading = false;
}

-- The signal of a form that is started under a key.
unfoldable pub started_event : ℕ → SignalReply → State → List Effect
started_event shop_id signal s =
    send_pilot_event (text "/api/shops/" ++ decimal shop_id ++ text "/pilot-events")
      (("eventName", str (text "order_create_started"))
        ∷ ("createKey", str s.create_key)
        ∷ ("source", str (text "normal"))
        ∷ [])
      signal

-- A change of a field that no other field depends on.
pub data Edit : Type 0 where
  focus_amount focus_initial : Bool → Edit
  pick_channel : SalesChannel → Edit
  type_reference type_note pick_updated_date : Text → Edit
  open_date_editor close_date_editor : Edit

-- The editor of the date is only shown for a made order.
unfoldable pub edit : Edit → State → State
edit (focus_amount focused) s = record s { amount_focused = focused }
edit (focus_initial focused) s = record s { initial_payment_focused = focused }
edit (pick_channel channel) s = record s { sales_channel = channel }
edit (type_reference typed) s = record s { conversation_reference = typed }
edit (type_note typed) s = record s { note = typed }
edit (pick_updated_date date) s = record s { updated_delivery_date = date }
edit open_date_editor s = elim s.created [
  | none ↦ s
  | some order ↦ record s {
    updated_delivery_date = order.estimated_delivery_date;
    editing_delivery_date = true;
  }
]
edit close_date_editor s = record s { editing_delivery_date = false }
