-- ===== src/HistoricalOrder/Submit.antt =====
-- Sending the reviewed order (web/src/pages/HistoricalOrderPage.tsx: submit).
use radif.Prelude.{
  text, decimal, number, Text, String, true, false, Option, none, some, List, [], ◌∷◌, ◌++◌,
}
use radif.Shared.Types.{CreatedOrder}
use radif.Shared.Messages.{order_not_imported}
use radif.Shared.Storage.{channel_text}
use radif.Shared.Api.{
  Effect, call, busy_change, store_local, store_session, scroll_top, File, Value, str, num, items,
  file, post, form, Request, Settled, fulfilled, rejected, message_or, pilot_failure_reason,
}
use radif.Components.ProductChoices.{request_items}
use radif.HistoricalOrder.State.{State, Env, failure_event, reset}

-- The object that is sent as JSON text under the name `order`.
unfoldable pub order_fields : Env → State → List (String × Value)
order_fields env s =
    ("createKey", str s.create_key)
    ∷ ("shopId", num env.shop_id)
    ∷ ("items", items (request_items s.items))
    ∷ ("amount", num (number s.amount))
    ∷ ("estimatedDeliveryDate", str s.delivery_date)
    ∷ ("status", str s.status)
    ∷ ("customerFullName", str s.customer.full_name)
    ∷ ("customerMobile", str s.customer.mobile)
    ∷ ("customerAddress", str s.customer.address)
    ∷ ("customerPostalCode", str s.customer.postal_code)
    ∷ ("salesChannel", str (channel_text s.sales_channel))
    ∷ ("conversationReference", str s.conversation_reference)
    ∷ ("internalNote", str s.note)
    ∷ []

unfoldable pub receipt_part : Option File → List (String × Value)
receipt_part none = []
receipt_part (some receipt) = ("receipt", file receipt) ∷ []

-- The form has the part `order`, whose fields stand here in its place, and the receipt.
unfoldable pub import_request : Env → State → Request
import_request env s = record {
  method = post;
  path = text "/api/orders/import";
  body = form (order_fields env s ++ receipt_part s.receipt);
}

unfoldable pub create_key_slot : Env → Text
create_key_slot env = text "radif_historical_create_key_" ++ decimal env.shop_id

-- From the answer on, `finally` included: `made` is the state of the render that made the handler,
-- and `key` the fresh key of `reset`.
unfoldable pub settle : Env → Text → State → Settled CreatedOrder → State → State × List Effect
settle env key made (fulfilled order) s = (
  record (reset key (record s { created = some order; reviewing = false })) { pending = false },
  store_local (text "radif_sales_channel") (channel_text made.sales_channel)
      ∷ store_session (create_key_slot env) key
      ∷ scroll_top
      ∷ busy_change false
      ∷ [],
)
settle env key made (rejected reason) s = (
  record s { error = message_or reason order_not_imported; pending = false },
  failure_event env made (pilot_failure_reason reason) ++ busy_change false ∷ [],
)

unfoldable pub submit :
    Env → Text → Settled CreatedOrder → (State → State) → State → State × List Effect
submit env key reply meanwhile s =
    let (t, effects) =
      settle env key s reply (meanwhile (record s { pending = true; error = [] })) in
    (t, busy_change true ∷ call (import_request env s) ∷ effects)
