-- ===== src/CreateOrder/Submit.antt =====
-- The calls of the page: creating the order, changing its date, and the messages for the customer
-- (web/src/pages/CreateOrderPage.tsx). A handler that awaits the server is given how the call
-- settles, and `meanwhile`, what other events make of the state before that.
use radif.Prelude.{
  leb, ◌==◌, if◌then◌else◌, is_empty, text, text_lt, decimal, number, Text, ℕ, String, Bool, true,
  false, not, ◌&&◌, ◌||◌, Option, none, some, List, [], ◌∷◌, ◌++◌,
}
use radif.Shared.Types.{CreatedOrder}
use radif.Shared.Messages.{
  amount_not_positive, initial_payment_out_of_range, delivery_date_in_past, order_not_created,
  delivery_date_not_changed,
}
use radif.Shared.Api.{
  Effect, call, beacon, busy_change, remove_session, store_local, copy_text, share_text, Value, str,
  num, items, post, patch, json, Request, Settled, fulfilled, rejected, abort_error, Thrown,
  message_or, pilot_failure_reason, PilotFailureReason, client_validation, reason_text, SignalReply,
  send_pilot_event,
}
use radif.Shared.Storage.{channel_text}
use radif.Shared.Share.{Formats, order_share_message}
use radif.Components.ProductChoices.{request_items}
use radif.CreateOrder.State.{State, copied, shared, failed}

-- What the page is given: of its shop the id, the name and the template, and the browser's formats.
pub record Page : Type 0 where
  pub shop_id : ℕ
  pub shop_name : Text
  pub template : Option Text
  pub formats : Formats

-- What the browser gives to one call. `write_text` is `none` where the clipboard is missing, and
-- else tells whether it takes the text; `reserved` is the same for the copy that is reserved
-- before the order exists.
pub record Env : Type 0 where
  pub today : Text
  pub event_key : Text
  pub elapsed : ℕ
  pub write_text : Option Bool
  pub reserved : Option Bool
  pub copy_recorded : Settled (Unit {0})
  pub signal : SignalReply

-- `Number.isSafeInteger`, of a number that is whole and not negative
abbrev pub is_safe : ℕ → Bool
is_safe n = leb n 9007199254740991

unfoldable pub pilot_path : Page → Text
pilot_path page = text "/api/shops/" ++ decimal page.shop_id ++ text "/pilot-events"

unfoldable pub record_failure : Page → Env → State → PilotFailureReason → List Effect
unfolding pilot_path send_pilot_event
record_failure page env s reason =
    send_pilot_event (pilot_path page)
      (("eventName", str (text "order_create_failed"))
        ∷ ("createKey", str s.create_key)
        ∷ ("eventKey", str env.event_key)
        ∷ ("reason", str (reason_text reason))
        ∷ ("source", str (text "normal"))
        ∷ [])
      env.signal

pub data Way : Type 0 where
  clipboard native_share : Way

unfoldable pub way_text : Way → Text
way_text clipboard = text "clipboard"
way_text native_share = text "native_share"

-- `recordCopy`: a call, and a beacon where it fails.
unfoldable pub record_copy : Env → CreatedOrder → Way → List Effect
record_copy env order way =
    let path = text "/api/orders/" ++ decimal order.id ++ text "/link-copied" in
    let body =
      ("method", str (way_text way))
      ∷ ("source", str (text "create"))
      ∷ ("eventKey", str env.event_key)
      ∷ [] in
    call (record { method = post; path = path; body = json body })
    ∷ elim env.copy_recorded [ fulfilled _ ↦ [] | rejected _ ↦ beacon path body ∷ [] ]

-- The message for an order: the amount is the form's, as it was when the handler was made.
unfoldable pub share_message : Page → State → CreatedOrder → Text
share_message page s order =
    order_share_message page.formats page.shop_name page.template order.order_code
      order.customer_url order.estimated_delivery_date (number s.amount)

-- `copyMessage`; `made` is the state of the render that made the handler.
unfoldable pub copy_message : Page → Env → State → CreatedOrder → Bool → State → State × List Effect
unfolding share_message record_copy
copy_message page env made order show s = elim env.write_text [
  | some true ↦ (
    record s { copy_state = if show then copied else s.copy_state },
    copy_text (share_message page made order) ∷ record_copy env order clipboard,
  )
  | some false ↦ (record s { copy_state = failed }, [])
  | none ↦ (record s { copy_state = failed }, [])
]

unfoldable pub copy_customer_link : Env → CreatedOrder → State → State × List Effect
unfolding record_copy
copy_customer_link env order s = elim env.write_text [
  | some true ↦ (
    record s { link_copy_state = copied },
    copy_text order.customer_url ∷ record_copy env order clipboard,
  )
  | some false ↦ (record s { link_copy_state = failed }, [])
  | none ↦ (record s { link_copy_state = failed }, [])
]

-- `shareOrder`: `none` is a browser that cannot share.
unfoldable pub share_order :
    Page → Env → State → CreatedOrder → Option (Settled (Unit {0})) → State → State × List Effect
unfolding copy_message
share_order page env made order none s = copy_message page env made order true s
share_order page env made order (some (fulfilled _)) s = (
  record s { copy_state = shared },
  share_text (share_message page made order) ∷ record_copy env order native_share,
)
share_order page env made order (some (rejected (abort_error _))) s = (s, [])
share_order page env made order (some (rejected _)) s = copy_message page env made order true s

-- The guards of `submit`, in their order.
pub data Problem : Type 0 where
  bad_amount bad_initial_payment bad_date : Problem

unfoldable pub problem : Text → State → Option Problem
problem today s =
    let amount = number s.amount in
    let initial = number s.initial_payment_amount in
    if is_empty s.items || not (is_safe amount) || amount == 0
    then some bad_amount
    else if s.split_payment && (not (is_safe initial) || initial == 0 || leb amount initial)
    then some bad_initial_payment
    else if is_empty s.delivery_date || text_lt s.delivery_date today
    then some bad_date
    else none

unfoldable pub set_problem : Problem → State → State
set_problem bad_amount s = record s { amount_error = amount_not_positive }
set_problem bad_initial_payment s = record s {
  initial_payment_error = initial_payment_out_of_range;
}
set_problem bad_date s = record s { delivery_date_error = delivery_date_in_past }

-- The body of the request that creates the order.
unfoldable pub order_fields : Page → Env → State → List (String × Value)
order_fields page env s =
    ("createKey", str s.create_key)
    ∷ ("shopId", num page.shop_id)
    ∷ ("items", items (request_items s.items))
    ∷ ("amount", num (number s.amount))
    ∷ ((if s.split_payment
          then ("initialPaymentAmount", num (number s.initial_payment_amount)) ∷ []
          else [])
        ++ ("estimatedDeliveryDate", str s.delivery_date)
          ∷ ("salesChannel", str (channel_text s.sales_channel))
          ∷ ("conversationReference", str s.conversation_reference)
          ∷ ("internalNote", str s.note)
          ∷ ("elapsedMs", num env.elapsed)
          ∷ [])

unfoldable pub create_request : Page → Env → State → Request
create_request page env s = record {
  method = post;
  path = text "/api/orders";
  body = json (order_fields page env s);
}

-- The copy of the message after the order is made: the reserved one, or else a plain one.
unfoldable pub copy_created : Page → Env → State → CreatedOrder → State → State × List Effect
unfolding copy_message
copy_created page env made order s = elim env.reserved [
  | some true ↦ (s, copy_text (share_message page made order) ∷ record_copy env order clipboard)
  | some false ↦ copy_message page env made order false s
  | none ↦ copy_message page env made order false s
]

unfoldable pub create_key_slot : Page → Text
create_key_slot page = text "radif_create_key_" ++ decimal page.shop_id

-- The server's order, as soon as it comes: `made` is the state of the render that made the handler, `s`
-- the state when the answer comes. The form stays pending while the message is copied.
unfoldable pub show_created : Page → State → CreatedOrder → State → State × List Effect
show_created page made order s = (
  record s { created = some order },
  remove_session (create_key_slot page)
      ∷ store_local (text "radif_sales_channel") (channel_text made.sales_channel)
      ∷ [],
)

-- The end of the copy, and `finally`.
unfoldable pub end_submit : Page → Env → State → CreatedOrder → State → State × List Effect
end_submit page env made order s =
    let (t, effects) = copy_created page env made order s in
    (record t { pending = false }, effects ++ busy_change false ∷ [])

-- A failed call, and `finally`.
unfoldable pub fail_submit : Page → Env → State → Thrown → State → State × List Effect
fail_submit page env made reason s = (
  record s { error = message_or reason order_not_created; pending = false },
  record_failure page env made (pilot_failure_reason reason) ++ busy_change false ∷ [],
)

-- From the answer on, where no other event comes between the order and the end of the copy.
unfoldable pub settle : Page → Env → State → Settled CreatedOrder → State → State × List Effect
settle page env made (fulfilled order) s =
    let (shown, first) = show_created page made order s in
    let (t, effects) = end_submit page env made order shown in (t, first ++ effects)
settle page env made (rejected reason) s = fail_submit page env made reason s

unfoldable pub begin : State → State
begin s = record s {
  amount_error = [];
  initial_payment_error = [];
  delivery_date_error = [];
  pending = true;
  error = [];
}

unfoldable pub submit :
    Page → Env → Settled CreatedOrder → (State → State) → State → State × List Effect
submit page env reply meanwhile s = elim (problem env.today s) [
  | some p ↦ (set_problem p s, record_failure page env s client_validation)
  | none ↦
      let (t, effects) = settle page env s reply (meanwhile (begin s)) in
      (t, busy_change true ∷ call (create_request page env s) ∷ effects)
]

-- `saveDeliveryDate`: the answer holds the new date.
unfoldable pub settle_date : CreatedOrder → Settled Text → State → State
settle_date order (fulfilled date) s = record s {
  created = some (record order { estimated_delivery_date = date });
  editing_delivery_date = false;
  delivery_update_pending = false;
}
settle_date order (rejected reason) s = record s {
  delivery_update_error = message_or reason delivery_date_not_changed;
  delivery_update_pending = false;
}

unfoldable pub save_delivery_date :
    Text → Settled Text → (State → State) → State → State × List Effect
unfolding settle_date
save_delivery_date today reply meanwhile s = elim s.created [
  | none ↦ (record s { delivery_update_error = delivery_date_in_past }, [])
  | some order ↦
      if is_empty s.updated_delivery_date || text_lt s.updated_delivery_date today
      then (record s { delivery_update_error = delivery_date_in_past }, [])
      else (
        settle_date order reply
            (meanwhile (record s { delivery_update_pending = true; delivery_update_error = [] })),
        call (record {
          method = patch;
          path = text "/api/orders/" ++ decimal order.id;
          body = json (("estimatedDeliveryDate", str s.updated_delivery_date) ∷ []);
        })
            ∷ [],
      )
]
