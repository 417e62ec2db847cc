-- ===== src/HistoricalOrder/State.antt =====
-- The state of the page (web/src/pages/HistoricalOrderPage.tsx) and its handlers without a call.
use radif.Prelude.{
  leb, ◌==◌, if◌then◌else◌, present, is_empty, text, text_eq, trim, decimal, number, Text, ℕ, Bool,
  true, false, not, ◌&&◌, ◌||◌, Option, none, some, List, [], ◌∷◌, ◌++◌,
}
use radif.Shared.Types.{Product, CreatedOrder, SalesChannel}
use radif.Shared.Messages.{
  receipt_busy_notice, status_needs_receipt, items_or_amount_invalid, delivery_date_missing,
  customer_of_order_invalid,
}
use radif.Shared.Api.{
  Effect, scroll_top, File, str, PilotFailureReason, client_validation, reason_text, SignalReply,
  send_pilot_event,
}
use radif.Shared.Digits.{normalize_digits, normalize_iranian_mobile, is_mobile, is_postal_code}
use radif.Components.ProductChoices.{SelectedOrderItem, items_total}

pub record Customer : Type 0 where
  pub full_name : Text
  pub mobile : Text
  pub address : Text
  pub postal_code : Text

unfoldable pub empty_customer : Customer
empty_customer = record { full_name = []; mobile = []; address = []; postal_code = [] }

pub record State : Type 0 where
  pub products : List Product
  pub loading : Bool
  pub load_error : Text
  pub items : List SelectedOrderItem
  pub amount : Text
  pub amount_focused : Bool
  pub delivery_date : Text
  pub customer : Customer
  pub receipt : Option File
  pub receipt_busy : Bool
  pub status : Text
  pub sales_channel : SalesChannel
  pub conversation_reference : Text
  pub note : Text
  pub create_key : Text
  pub reviewing : Bool
  pub pending : Bool
  pub error : Text
  pub created : Option CreatedOrder
  pub started_key : Text

-- `newHistoricalCreateKey`: what the session's storage holds for the shop, and a fresh identifier.
-- The key, and whether it has to be stored.
unfoldable pub new_historical_create_key : Option Text → Text → Text × Bool
new_historical_create_key none fresh = (fresh, true)
new_historical_create_key (some []) fresh = (fresh, true)
new_historical_create_key (some (c ∷ existing)) fresh = (c ∷ existing, false)

unfoldable pub init : SalesChannel → Text → State
init channel key = record {
  products = [];
  loading = true;
  load_error = [];
  items = [];
  amount = [];
  amount_focused = false;
  delivery_date = [];
  customer = empty_customer;
  receipt = none;
  receipt_busy = false;
  status = text "preparing";
  sales_channel = channel;
  conversation_reference = [];
  note = [];
  create_key = key;
  reviewing = false;
  pending = false;
  error = [];
  created = none;
  started_key = [];
}

pub record Env : Type 0 where
  pub shop_id : ℕ
  pub event_key : Text
  pub signal : SignalReply

unfoldable pub pilot_path : Env → Text
pilot_path env = text "/api/shops/" ++ decimal env.shop_id ++ text "/pilot-events"

unfoldable pub started_event : Env → State → List Effect
started_event env s =
    send_pilot_event (pilot_path env)
      (("eventName", str (text "order_create_started"))
        ∷ ("createKey", str s.create_key)
        ∷ ("source", str (text "historical"))
        ∷ [])
      env.signal

unfoldable pub failure_event : Env → State → PilotFailureReason → List Effect
failure_event env s reason =
    send_pilot_event (pilot_path env)
      (("eventName", str (text "order_create_failed"))
        ∷ ("createKey", str s.create_key)
        ∷ ("eventKey", str env.event_key)
        ∷ ("reason", str (reason_text reason))
        ∷ ("source", str (text "historical"))
        ∷ [])
      env.signal

-- `updateItems`: the first product that is chosen under a key sends the signal of a start.
unfoldable pub update_items : Env → List SelectedOrderItem → State → State × List Effect
update_items env chosen s =
    let t = record s { items = chosen; amount = decimal (items_total chosen); error = [] } in
    if not (is_empty chosen) && not (text_eq s.started_key s.create_key)
    then (record t { started_key = s.create_key }, started_event env s)
    else (t, [])

-- The guards of `openReview`, in their order.
pub data Problem : Type 0 where
  receipt_busy receipt_needed bad_amount no_date bad_customer : Problem

unfoldable pub customer_invalid : Customer → Bool
customer_invalid c =
    let postal = normalize_digits c.postal_code in
    is_empty (trim c.full_name)
    || is_empty (trim c.address)
    || not (is_mobile (normalize_iranian_mobile c.mobile))
    || (not (is_empty postal) && not (is_postal_code postal))

unfoldable pub problem : State → Option Problem
problem s =
    let amount = number s.amount in
    if s.receipt_busy
    then some Problem.receipt_busy
    else if text_eq s.status (text "waiting_payment") && not (present s.receipt)
    then some receipt_needed
    else if is_empty s.items || not (leb amount 9007199254740991) || amount == 0
    then some bad_amount
    else if is_empty s.delivery_date
    then some no_date
    else if customer_invalid s.customer
    then some bad_customer
    else none

unfoldable pub problem_text : Problem → Text
problem_text Problem.receipt_busy = receipt_busy_notice
problem_text receipt_needed = status_needs_receipt
problem_text bad_amount = items_or_amount_invalid
problem_text no_date = delivery_date_missing
problem_text bad_customer = customer_of_order_invalid

unfoldable pub open_review : Env → State → State × List Effect
open_review env s = elim (problem s) [
  | some p ↦ (record s { error = problem_text p }, failure_event env s client_validation)
  | none ↦ (
    record s {
      customer = record s.customer {
        mobile = normalize_iranian_mobile s.customer.mobile;
        postal_code = normalize_digits s.customer.postal_code;
      };
      error = [];
      reviewing = true;
    },
    scroll_top ∷ [],
  )
]

-- `reset`, with a fresh key
unfoldable pub reset : Text → State → State
reset key s = record s {
  items = [];
  amount = [];
  delivery_date = [];
  customer = empty_customer;
  receipt = none;
  status = text "preparing";
  conversation_reference = [];
  note = [];
  create_key = key;
}

unfoldable pub import_statuses : List Text
import_statuses =
    text "waiting_payment" ∷ text "paid" ∷ text "preparing" ∷ text "shipped" ∷ text "cancelled" ∷ []
