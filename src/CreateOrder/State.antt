-- ===== src/CreateOrder/State.antt =====
-- The state of the page (web/src/pages/CreateOrderPage.tsx) and the fields' handlers.
use radif.Prelude.{
  ltb, if◌then◌else◌, decimal, number, Text, ℕ, ◌+◌, ◌/◌, Bool, true, false, Option, none, some,
  List, [], ◌∷◌,
}
use radif.Shared.Types.{Product, CreatedOrder, SalesChannel}
use radif.Shared.Digits.{normalize_digits}
use radif.Components.ProductChoices.{SelectedOrderItem, items_total}

pub data CopyState : Type 0 where
  idle copying copied shared failed : CopyState

pub record State : Type 0 where
  pub products : List Product
  pub loading : Bool
  pub load_error : Text
  pub items : List SelectedOrderItem
  pub amount : Text
  pub amount_focused : Bool
  pub split_payment : Bool
  pub initial_payment_amount : Text
  pub initial_payment_focused : Bool
  pub delivery_date : Text
  pub work_days : ℕ
  pub sales_channel : SalesChannel
  pub conversation_reference : Text
  pub note : Text
  pub pending : Bool
  pub error : Text
  pub amount_error : Text
  pub initial_payment_error : Text
  pub delivery_date_error : Text
  pub created : Option CreatedOrder
  pub editing_delivery_date : Bool
  pub updated_delivery_date : Text
  pub delivery_update_pending : Bool
  pub delivery_update_error : Text
  pub copy_state : CopyState
  pub link_copy_state : CopyState
  pub started_at : ℕ
  pub create_key : Text

-- `newCreateKey`: what the session's storage holds for the shop, and a fresh identifier. The key,
-- and whether it has to be stored.
unfoldable pub new_create_key : Option Text → Text → Text × Bool
new_create_key none fresh = (fresh, true)
new_create_key (some []) fresh = (fresh, true)
new_create_key (some (c ∷ existing)) fresh = (c ∷ existing, false)

-- `halfAmount` of a safe integer. From 2 ^ 53 on, where the source rounds, and writes what is left with an
-- exponent from 10 ^ 21 on, this is the exact half; see `IsSafe` in Invariant.
unfoldable pub half_amount : ℕ → Text
half_amount amount = if ltb 1 amount then decimal ((amount + 1) / 2) else []

unfoldable pub init : SalesChannel → Text → ℕ → State
init channel key now = record {
  products = [];
  loading = true;
  load_error = [];
  items = [];
  amount = [];
  amount_focused = false;
  split_payment = false;
  initial_payment_amount = [];
  initial_payment_focused = false;
  delivery_date = [];
  work_days = 0;
  sales_channel = channel;
  conversation_reference = [];
  note = [];
  pending = false;
  error = [];
  amount_error = [];
  initial_payment_error = [];
  delivery_date_error = [];
  created = none;
  editing_delivery_date = false;
  updated_delivery_date = [];
  delivery_update_pending = false;
  delivery_update_error = [];
  copy_state = idle;
  link_copy_state = idle;
  started_at = now;
  create_key = key;
}

unfoldable pub update_items : List SelectedOrderItem → State → State
update_items next s = record s {
  items = next;
  amount = decimal (items_total next);
  initial_payment_amount =
      if s.split_payment then half_amount (items_total next) else s.initial_payment_amount;
  amount_error = [];
  initial_payment_error = [];
  error = [];
}

-- The fields of the form.
unfoldable pub type_amount : Text → State → State
type_amount typed s =
    let value = normalize_digits typed in
    record s {
      amount = value;
      initial_payment_amount =
          if s.split_payment then half_amount (number value) else s.initial_payment_amount;
    }

unfoldable pub check_split : Bool → State → State
check_split checked s = record s {
  split_payment = checked;
  initial_payment_error = [];
  initial_payment_amount =
      if checked then half_amount (number s.amount) else s.initial_payment_amount;
}

unfoldable pub type_initial : Text → State → State
type_initial typed s = record s {
  initial_payment_amount = normalize_digits typed;
  initial_payment_error = [];
}

-- `promised` is `addWorkingDays(todayISO(), count)`.
unfoldable pub pick_work_days : ℕ → Text → State → State
pick_work_days count promised s = record s {
  work_days = count;
  delivery_date = promised;
  delivery_date_error = [];
}

unfoldable pub pick_date : Text → State → State
pick_date value s = record s { delivery_date = value; work_days = 0; delivery_date_error = [] }

-- `reset`, with a fresh key and the clock.
unfoldable pub reset : Text → ℕ → State → State
reset key now s = record s {
  items = [];
  amount = [];
  split_payment = false;
  initial_payment_amount = [];
  delivery_date = [];
  work_days = 0;
  conversation_reference = [];
  note = [];
  created = none;
  error = [];
  amount_error = [];
  initial_payment_error = [];
  delivery_date_error = [];
  editing_delivery_date = false;
  delivery_update_error = [];
  copy_state = idle;
  link_copy_state = idle;
  create_key = key;
  started_at = now;
}
