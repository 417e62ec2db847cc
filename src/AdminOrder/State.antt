-- ===== src/AdminOrder/State.antt =====
-- The state of the page (web/src/pages/AdminOrderPage.tsx), and how it follows the server's order.
use radif.Prelude.{if◌then◌else◌, Text, Bool, true, false, Option, none, some, []}
use radif.Shared.Types.{AdminOrder, CustomerDraft, SalesChannel, instagram}
use radif.Shared.Messages.{order_not_loaded}
use radif.Shared.Api.{Settled, fulfilled, rejected, Thrown, abort_error, message_or}
use radif.Shared.Storage.{empty_customer_draft}

-- What is being saved; `nothing` is the empty text of the source.
pub data Saving : Type 0 where
  nothing status date tracking customer internal link request_final confirm_final : Saving

pub data CopyState : Type 0 where
  idle copied shared failed : CopyState

pub record State : Type 0 where
  pub order : Option AdminOrder
  pub date : Text
  pub status : Text
  pub tracking : Text
  pub customer : CustomerDraft
  pub sales_channel : SalesChannel
  pub conversation_reference : Text
  pub internal_note : Text
  pub editing_customer : Bool
  pub editing_internal : Bool
  pub link_rotated : Bool
  pub loading : Bool
  pub saving : Saving
  pub final_copy_state : CopyState
  pub message_state : CopyState
  pub error : Text

unfoldable pub init : State
init = record {
  order = none;
  date = [];
  status = [];
  tracking = [];
  customer = empty_customer_draft;
  sales_channel = instagram;
  conversation_reference = [];
  internal_note = [];
  editing_customer = false;
  editing_internal = false;
  link_rotated = false;
  loading = true;
  saving = nothing;
  final_copy_state = idle;
  message_state = idle;
  error = [];
}

unfoldable pub customer_of : AdminOrder → CustomerDraft
customer_of o = record {
  full_name = o.customer_full_name;
  mobile = o.customer_mobile;
  address = o.customer_address;
  postal_code = o.customer_postal_code;
  note = o.customer_note;
}

-- The order that the server sends, and every field of the forms after it.
unfoldable pub show_order : AdminOrder → State → State
show_order o s = record s {
  order = some o;
  date = o.estimated_delivery_date;
  status = o.status;
  tracking = o.shipment_tracking_code;
  customer = customer_of o;
  sales_channel = o.sales_channel;
  conversation_reference = o.conversation_reference;
  internal_note = o.internal_note;
}

-- The effect that fetches the order, up to its call and from its answer on. `aborted` tells
-- whether a newer run of the effect has aborted this one.
unfoldable pub load : State → State
load s = record s {
  loading = true;
  order = none;
  error = [];
  link_rotated = false;
  final_copy_state = idle;
  message_state = idle;
}

unfoldable pub set_load_error : Thrown → State → State
set_load_error (abort_error _) s = s
set_load_error reason s = record s { error = message_or reason order_not_loaded }

unfoldable pub loaded : Settled AdminOrder → Bool → State → State
unfolding set_load_error show_order
loaded (fulfilled o) aborted s =
    let t = show_order o s in record t { loading = if aborted then t.loading else false }
loaded (rejected reason) aborted s =
    let t = set_load_error reason s in record t { loading = if aborted then t.loading else false }

unfoldable pub cancel_customer_edit : State → State
unfolding customer_of
cancel_customer_edit s = elim s.order [
  | none ↦ s
  | some o ↦ record s { customer = customer_of o; editing_customer = false }
]

unfoldable pub cancel_internal_edit : State → State
cancel_internal_edit s = elim s.order [
  | none ↦ record s {
    sales_channel = instagram;
    conversation_reference = [];
    internal_note = [];
    editing_internal = false;
  }
  | some o ↦ record s {
    sales_channel = o.sales_channel;
    conversation_reference = o.conversation_reference;
    internal_note = o.internal_note;
    editing_internal = false;
  }
]
