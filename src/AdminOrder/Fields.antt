-- ===== src/AdminOrder/Fields.antt =====
-- The handlers of the plain fields of an order's page (web/src/pages/AdminOrderPage.tsx).
use radif.Prelude.{Text, true}
use radif.Shared.Types.{SalesChannel}
use radif.AdminOrder.State.{State, cancel_customer_edit, cancel_internal_edit}

pub data Edit : Type 0 where
  pick_status pick_date type_tracking : Text → Edit
  open_customer close_customer : Edit
  type_name type_mobile type_address type_postal_code type_customer_note : Text → Edit
  open_internal close_internal : Edit
  pick_channel : SalesChannel → Edit
  type_reference type_note : Text → Edit

unfoldable pub edit : Edit → State → State
edit (pick_status value) s = record s { status = value }
edit (pick_date value) s = record s { date = value }
edit (type_tracking typed) s = record s { tracking = typed }
edit open_customer s = record s { editing_customer = true }
edit close_customer s = cancel_customer_edit s
edit (type_name typed) s = record s { customer = record s.customer { full_name = typed } }
edit (type_mobile typed) s = record s { customer = record s.customer { mobile = typed } }
edit (type_address typed) s = record s { customer = record s.customer { address = typed } }
edit (type_postal_code typed) s = record s { customer = record s.customer { postal_code = typed } }
edit (type_customer_note typed) s = record s { customer = record s.customer { note = typed } }
edit open_internal s = record s { editing_internal = true }
edit close_internal s = cancel_internal_edit s
edit (pick_channel channel) s = record s { sales_channel = channel }
edit (type_reference typed) s = record s { conversation_reference = typed }
edit (type_note typed) s = record s { internal_note = typed }
