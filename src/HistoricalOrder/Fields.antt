-- ===== src/HistoricalOrder/Fields.antt =====
-- The products of the form, and the handlers of its plain fields
-- (web/src/pages/HistoricalOrderPage.tsx).
use radif.Prelude.{text, decimal, Text, ℕ, Bool, true, false, ◌||◌, List, [], ◌++◌}
use radif.Shared.Types.{Product, SalesChannel}
use radif.Shared.Messages.{products_not_loaded}
use radif.Shared.Api.{get, empty, Request, Settled, fulfilled, rejected, message_or}
use radif.Shared.Digits.{normalize_digits}
use radif.Components.ReceiptPicker.{Told, change, busy}
use radif.HistoricalOrder.State.{State}

-- `loadProducts`, up to its call and from its answer on.
unfoldable pub load_products : State → State
load_products s = record s { loading = true; load_error = [] }

unfoldable pub products_request : ℕ → Request
products_request shop_id = record {
  method = get;
  path = text "/api/shops/" ++ decimal shop_id ++ text "/products";
  body = empty;
}

unfoldable pub products_loaded : Settled (List Product) → State → State
products_loaded (fulfilled products) s = record s { products = products; loading = false }
products_loaded (rejected reason) s = record s {
  load_error = message_or reason products_not_loaded;
  loading = false;
}

-- The fields of the form, which is drawn while nothing is reviewed.
pub data Edit : Type 0 where
  type_amount : Text → Edit
  focus_amount : Bool → Edit
  pick_date : Text → Edit
  type_name type_mobile type_address type_postal_code : Text → Edit
  pick_status : Text → Edit
  pick_channel : SalesChannel → Edit
  type_reference type_note : Text → Edit

unfoldable pub edit : Edit → State → State
edit (type_amount typed) s = record s { amount = normalize_digits typed }
edit (focus_amount focused) s = record s { amount_focused = focused }
edit (pick_date date) s = record s { delivery_date = date }
edit (type_name typed) s = record s { customer = record s.customer { full_name = typed } }
edit (type_mobile typed) s = record s { customer = record s.customer { mobile = typed } }
edit (type_address typed) s = record s { customer = record s.customer { address = typed } }
edit (type_postal_code typed) s = record s { customer = record s.customer { postal_code = typed } }
edit (pick_status value) s = record s { status = value }
edit (pick_channel channel) s = record s { sales_channel = channel }
edit (type_reference typed) s = record s { conversation_reference = typed }
edit (type_note typed) s = record s { note = typed }

-- `setReceipt` and `setReceiptBusy`, as the picker of the receipt calls them.
unfoldable pub hear : Told → State → State
hear (change receipt) s = record s { receipt = receipt }
hear (busy now) s = record s { receipt_busy = now }

-- The buttons of the review: back to the form, and the sending of the order.
unfoldable pub back : State → State
back s = record s { reviewing = false }

unfoldable pub submit_disabled : State → Bool
submit_disabled s = s.pending || s.receipt_busy

unfoldable pub begin : State → State
begin s = record s { pending = true; error = [] }
