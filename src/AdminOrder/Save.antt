-- ===== src/AdminOrder/Save.antt =====
-- Saving a section of the order (web/src/pages/AdminOrderPage.tsx: saveChanges, saveCustomer, and
-- the buttons of the other sections). `confirmed` is what `window.confirm` answers.
use radif.Prelude.{
  ◌==◌, if◌then◌else◌, is_empty, text, text_eq, trim, decimal, Text, String, Bool, true, false, not,
  ◌&&◌, ◌||◌, none, some, List, [], ◌∷◌, ◌++◌,
}
use radif.Shared.Types.{AdminOrder, CustomerDraft}
use radif.Shared.Messages.{changes_not_saved, customer_fields_invalid}
use radif.Shared.Api.{
  Effect, call, Value, str, patch, json, Request, Settled, fulfilled, rejected, message_or,
}
use radif.Shared.Digits.{normalize_digits, normalize_iranian_mobile, is_mobile, is_postal_code}
use radif.AdminOrder.State.{
  State, Saving, nothing, status, date, tracking, customer, internal, show_order,
}

-- JavaScript's truth of an optional number.
unfoldable pub is_split : AdminOrder → Bool
is_split o = elim o.initial_payment_amount [ none ↦ false | some n ↦ not (n == 0) ]

unfoldable pub order_path : AdminOrder → Text
order_path o = text "/api/orders/" ++ decimal o.id

-- The sections of `saveChanges`, with the changes that each sends.
pub data Section : Type 0 where
  status_section : Text → Section
  date_section tracking_section : Text → Section
  customer_section : CustomerDraft → Section
  internal_section : Text → Text → Text → Section

unfoldable pub saving_of : Section → Saving
saving_of (status_section _) = status
saving_of (date_section _) = date
saving_of (tracking_section _) = tracking
saving_of (customer_section _) = customer
saving_of (internal_section _ _ _) = internal

unfoldable pub changes : Section → List (String × Value)
changes (status_section value) = ("status", str value) ∷ []
changes (date_section value) = ("estimatedDeliveryDate", str value) ∷ []
changes (tracking_section value) = ("shipmentTrackingCode", str value) ∷ []
changes (customer_section c) =
    ("customerFullName", str c.full_name)
    ∷ ("customerMobile", str c.mobile)
    ∷ ("customerAddress", str c.address)
    ∷ ("customerPostalCode", str c.postal_code)
    ∷ ("customerNote", str c.note)
    ∷ []
changes (internal_section channel reference note) =
    ("salesChannel", str channel)
    ∷ ("conversationReference", str reference)
    ∷ ("internalNote", str note)
    ∷ []

-- Whether the page asks before it ships: the order is split and its final payment not confirmed.
unfoldable pub asks_before_shipping : Section → AdminOrder → Bool
asks_before_shipping (status_section value) o =
    text_eq value (text "shipped") && is_split o && not o.final_payment_confirmed
asks_before_shipping _ o = false

unfoldable pub close_editor : Section → State → State
close_editor (customer_section _) s = record s { editing_customer = false }
close_editor (internal_section _ _ _) s = record s { editing_internal = false }
close_editor _ s = s

unfoldable pub settle_changes : Section → Settled AdminOrder → State → State
settle_changes section (fulfilled o) s = record (close_editor section (show_order o s)) {
  saving = nothing;
}
settle_changes section (rejected reason) s = record s {
  error = message_or reason changes_not_saved;
  saving = nothing;
}

unfoldable pub changes_request : AdminOrder → Section → Request
changes_request o section = record {
  method = patch;
  path = order_path o;
  body = json (changes section);
}

unfoldable pub save_changes :
    Section → Bool → Settled AdminOrder → (State → State) → State → State × List Effect
save_changes section confirmed reply meanwhile s = elim s.order [
  | none ↦ (s, [])
  | some o ↦ if asks_before_shipping section o && not confirmed then (s, []) else (
    settle_changes section reply (meanwhile (record s { saving = saving_of section; error = [] })),
    call (changes_request o section) ∷ [],
  )
]

-- The test of `saveCustomer`, and the customer as it is sent.
unfoldable pub customer_invalid : CustomerDraft → Bool
customer_invalid c =
    let postal = normalize_digits c.postal_code in
    is_empty (trim c.full_name)
    || is_empty (trim c.address)
    || not (is_mobile (normalize_iranian_mobile c.mobile))
    || (not (is_empty postal) && not (is_postal_code postal))

unfoldable pub sent_customer : CustomerDraft → CustomerDraft
sent_customer c = record c {
  mobile = normalize_iranian_mobile c.mobile;
  postal_code = normalize_digits c.postal_code;
}

unfoldable pub save_customer : Settled AdminOrder → (State → State) → State → State × List Effect
save_customer reply meanwhile s =
    if customer_invalid s.customer
    then (record s { error = customer_fields_invalid }, [])
    else save_changes (customer_section (sent_customer s.customer)) false reply meanwhile s

-- When the buttons of the other sections are disabled.
unfoldable pub is_saving : Saving → Bool
is_saving nothing = false
is_saving _ = true

unfoldable pub status_disabled : State → AdminOrder → Bool
status_disabled s o = is_saving s.saving || text_eq s.status o.status

unfoldable pub date_disabled : State → AdminOrder → Bool
date_disabled s o =
    is_saving s.saving || is_empty s.date || text_eq s.date o.estimated_delivery_date

unfoldable pub tracking_disabled : State → AdminOrder → Bool
tracking_disabled s o = is_saving s.saving || text_eq s.tracking o.shipment_tracking_code

-- The options of the status that cannot be chosen.
unfoldable pub option_disabled : Text → AdminOrder → Bool
option_disabled value o =
    (text_eq value (text "waiting_info") && o.customer_submitted)
    || (text_eq value (text "waiting_payment") && not o.receipt_uploaded)
