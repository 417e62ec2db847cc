-- ===== src/PublicOrder/State.antt =====
-- The state of the page (web/src/pages/PublicOrderPage.tsx), its effects and the customer's draft.
use radif.Prelude.{if◌then◌else◌, Text, Bool, true, false, Option, none, some, []}
use radif.Shared.Types.{PublicOrder, CustomerDraft}
use radif.Shared.Messages.{order_not_loaded}
use radif.Shared.Api.{File, Settled, fulfilled, rejected, Thrown, abort_error, message_or}

pub data CopyState : Type 0 where
  idle copied failed : CopyState

pub data DraftField : Type 0 where
  full_name mobile address postal_code note : DraftField

-- The messages beside the fields; `none` is a field without one.
pub record FieldErrors : Type 0 where
  pub full_name : Option Text
  pub mobile : Option Text
  pub address : Option Text
  pub postal_code : Option Text
  pub note : Option Text

abbrev pub no_errors : FieldErrors
no_errors = record {
  full_name = none;
  mobile = none;
  address = none;
  postal_code = none;
  note = none;
}

pub record State : Type 0 where
  pub order : Option PublicOrder
  pub loading : Bool
  pub error : Text
  pub draft : CustomerDraft
  pub field_errors : FieldErrors
  pub receipt : Option File
  pub receipt_error : Text
  pub final_receipt : Option File
  pub final_receipt_error : Text
  pub final_error : Text
  pub pending : Bool
  pub final_pending : Bool
  pub copy_state : CopyState
  pub iban_copy_state : CopyState
  pub amount_copy_state : CopyState
  pub form_started : Bool

-- `draft` is `readCustomerDraft(token)`.
unfoldable pub init : CustomerDraft → State
init draft = record {
  order = none;
  loading = true;
  error = [];
  draft = draft;
  field_errors = no_errors;
  receipt = none;
  receipt_error = [];
  final_receipt = none;
  final_receipt_error = [];
  final_error = [];
  pending = false;
  final_pending = false;
  copy_state = idle;
  iban_copy_state = idle;
  amount_copy_state = idle;
  form_started = false;
}

-- The effect that fetches the order, up to its call and from its answer on. `aborted` tells
-- whether a newer run of the effect has aborted this one.
unfoldable pub load : State → State
load s = record s { form_started = false; loading = true; error = []; order = none }

unfoldable pub set_load_error : Thrown → State → State
set_load_error (abort_error _) s = s
set_load_error reason s = record s { error = message_or reason order_not_loaded }

unfoldable pub loaded : Settled PublicOrder → Bool → State → State
unfolding set_load_error
loaded (fulfilled order) aborted s = record s {
  order = some order;
  loading = if aborted then s.loading else false;
}
loaded (rejected reason) aborted s =
    let t = set_load_error reason s in record t { loading = if aborted then t.loading else false }

-- The effect of another token.
unfoldable pub change_token : CustomerDraft → State → State
change_token draft s = record s {
  draft = draft;
  field_errors = no_errors;
  receipt = none;
  receipt_error = [];
  final_receipt = none;
  final_receipt_error = [];
  final_error = [];
}

-- `updateDraft`
unfoldable pub update_draft : DraftField → Text → State → State
update_draft full_name value s = record s {
  draft = record s.draft { full_name = value };
  field_errors = record s.field_errors { full_name = none };
}
update_draft mobile value s = record s {
  draft = record s.draft { mobile = value };
  field_errors = record s.field_errors { mobile = none };
}
update_draft address value s = record s {
  draft = record s.draft { address = value };
  field_errors = record s.field_errors { address = none };
}
update_draft postal_code value s = record s {
  draft = record s.draft { postal_code = value };
  field_errors = record s.field_errors { postal_code = none };
}
update_draft note value s = record s {
  draft = record s.draft { note = value };
  field_errors = record s.field_errors { note = none };
}

-- The draft that the page stores after a change: none before the order is there, and none once
-- the customer has submitted.
unfoldable pub stored_draft : State → Option CustomerDraft
stored_draft s = elim s.order [
  | none ↦ none
  | some order ↦ if order.customer_submitted then none else some s.draft
]

-- The pickers of the two receipts.
unfoldable pub pick_receipt : Option File → State → State
pick_receipt file s = record s { receipt = file; receipt_error = [] }

unfoldable pub pick_final_receipt : Option File → State → State
pick_final_receipt file s = record s { final_receipt = file; final_receipt_error = [] }
