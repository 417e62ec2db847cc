-- ===== src/PublicOrder/Submit.antt =====
-- The two submissions of the customer, and the support link (web/src/pages/PublicOrderPage.tsx).
use radif.Prelude.{
  if◌then◌else◌, present, or_else, is_empty, text, trim, Text, String, Bool, true, false, not, ◌&&◌,
  ◌||◌, Option, none, some, List, [], ◌∷◌, ◌++◌,
}
use radif.Shared.Types.{PublicOrder, CustomerDraft, Support, SupportChannel, instagram, whatsapp}
use radif.Shared.Messages.{
  name_missing, mobile_invalid, address_missing, postal_code_invalid, receipt_missing,
  details_not_saved, final_receipt_missing, final_receipt_not_saved,
}
use radif.Shared.Api.{
  Effect, call, beacon, remove_local, copy_text, Body, Value, str, file, post, form, Request, File,
  Settled, fulfilled, rejected, message_or, PilotFailureReason, client_validation,
  pilot_failure_reason, reason_text, SignalReply, send_pilot_event,
}
use radif.Shared.Digits.{normalize_digits, normalize_iranian_mobile, is_mobile, is_postal_code}
use radif.PublicOrder.State.{State, FieldErrors}

-- The token of the link, as `encodeURIComponent` writes it in paths and plain as in storage keys.
pub record Link : Type 0 where
  pub token : Text
  pub encoded : Text

pub record Env : Type 0 where
  pub event_key : Text
  pub signal : SignalReply

unfoldable pub order_path : Link → Text
order_path link = text "/api/o/" ++ link.encoded

unfoldable pub draft_slot : Link → Text
draft_slot link = text "radif_customer_draft_" ++ link.token

unfoldable pub form_event : Link → Env → Text → List (String × Value) → List Effect
form_event link env name extra =
    send_pilot_event (order_path link ++ text "/pilot-events") (("eventName", str name) ∷ extra)
      env.signal

unfoldable pub record_failure : Link → Env → PilotFailureReason → List Effect
record_failure link env reason =
    form_event link env (text "customer_submission_failed")
      (("eventKey", str env.event_key) ∷ ("reason", str (reason_text reason)) ∷ [])

-- `startForm`: the event is sent once.
unfoldable pub start_form : Link → Env → State → State × List Effect
start_form link env s =
    if s.form_started
    then (s, [])
    else (record s { form_started = true }, form_event link env (text "customer_form_started") [])

-- The checks of `submitDetails`.
unfoldable pub when : Bool → Text → Option Text
when true message = some message
when false message = none

unfoldable pub details_errors : CustomerDraft → FieldErrors
details_errors d =
    let postal = normalize_digits d.postal_code in
    record {
      full_name = when (is_empty (trim d.full_name)) name_missing;
      mobile = when (not (is_mobile (normalize_iranian_mobile d.mobile))) mobile_invalid;
      address = when (is_empty (trim d.address)) address_missing;
      postal_code = when (not (is_empty postal) && not (is_postal_code postal)) postal_code_invalid;
      note = none;
    }

unfoldable pub has_errors : FieldErrors → Bool
has_errors e =
    present e.full_name
    || present e.mobile
    || present e.address
    || present e.postal_code
    || present e.note

unfoldable pub details_request : Link → CustomerDraft → File → Request
details_request link d receipt = record {
  method = post;
  path = order_path link ++ text "/details";
  body = form (
      ("fullName", str (trim d.full_name))
      ∷ ("mobile", str (normalize_iranian_mobile d.mobile))
      ∷ ("address", str (trim d.address))
      ∷ ("postalCode", str (normalize_digits d.postal_code))
      ∷ ("note", str (trim d.note))
      ∷ ("receipt", file receipt)
      ∷ []);
}

unfoldable pub settle_details : Link → Env → Settled PublicOrder → State → State × List Effect
settle_details link env (fulfilled updated) s = (
  record s { order = some updated; receipt = none; pending = false },
  remove_local (draft_slot link) ∷ [],
)
settle_details link env (rejected reason) s = (
  record s { error = message_or reason details_not_saved; pending = false },
  record_failure link env (pilot_failure_reason reason),
)

-- The rest of `submitDetails` after `startForm`; `s.draft` and `s.receipt` are those of the render.
unfoldable pub send_details :
    Link → Env → Settled PublicOrder → (State → State) → State → Option File → State × List Effect
send_details link env reply meanwhile s none = (
  record s { receipt_error = receipt_missing; field_errors = details_errors s.draft },
  record_failure link env client_validation,
)
send_details link env reply meanwhile s (some receipt) =
    if has_errors (details_errors s.draft)
    then (
      record s { field_errors = details_errors s.draft },
      record_failure link env client_validation,
    )
    else (let (t, effects) =
          settle_details link env reply (meanwhile (record s { pending = true; error = [] })) in
        (t, call (details_request link s.draft receipt) ∷ effects))

unfoldable pub submit_details :
    Link → Env → Settled PublicOrder → (State → State) → State → State × List Effect
submit_details link env reply meanwhile s =
    let (started, signals) = start_form link env s in
    let (t, effects) = send_details link env reply meanwhile started s.receipt in
    (t, signals ++ effects)

unfoldable pub final_request : Link → File → Request
final_request link receipt = record {
  method = post;
  path = order_path link ++ text "/final-payment/receipt";
  body = form (("receipt", file receipt) ∷ []);
}

unfoldable pub settle_final : Settled PublicOrder → State → State
settle_final (fulfilled updated) s = record s {
  order = some updated;
  final_receipt = none;
  final_pending = false;
}
settle_final (rejected reason) s = record s {
  final_error = message_or reason final_receipt_not_saved;
  final_pending = false;
}

unfoldable pub submit_final_receipt :
    Link → Settled PublicOrder → (State → State) → State → State × List Effect
submit_final_receipt link reply meanwhile s = elim s.final_receipt [
  | none ↦ (record s { final_receipt_error = final_receipt_missing }, [])
  | some receipt ↦ (
    settle_final reply (meanwhile (record s { final_pending = true; final_error = [] })),
    call (final_request link receipt) ∷ [],
  )
]

-- `supportClicked`: `takes_beacon` is what `sendBeacon` returns, `none` where it throws.
unfoldable pub support_clicked : Link → Bool → Option Bool → Option Support → List Effect
support_clicked link has_clipboard takes_beacon none = []
support_clicked link has_clipboard takes_beacon (some support) =
    let endpoint = order_path link ++ text "/support-click" in
    copied_message support.channel
    ++ (if or_else takes_beacon false
        then beacon endpoint [] ∷ []
        else call (record { method = post; path = endpoint; body = Body.empty }) ∷ [])
  where
    copied_message : SupportChannel → List Effect
    copied_message instagram = if has_clipboard then copy_text support.message ∷ [] else []
    copied_message whatsapp = []
