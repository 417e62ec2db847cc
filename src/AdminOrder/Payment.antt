-- ===== src/AdminOrder/Payment.antt =====
-- The final payment, the customer's link and the messages (web/src/pages/AdminOrderPage.tsx).
use radif.Prelude.{
  ◌==◌, if◌then◌else◌, or_else, any, find, text, text_eq, Text, Bool, true, false, not, ◌&&◌, ◌||◌,
  Option, none, some, List, [], ◌∷◌, ◌++◌,
}
use radif.Shared.Types.{AdminOrder, Shop}
use radif.Shared.Messages.{link_not_created, final_request_not_saved, final_not_confirmed}
use radif.Shared.Api.{
  Effect, call, copy_text, share_text, str, post, empty, Request, Settled, fulfilled, rejected,
  abort_error, message_or, SignalReply, send_pilot_event,
}
use radif.Shared.Share.{Formats, order_share_message}
use radif.Shared.Templates.{
  final_message_start, final_message_code, final_message_amount, final_message_link,
  final_message_end,
}
use radif.AdminOrder.State.{
  State, nothing, link, request_final, confirm_final, idle, copied, shared, failed,
}
use radif.AdminOrder.Save.{order_path, is_saving}

-- What the browser gives: the answer of `window.confirm`, whether the clipboard takes a text, and
-- what a signal gets, and its formats.
pub record Env : Type 0 where
  pub confirmed : Bool
  pub writes : Bool
  pub event_key : Text
  pub signal : SignalReply
  pub formats : Formats

pub data Source : Type 0 where
  order_detail final_payment : Source

pub data Way : Type 0 where
  clipboard native_share : Way

unfoldable pub source_text : Source → Text
source_text order_detail = text "order_detail"
source_text final_payment = text "final_payment"

unfoldable pub way_text : Way → Text
way_text clipboard = text "clipboard"
way_text native_share = text "native_share"

-- `recordLinkCopy`
unfoldable pub record_link_copy : Env → AdminOrder → Source → Way → List Effect
record_link_copy env o source way =
    send_pilot_event (order_path o ++ text "/link-copied")
      (("method", str (way_text way))
        ∷ ("source", str (source_text source))
        ∷ ("eventKey", str env.event_key)
        ∷ [])
      env.signal

unfoldable pub action_request : AdminOrder → Text → Request
action_request o action = record { method = post; path = order_path o ++ action; body = empty }

-- `finalPaymentMessage`
unfoldable pub final_payment_message : Formats → AdminOrder → Text
final_payment_message f o =
    final_message_start
    ++ o.shop.name
    ++ final_message_code
    ++ o.order_code
    ++ final_message_amount
    ++ f.persian_number (or_else o.final_payment_amount 0)
    ++ final_message_link
    ++ o.customer_url
    ++ final_message_end

-- `copyFinalPaymentMessage`, of an order that is there
unfoldable pub copy_final_message : Env → AdminOrder → State → State × List Effect
copy_final_message env o s =
    if env.writes
    then (
      record s { final_copy_state = copied },
      copy_text (final_payment_message env.formats o)
          ∷ record_link_copy env o final_payment clipboard,
    )
    else (record s { final_copy_state = failed }, [])

unfoldable pub share_message_of : Env → Text → Option Text → AdminOrder → Text
share_message_of env name template o =
    order_share_message env.formats name template o.order_code o.customer_url
      o.estimated_delivery_date o.amount

-- `messageForOrder`: the order's shop among the admin's, with its template, or else the shop that
-- the order names, which has none
unfoldable pub message_for : Env → List Shop → AdminOrder → Text
message_for env shops o = elim (find (λ (shop : Shop). shop.id == o.shop.id) shops) [
  | some shop ↦ share_message_of env shop.name shop.share_message_template o
  | none ↦ share_message_of env o.shop.name none o
]

unfoldable pub copy_order_message : Env → List Shop → State → State × List Effect
copy_order_message env shops s = elim s.order [
  | none ↦ (s, [])
  | some o ↦
      if env.writes
      then (
        record s { message_state = copied },
        copy_text (message_for env shops o) ∷ record_link_copy env o order_detail clipboard,
      )
      else (record s { message_state = failed }, [])
]

unfoldable pub share_order_message :
    Env → List Shop → Settled (Unit {0}) → State → State × List Effect
share_order_message env shops reply s = elim s.order [
  | none ↦ (s, [])
  | some o ↦ elim reply [
    | fulfilled _ ↦ (
      record s { message_state = shared },
      share_text (message_for env shops o) ∷ record_link_copy env o order_detail native_share,
    )
    | rejected (abort_error _) ↦ (s, [])
    | rejected _ ↦ copy_order_message env shops s
  ]
]

-- `rotateCustomerLink`: the answer holds the new link.
unfoldable pub settle_link : Settled Text → State → State
settle_link (fulfilled url) s = record s {
  order = elim s.order [ none ↦ none | some o ↦ some (record o { customer_url = url }) ];
  link_rotated = true;
  final_copy_state = idle;
  message_state = idle;
  saving = nothing;
}
settle_link (rejected reason) s = record s {
  error = message_or reason link_not_created;
  saving = nothing;
}

unfoldable pub rotate_customer_link :
    Bool → Settled Text → (State → State) → State → State × List Effect
rotate_customer_link confirmed reply meanwhile s = elim s.order [
  | none ↦ (s, [])
  | some o ↦ if is_saving s.saving || not confirmed then (s, []) else (
    settle_link reply (meanwhile (record s { saving = link; error = []; link_rotated = false })),
    call (action_request o (text "/customer-link/rotate")) ∷ [],
  )
]

-- `requestFinalPayment`: after the request the message for the customer is copied. The writing to the
-- clipboard, which is awaited while the page still marks the request as being saved, is one step with
-- the answer.
unfoldable pub settle_request : Env → Settled AdminOrder → State → State × List Effect
settle_request env (fulfilled o) s =
    let (t, effects) = copy_final_message env o (record s { order = some o }) in
    (record t { saving = nothing }, effects)
settle_request env (rejected reason) s =
    (record s { error = message_or reason final_request_not_saved; saving = nothing }, [])

unfoldable pub request_final_payment :
    Env → Settled AdminOrder → (State → State) → State → State × List Effect
request_final_payment env reply meanwhile s = elim s.order [
  | none ↦ (s, [])
  | some o ↦
      if is_saving s.saving || not env.confirmed
      then (s, [])
      else (let (t, effects) =
            settle_request env reply
              (meanwhile (record s { saving = request_final; error = [] })) in
          (t, call (action_request o (text "/final-payment/request")) ∷ effects))
]

unfoldable pub settle_confirm : Settled AdminOrder → State → State
settle_confirm (fulfilled o) s = record s { order = some o; saving = nothing }
settle_confirm (rejected reason) s = record s {
  error = message_or reason final_not_confirmed;
  saving = nothing;
}

unfoldable pub confirm_final_payment :
    Bool → Settled AdminOrder → (State → State) → State → State × List Effect
confirm_final_payment confirmed reply meanwhile s = elim s.order [
  | none ↦ (s, [])
  | some o ↦ if is_saving s.saving || not confirmed then (s, []) else (
    settle_confirm reply (meanwhile (record s { saving = confirm_final; error = [] })),
    call (action_request o (text "/final-payment/confirm")) ∷ [],
  )
]

-- When the final payment may be requested, and when its two buttons are disabled.
unfoldable pub final_request_allowed : AdminOrder → Bool
final_request_allowed o =
    o.customer_submitted
    && o.receipt_uploaded
    && any (λ entry. text_eq entry.new_status (text "paid")) o.history
    && any (λ status. text_eq status o.status)
        (text "paid" ∷ text "preparing" ∷ text "shipped" ∷ [])

unfoldable pub request_disabled : State → AdminOrder → Bool
request_disabled s o = is_saving s.saving || not (final_request_allowed o)

unfoldable pub confirm_disabled : State → AdminOrder → Bool
confirm_disabled s o = is_saving s.saving || text_eq o.status (text "cancelled")
