-- ===== src/Shared/Api.antt =====
-- Calls of the server and best-effort signals (web/src/shared.ts: ApiError, pilotFailureReason,
-- sendPilotEvent, api). What a page does outside its own state is a list of effects, in order.
use radif.Prelude.{
  leb, ◌==◌, if◌then◌else◌, or_else, text, text_eq, Text, ℕ, String, Bool, not, ◌&&◌, ◌||◌, Option,
  none, some, List, [], ◌∷◌,
}
use radif.Shared.Messages.{no_connection, no_answer}

-- A picked or produced file: what the pages read of it.
pub record File : Type 0 where
  pub name : Text
  pub type : Text
  pub size : ℕ

pub data Value : Type 0 where
  str : Text → Value
  num : ℕ → Value
  file : File → Value
  -- the `items` of an order: product ids and quantities
  items : List (ℕ × ℕ) → Value

pub data Method : Type 0 where
  get post patch delete : Method

-- A request's body: none, a JSON object or a form, both by field names.
pub data Body : Type 0 where
  empty : Body
  json form : List (String × Value) → Body

pub record Request : Type 0 where
  pub method : Method
  pub path : Text
  pub body : Body

-- What is thrown: an `ApiError`, an aborted call's `DOMException`, another `Error`, or a value
-- that is no `Error`.
pub data Thrown : Type 0 where
  api_error : ℕ → Text → Thrown
  abort_error error : Text → Thrown
  no_error : Thrown

-- How an awaited call settles.
pub data Settled {ℓ} (A : Type ℓ) : Type ℓ where
  fulfilled : A → Settled A
  rejected : Thrown → Settled A

pub data Effect : Type 0 where
  -- a call of the server
  call : Request → Effect
  -- a pilot signal to a path, best effort
  pilot : Text → List (String × Value) → Effect
  beacon : Text → List (String × Value) → Effect
  busy_change : Bool → Effect
  store_local store_session : Text → Text → Effect
  remove_local remove_session : Text → Effect
  navigate : Text → Effect
  unauthorized_event : Effect
  copy_text share_text : Text → Effect
  scroll_top : Effect

pub data PilotFailureReason : Type 0 where
  client_validation conflict request network server : PilotFailureReason

-- `reason instanceof Error ? reason.message : fallback`
unfoldable pub message_or : Thrown → Text → Text
message_or (api_error _ message) _ = message
message_or (abort_error message) _ = message
message_or (error message) _ = message
message_or no_error fallback = fallback

unfoldable pub pilot_failure_reason : Thrown → PilotFailureReason
pilot_failure_reason (api_error status _) =
    if status == 409 then conflict else if leb 500 status then server else request
pilot_failure_reason _ = network

unfoldable pub reason_text : PilotFailureReason → Text
reason_text client_validation = text "client_validation"
reason_text conflict = text "conflict"
reason_text request = text "request"
reason_text network = text "network"
reason_text server = text "server"

-- How `fetch` settles for a signal: a status, or a rejection.
pub data SignalReply : Type 0 where
  answered : ℕ → SignalReply
  unreachable : SignalReply

-- `sendPilotEvent` with the reply that its `fetch` gets.
unfoldable pub send_pilot_event : Text → List (String × Value) → SignalReply → List Effect
send_pilot_event path event (answered status) =
    pilot path event ∷ (if status == 429 || leb 500 status then beacon path event ∷ [] else [])
send_pilot_event path event unreachable = pilot path event ∷ beacon path event ∷ []

-- A response of `fetch`: `error_field` is what its body, read as JSON, gives for `error` (`none`
-- where there is no JSON or no such field), and `payload` is how reading the result settles.
pub record Response {ℓ} (A : Type ℓ) : Type ℓ where
  pub status : ℕ
  pub error_field : Option Text
  pub payload : Settled A

pub data Fetched {ℓ} (A : Type ℓ) : Type ℓ where
  response : Response A → Fetched A
  failed : Thrown → Fetched A

unfoldable pub response_ok : ℕ → Bool
response_ok status = leb 200 status && leb status 299

-- `undefined` is `none`.
unfoldable pub settle_payload {ℓ} : {A : Type ℓ} → Settled A → Settled (Option A)
settle_payload (fulfilled a) = fulfilled (some a)
settle_payload (rejected t) = rejected t

unfoldable pub fetch_failed {ℓ} : {A : Type ℓ} → Thrown → Settled (Option A)
fetch_failed (abort_error message) = rejected (abort_error message)
fetch_failed _ = rejected (error no_connection)

-- `api(path)` with what `fetch` gives.
unfoldable pub api {ℓ} : {A : Type ℓ} → Text → Fetched A → Settled (Option A) × List Effect
unfolding settle_payload fetch_failed response_ok
api path (failed t) = (fetch_failed t, [])
api path (response r) =
    if response_ok r.status
    then (if r.status == 204 then (fulfilled none, []) else (settle_payload r.payload, []))
    else (
      rejected (api_error r.status (or_else r.error_field no_answer)),
      if r.status == 401 && not (text_eq path (text "/api/session"))
          then unauthorized_event ∷ []
          else [],
    )
