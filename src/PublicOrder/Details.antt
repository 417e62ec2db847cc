-- ===== src/PublicOrder/Details.antt =====
-- When the customer's details are sent, and what becomes of the draft.
use radif.Prelude.{
  text, Bool-cases, is_empty, trim, Text, ◌≡◌, refl, ◌↔◌, ◌⊎◌, inl, inr, true, false, Option, none,
  some, [], ◌∷◌, ◌++◌, arith,
}
use radif.Shared.Types.{PublicOrder, CustomerDraft}
use radif.Shared.Effects.{calls, removes, effect_laws}
use radif.Shared.Digits.{normalize_digits, normalize_iranian_mobile, is_mobile, is_postal_code}
use radif.Shared.Messages.{details_not_saved}
use mathlib.Core.Bool.{false≢true}
use radif.Shared.Api.{
  Request, post, form, str, file, call, File, Settled, fulfilled, rejected, Thrown, message_or,
}
use radif.PublicOrder.State.{State}
use radif.PublicOrder.Submit.{
  Link, Env, order_path, draft_slot, form_event, record_failure, start_form, when, details_errors,
  has_errors, details_request, settle_details, send_details, submit_details,
}

-- What the shop needs of the customer.
pub record IsComplete (d : CustomerDraft) : Type 0 where
  pub named : is_empty (trim d.full_name) ≡ false
  pub reachable : is_mobile (normalize_iranian_mobile d.mobile) ≡ true
  pub addressed : is_empty (trim d.address) ≡ false
  pub coded :
      (is_empty (normalize_digits d.postal_code) ≡ true)
      ⊎ (is_postal_code (normalize_digits d.postal_code) ≡ true)

has_errors_iff : (d : CustomerDraft) → (has_errors (details_errors d) ≡ false) ↔ IsComplete d
unfolding has_errors details_errors when
has_errors_iff d = (λ h. ground arith, λ h. ground arith)

start_form_state :
    (link : Link) (env : Env) (s : State)
    → (start_form link env s).0 ≡ record s { form_started = true }
unfolding start_form
start_form_state link env s = ground arith

start_form_signals :
    (link : Link) (env : Env) (s : State) (key : Text)
    → (calls (start_form link env s).1 ≡ []) × (removes key (start_form link env s).1 ≡ false)
unfolding start_form form_event
start_form_signals link env s key = elim (Bool-cases s.form_started) [
  | inl old ↦ rw old (refl, refl)
  | inr new ↦ rw new (simp effect_laws, simp effect_laws)
]

-- The signal that the form was started is not sent twice.
pub start_form_once :
    (link : Link) (env env' : Env) (s : State)
    → start_form link env' (start_form link env s).0 ≡ ((start_form link env s).0, [])
unfolding start_form
start_form_once link env env' s = ground arith

fault :
    (s : State)
    → (s.receipt ≡ none) ⊎ ¬ IsComplete s.draft
    → (s.receipt ≡ none) ⊎ (has_errors (details_errors s.draft) ≡ true)
fault s (inl e) = inl e
fault s (inr incomplete) = elim (Bool-cases (has_errors (details_errors s.draft))) [
  | inl e ↦ inr e
  | inr fine ↦ absurd (incomplete ((has_errors_iff s.draft).0 fine))
]

-- The state in which the call is made.
abbrev pub sent_state : State → State
sent_state s = record s { form_started = true; pending = true; error = [] }

submit_ready :
    (link : Link) (env : Env) (reply : Settled PublicOrder) (meanwhile : State → State) (s : State)
    (r : File)
    → s.receipt ≡ some r
    → IsComplete s.draft
    → submit_details link env reply meanwhile s ≡ (
        let (t, effects) = settle_details link env reply (meanwhile (sent_state s)) in
        (t, (start_form link env s).1 ++ call (details_request link s.draft r) ∷ effects))
unfolding submit_details send_details
submit_ready link env reply meanwhile s r e h =
    rw (start_form_state link env s, e, (has_errors_iff s.draft).1 h) refl

settle_details_lem :
    (link : Link) (env : Env) (reply : Settled PublicOrder) (s : State)
    → (calls (settle_details link env reply s).1 ≡ [])
      × ((settle_details link env reply s).0.pending ≡ false)
unfolding settle_details record_failure form_event
settle_details_lem link env (fulfilled updated) s = (refl, refl)
settle_details_lem link env (rejected reason) s = (simp effect_laws, refl)

no_or_ten :
    (t : Text)
    → (is_empty t ≡ true) ⊎ (is_postal_code t ≡ true)
    → (t ≡ []) ⊎ (is_postal_code t ≡ true)
no_or_ten [] h = inl refl
no_or_ten (c ∷ t) (inl e) = absurd (false≢true e)
no_or_ten (c ∷ t) (inr e) = inr e

-- What is sent: the texts without the spaces around them, the mobile number and the postal code in
-- ASCII digits, the number with a zero before it in place of the country's code, and the receipt.
abbrev pub normal_details : Link → CustomerDraft → File → Request
normal_details link d receipt = record {
  method = post;
  path = text "/api/o/" ++ link.encoded ++ text "/details";
  body = form (
      ("fullName", str (trim d.full_name))
      ∷ ("mobile", str (normalize_iranian_mobile d.mobile))
      ∷ ("address", str (trim d.address))
      ∷ ("postalCode", str (normalize_digits d.postal_code))
      ∷ ("note", str (trim d.note))
      ∷ ("receipt", file receipt)
      ∷ []);
}

details_request-eq-normal :
    (link : Link) (d : CustomerDraft) (r : File)
    → details_request link d r ≡ normal_details link d r
unfolding details_request order_path
details_request-eq-normal link d r = refl

-- With a receipt and complete details, the one call by `api` is the post of the details in their normal
-- form: the name, the address and the note without the spaces around them, a mobile number of eleven
-- ASCII digits that starts with 09, and a postal code that is empty or has ten of them, whatever script
-- they were typed in. The page does not stay pending whatever the answer is.
pub submit_details_ready :
    (link : Link) (env : Env) (reply : Settled PublicOrder) (meanwhile : State → State) (s : State)
    (r : File)
    → s.receipt ≡ some r
    → IsComplete s.draft
    → let (t, effects) = submit_details link env reply meanwhile s in
      (calls effects ≡ normal_details link s.draft r ∷ [])
      × (is_mobile (normalize_iranian_mobile s.draft.mobile) ≡ true)
      × ((normalize_digits s.draft.postal_code ≡ [])
          ⊎ (is_postal_code (normalize_digits s.draft.postal_code) ≡ true))
      × (t.pending ≡ false)
submit_details_ready link env reply meanwhile s r e h =
    let (none_more, ended) = settle_details_lem link env reply (meanwhile (sent_state s)) in
    let (quiet, _) = start_form_signals link env s [] in
    rw (submit_ready link env reply meanwhile s r e h) (
      simp (effect_laws, quiet, none_more, details_request-eq-normal link s.draft r),
      h.reachable,
      no_or_ten (normalize_digits s.draft.postal_code) h.coded,
      ended,
    )

send_refused :
    (link : Link) (env : Env) (reply : Settled PublicOrder) (meanwhile : State → State) (s : State)
    (receipt : Option File)
    → (receipt ≡ none) ⊎ (has_errors (details_errors s.draft) ≡ true)
    → let (t, effects) = send_details link env reply meanwhile s receipt in
      (calls effects ≡ []) × (t.order ≡ s.order) × (t.draft ≡ s.draft) × (t.pending ≡ s.pending)
unfolding send_details record_failure form_event
send_refused link env reply meanwhile s none h = (simp effect_laws, refl, refl, refl)
send_refused link env reply meanwhile s (some r) (inl h) = cc
send_refused link env reply meanwhile s (some r) (inr h) = rw h (simp effect_laws, refl, refl, refl)

-- Without a receipt, or with details that are not complete, nothing is sent, and the order, the
-- draft and the pending mark stay as they are.
pub submit_details_refused :
    (link : Link) (env : Env) (reply : Settled PublicOrder) (meanwhile : State → State) (s : State)
    → (s.receipt ≡ none) ⊎ ¬ IsComplete s.draft
    → let (t, effects) = submit_details link env reply meanwhile s in
      (calls effects ≡ []) × (t.order ≡ s.order) × (t.draft ≡ s.draft) × (t.pending ≡ s.pending)
unfolding submit_details
submit_details_refused link env reply meanwhile s h =
    let refused =
      send_refused link env reply meanwhile (record s { form_started = true }) s.receipt
        (fault s h) in
    let (quiet, _) = start_form_signals link env s [] in
    rw (start_form_state link env s)
      (simp (effect_laws, quiet, refused.0), refused.1, refused.2, refused.3)

settle_failed :
    (link : Link) (env : Env) (reason : Thrown) (s : State)
    → removes (draft_slot link) (settle_details link env (rejected reason) s).1 ≡ false
unfolding settle_details record_failure form_event
settle_failed link env reason s = simp effect_laws

-- A failed call removes no stored draft, loses nothing that was typed or picked, and its message
-- is shown.
pub submit_details_failed :
    (link : Link) (env : Env) (reason : Thrown) (meanwhile : State → State) (s : State) (r : File)
    → s.receipt ≡ some r
    → IsComplete s.draft
    → let (t, effects) = submit_details link env (rejected reason) meanwhile s in
      let before = meanwhile (sent_state s) in
      (removes (draft_slot link) effects ≡ false)
      × (t.draft ≡ before.draft)
      × (t.receipt ≡ before.receipt)
      × (t.error ≡ message_or reason details_not_saved)
unfolding settle_details
submit_details_failed link env reason meanwhile s r e h =
    let (_, quiet) = start_form_signals link env s (draft_slot link) in
    rw (submit_ready link env (rejected reason) meanwhile s r e h) (
      simp (effect_laws, quiet, settle_failed link env reason (meanwhile (sent_state s))),
      refl,
      refl,
      refl,
    )
