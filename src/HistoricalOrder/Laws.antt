-- ===== src/HistoricalOrder/Laws.antt =====
-- The review of an order that was made elsewhere, and how a sent one ends.
use radif.Prelude.{is_empty, Text, ◌≡◌, refl, ◌↔◌, ◌⊎◌, true, false, none, [], ◌∷◌, arith}
use radif.Shared.Types.{CreatedOrder}
use radif.Shared.Api.{Settled, fulfilled, rejected, Thrown}
use radif.Shared.Effects.{calls, told_busy, effect_laws}
use radif.Shared.Digits.{normalize_iranian_mobile, is_mobile, is_postal_code}
use radif.Shared.Digits.Laws.{normalize_digits_idempotent, normalize_iranian_mobile-eq_self}
use radif.HistoricalOrder.State.{State, Env, customer_invalid, problem, failure_event, open_review}
use radif.HistoricalOrder.Submit.{import_request, settle, submit}

-- The review opens exactly for a form without a problem.
pub open_review_iff :
    (env : Env) (s : State)
    → s.reviewing ≡ false
    → ((open_review env s).0.reviewing ≡ true) ↔ (problem s ≡ none)
unfolding open_review
open_review_iff env s h = (λ k. ground arith, λ k. ground arith)

-- What is reviewed has no problem either: its mobile number is one in its normal form, and its
-- postal code is empty or one of ten digits.
pub open_review_ready :
    (env : Env) (s : State)
    → problem s ≡ none
    → let t = (open_review env s).0 in
      (problem t ≡ none)
      × (is_mobile t.customer.mobile ≡ true)
      × ((is_empty t.customer.postal_code ≡ true) ⊎ (is_postal_code t.customer.postal_code ≡ true))
unfolding open_review problem customer_invalid
open_review_ready env s h = ground (
  arith,
  normalize_iranian_mobile-eq_self (normalize_iranian_mobile s.customer.mobile),
  normalize_digits_idempotent s.customer.postal_code,
)

-- However the call settles, the order is sent once, the page does not stay pending, and the
-- surrounding page is told so.
pub import_ends :
    (env : Env) (key : Text) (reply : Settled CreatedOrder) (meanwhile : State → State) (s : State)
    → let (t, effects) = submit env key reply meanwhile s in
      (calls effects ≡ import_request env s ∷ [])
      × (t.pending ≡ false)
      × (told_busy false effects ≡ false)
unfolding submit settle failure_event
import_ends env key (fulfilled order) meanwhile s = (refl, refl, refl)
import_ends env key (rejected reason) meanwhile s = (simp effect_laws, refl, simp effect_laws)

-- A failed call keeps what was typed and picked, the review and the key, so that the next attempt
-- repeats the request under the same key.
pub import_failed :
    (env : Env) (key : Text) (reason : Thrown) (meanwhile : State → State) (s : State)
    → let t = (submit env key (rejected reason) meanwhile s).0 in
      let before = meanwhile (record s { pending = true; error = [] }) in
      (t.items ≡ before.items)
      × (t.customer ≡ before.customer)
      × (t.receipt ≡ before.receipt)
      × (t.reviewing ≡ before.reviewing)
      × (t.create_key ≡ before.create_key)
unfolding submit settle
import_failed env key reason meanwhile s = (refl, refl, refl, refl, refl)
