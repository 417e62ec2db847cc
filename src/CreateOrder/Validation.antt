-- ===== src/CreateOrder/Validation.antt =====
-- What the guards of `submit` let through, and what a refused form does.
use radif.Prelude.{
  Option-cases, inl, inr, leb, ltb, text, decimal, String, Bool, List, not, ◌&&◌, ◌||◌, ◌∷◌, ◌++◌,
  if◌then◌else◌, lt→ltb, is_empty, text_lt, number, number-decimal, Text, ℕ, ◌+◌, ◌/◌, ◌≤◌, ◌<◌,
  ◌≡◌, refl, ◌≢◌, ◌↔◌, true, false, none, some, [], arith,
}
use radif.Shared.Api.{Settled, Value, str, reason_text}
use radif.Shared.Effects.{calls, calls-send_pilot_event, signals, posted, signals-send_pilot_event}
use radif.Shared.Types.{CreatedOrder}
use radif.Shared.Messages.{amount_not_positive, initial_payment_out_of_range, delivery_date_in_past}
use radif.CreateOrder.State.{State, half_amount, check_split}
use radif.CreateOrder.Submit.{
  Page, Env, Problem, bad_amount, bad_initial_payment, bad_date, pilot_path, problem, set_problem,
  submit, record_failure,
}

-- What an order needs: a product, an amount from 1 to the largest safe integer, a first payment
-- above 0 and below the amount where the payment is split, and a date that is not before today.
pub record IsReady (today : Text) (s : State) : Type 0 where
  pub has_items : is_empty s.items ≡ false
  pub amount_positive : 1 ≤ number s.amount
  pub amount_safe : number s.amount ≤ 9007199254740991
  pub initial_positive : s.split_payment ≡ true → 1 ≤ number s.initial_payment_amount
  pub initial_below : s.split_payment ≡ true → number s.initial_payment_amount < number s.amount
  pub has_date : is_empty s.delivery_date ≡ false
  pub date_not_past : text_lt s.delivery_date today ≡ false

-- The guards let a form through exactly when it is ready.
pub problem_iff : (today : Text) (s : State) → (problem today s ≡ none) ↔ IsReady today s
unfolding problem
problem_iff today s = (λ h. ground arith, λ h. ground arith)

-- Whether there is a product and an amount from 1 to the largest safe integer, and whether the first
-- payment, where there is one, is from 1 to below the amount.
abbrev pub amount_fine : State → Bool
amount_fine s =
    not (is_empty s.items) && leb 1 (number s.amount) && leb (number s.amount) 9007199254740991

abbrev pub first_fine : State → Bool
first_fine s =
    not s.split_payment
    || (leb 1 (number s.initial_payment_amount)
        && ltb (number s.initial_payment_amount) (number s.amount))

bad_amount_lem :
    (today : Text) (s : State) → problem today s ≡ some bad_amount → amount_fine s ≡ false
unfolding problem
bad_amount_lem today s e = ground arith

bad_initial_lem :
    (today : Text) (s : State)
    → problem today s ≡ some bad_initial_payment
    → (amount_fine s ≡ true) × (first_fine s ≡ false)
unfolding problem
bad_initial_lem today s e = (ground arith, ground arith)

bad_date_lem :
    (today : Text) (s : State)
    → problem today s ≡ some bad_date
    → (amount_fine s ≡ true) × (first_fine s ≡ true)
unfolding problem
bad_date_lem today s e = (ground arith, ground arith)

-- The form with the one message of what it lacks: for the amount, or else for the first payment, or
-- else for the date.
abbrev pub with_message : State → State
with_message s = record s {
  amount_error = if amount_fine s then s.amount_error else amount_not_positive;
  initial_payment_error =
      if amount_fine s && not (first_fine s)
      then initial_payment_out_of_range
      else s.initial_payment_error;
  delivery_date_error =
      if amount_fine s && first_fine s then delivery_date_in_past else s.delivery_date_error;
}

set_problem-with_message :
    (today : Text) (s : State) (p : Problem)
    → problem today s ≡ some p
    → set_problem p s ≡ with_message s
unfolding set_problem
set_problem-with_message today s bad_amount e = simp (bad_amount_lem today s e) refl
set_problem-with_message today s bad_initial_payment e =
    let (a, f) = bad_initial_lem today s e in simp (a, f) refl
set_problem-with_message today s bad_date e =
    let (a, f) = bad_date_lem today s e in simp (a, f) refl

-- The signal of a form that was not sent or whose call failed.
abbrev pub failure_signal : Page → Env → Text → Text → Text × List (String × Value)
failure_signal page env key reason = (
  text "/api/shops/" ++ decimal page.shop_id ++ text "/pilot-events",
  ("eventName", str (text "order_create_failed"))
      ∷ ("createKey", str key)
      ∷ ("eventKey", str env.event_key)
      ∷ ("reason", str reason)
      ∷ ("source", str (text "normal"))
      ∷ [],
)

-- A form that is not ready makes no call by `api`. It posts the signal of a failed validation under the
-- form's key, a second time where the first one is not taken. Nothing of the form changes, so that it is
-- not pending, but one message: for the amount, where a product or an amount from 1 to the largest safe
-- integer is missing, or else for the first payment, where it is not from 1 to below the amount, or else
-- for the date.
pub submit_refused :
    (page : Page) (env : Env) (reply : Settled CreatedOrder) (meanwhile : State → State) (s : State)
    → ¬ IsReady env.today s
    → let (t, effects) = submit page env reply meanwhile s in
      (t ≡ with_message s)
      × (calls effects ≡ [])
      × (signals effects
          ≡ posted env.signal (failure_signal page env s.create_key (text "client_validation")))
unfolding submit record_failure pilot_path reason_text
submit_refused page env reply meanwhile s unready = elim (Option-cases (problem env.today s)) [
  | inl e ↦ absurd (unready ((problem_iff env.today s).0 e))
  | inr (p, e) ↦
      rw (e, submit)
        (
          set_problem-with_message env.today s p e,
          simp calls-send_pilot_event,
          simp signals-send_pilot_event,
        )
]

half_amount_range : (n : ℕ) → 2 ≤ n → (1 ≤ number (half_amount n)) × (number (half_amount n) < n)
unfolding half_amount
half_amount_range n h = rw (lt→ltb 1 n h) (rw (number-decimal ((n + 1) / 2)) (omega arith))

-- The first payment that the page proposes when the payment is split is accepted, for every
-- amount of at least 2 that is a safe integer.
pub check_split-problem :
    (today : Text) (s : State)
    → 2 ≤ number s.amount
    → number s.amount ≤ 9007199254740991
    → problem today (check_split true s) ≢ some bad_initial_payment
unfolding problem check_split
check_split-problem today s h k = ground (arith, half_amount_range (number s.amount) h)
