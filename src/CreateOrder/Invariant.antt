-- ===== src/CreateOrder/Invariant.antt =====
-- What holds of the form after any sequence of events: presses, typing, calls and their answers in
-- any order.
use radif.Prelude.{All, ◌≡◌, true, number, Text, IsDigit, ℕ, Bool, List}
use radif.Shared.Types.{Product, CreatedOrder}
use radif.Shared.Api.{Settled, Thrown}
use radif.Components.ProductChoices.{toggle, Change, change_quantity}
use radif.Components.ProductChoices.Invariant.{IsChoice}
use radif.CreateOrder.State.{
  State, update_items, type_amount, check_split, type_initial, pick_work_days, pick_date, reset,
}
use radif.CreateOrder.Fields.{load_products, products_loaded, Edit, edit}
use radif.CreateOrder.Submit.{
  is_safe, Page, Env, Problem, set_problem, begin, fail_submit, show_created, end_submit,
  settle_date,
}

-- Both amounts are texts of ASCII digits, so that `Number` reads them as natural numbers, and the
-- items are a well-formed choice.
pub record IsValid (s : State) : Type 0 where
  pub amount_digits : All IsDigit s.amount
  pub initial_digits : All IsDigit s.initial_payment_amount
  pub choice : IsChoice s.items

pub data Step : State → State → Type 0 where
  products_asked : (s : State) → Step s (load_products s)
  products_came : (s : State) (reply : Settled (List Product)) → Step s (products_loaded reply s)
  edited : (s : State) (e : Edit) → Step s (edit e s)
  toggled : (s : State) (product : Product) → Step s (update_items (toggle product s.items) s)
  quantity_changed :
      (s : State) (id : ℕ) (change : Change)
      → Step s (update_items (change_quantity id change s.items) s)
  amount_typed : (s : State) (typed : Text) → Step s (type_amount typed s)
  split_checked : (s : State) (checked : Bool) → Step s (check_split checked s)
  initial_typed : (s : State) (typed : Text) → Step s (type_initial typed s)
  days_picked : (s : State) (count : ℕ) (promised : Text) → Step s (pick_work_days count promised s)
  date_picked : (s : State) (value : Text) → Step s (pick_date value s)
  refused : (s : State) (p : Problem) → Step s (set_problem p s)
  sent : (s : State) → Step s (begin s)
  -- what becomes of a form that was sent in the state `made`: the call fails, or the order comes, and
  -- later its message is copied
  order_failed :
      (page : Page) (env : Env) (made s : State) (reason : Thrown)
      → Step s (fail_submit page env made reason s).0
  order_came :
      (page : Page) (made s : State) (order : CreatedOrder)
      → Step s (show_created page made order s).0
  copy_ended :
      (page : Page) (env : Env) (made s : State) (order : CreatedOrder)
      → Step s (end_submit page env made order s).0
  date_answered :
      (order : CreatedOrder) (s : State) (reply : Settled Text) → Step s (settle_date order reply s)
  restarted : (s : State) (key : Text) (now : ℕ) → Step s (reset key now s)

-- An amount that JavaScript's numbers hold exactly, as they do its half.
abbrev pub IsSafe : State → Type 0
IsSafe s = is_safe (number s.amount) ≡ true

-- The states after events that leave the amount, typed or counted, a safe integer.
pub data Reach (s : State) : State → Type 0 where
  here : Reach s s
  next : {t u : State} → Reach s t → Step t u → IsSafe u → Reach s u
