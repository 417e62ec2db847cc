-- ===== src/Login/Tasks.antt =====
-- The tasks of the login while their calls are on their way (web/src/pages/LoginPage.tsx).
use radif.Prelude.{◌≡◌, refl, sym, ◌∙◌, Bool, true, false, Option, none, some, arith}
use radif.Shared.Types.{Me}
use mathlib.Core.Bool.{false≢true}
use radif.Shared.Api.{Settled}
use radif.Login.Steps.{
  Step, password, signup, reset, shop, State, init, Next, begin, settle_identify, Entry,
  by_password, by_signup, by_reset, settle_entry, settle_reset, settle_shop, change_identifier,
}
use radif.Login.Fields.{Edit, edit}
use radif.Login.Laws.{settle_identify_ends, settle_entry_ends, settle_reset_ends, settle_shop_ends}

pub data Task : Type 0 where
  identifying resetting creating : Task
  entering : Entry → Task

-- The step in which the page draws the button of a task.
unfoldable pub entry_step : Entry → Step
entry_step by_password = password
entry_step by_signup = signup
entry_step by_reset = reset

unfoldable pub step_of : Task → Step
step_of identifying = Step.identifier
step_of resetting = password
step_of creating = shop
step_of (entering entry) = entry_step entry

-- The page, with the task that has not ended, if there is one.
pub record Page : Type 0 where
  pub state : State
  pub task : Option Task

-- What happens: the buttons are disabled while the page is pending, the fields are not.
pub data Event : Page → Page → Type 0 where
  edited : (p : Page) (e : Edit) → Event p (record p { state = edit e p.state })
  went_back :
      (p : Page)
      → p.state.pending ≡ false
      → Event p (record p { state = change_identifier p.state })
  began :
      (p : Page) (t : Task)
      → p.state.pending ≡ false
      → p.state.step ≡ step_of t
      → Event p (record { state = begin p.state; task = some t })
  identified :
      (p : Page) (reply : Settled Next)
      → p.task ≡ some identifying
      → Event p (record { state = settle_identify reply p.state; task = none })
  entered :
      (p : Page) (entry : Entry) (reply : Settled (Unit {0})) (me : Settled Me)
      → p.task ≡ some (entering entry)
      → Event p (record { state = (settle_entry reply me p.state).0; task = none })
  was_reset :
      (p : Page) (reply : Settled (Unit {0}))
      → p.task ≡ some resetting
      → Event p (record { state = settle_reset reply p.state; task = none })
  created :
      (p : Page) (reply : Settled (Unit {0})) (me : Settled Me)
      → p.task ≡ some creating
      → Event p (record { state = (settle_shop reply me p.state).0; task = none })

pub data Reach (p : Page) : Page → Type 0 where
  here : Reach p p
  next : {q r : Page} → Reach p q → Event q r → Reach p r

-- A page with a task is pending, in the step of that task; one without is not pending.
unfoldable pub IsWaiting : Bool → Step → Option Task → Type 0
IsWaiting pending step none = pending ≡ false
IsWaiting pending step (some t) = (pending ≡ true) × (step ≡ step_of t)

edit-keeps : (e : Edit) (s : State) → ((edit e s).pending ≡ s.pending) × ((edit e s).step ≡ s.step)
unfolding edit
edit-keeps e s = (ground arith, ground arith)

kept :
    {a b : Bool} {s t : Step} (task : Option Task)
    → b ≡ a
    → t ≡ s
    → IsWaiting a s task
    → IsWaiting b t task
unfolding IsWaiting
kept none p q w = p ∙ w
kept (some _) p q w = (p ∙ w.0, q ∙ w.1)

went_back-IsWaiting :
    (s : State) (task : Option Task)
    → s.pending ≡ false
    → IsWaiting s.pending s.step task
    → IsWaiting s.pending (change_identifier s).step task
unfolding IsWaiting
went_back-IsWaiting s none p w = w
went_back-IsWaiting s (some t) p w = absurd (false≢true (sym p ∙ w.0))

Event-IsWaiting :
    {p q : Page}
    → Event p q
    → IsWaiting p.state.pending p.state.step p.task
    → IsWaiting q.state.pending q.state.step q.task
unfolding IsWaiting begin change_identifier
Event-IsWaiting (edited p e) w = let (a, b) = edit-keeps e p.state in kept p.task a b w
Event-IsWaiting (went_back p n) w = went_back-IsWaiting p.state p.task n w
Event-IsWaiting (began p t n h) w = (refl, h)
Event-IsWaiting (identified p reply h) w = settle_identify_ends reply p.state
Event-IsWaiting (entered p entry reply me h) w = settle_entry_ends reply me p.state
Event-IsWaiting (was_reset p reply h) w = settle_reset_ends reply p.state
Event-IsWaiting (created p reply me h) w = settle_shop_ends reply me p.state

-- However the login is used and whenever the answers come: the page is pending exactly while a task
-- has not ended, at most one has not, and it ends in the step in which it was begun.
pub Reach-IsWaiting :
    {p : Page}
    → Reach (record { state = init; task = none }) p
    → IsWaiting p.state.pending p.state.step p.task
unfolding init IsWaiting
Reach-IsWaiting here = refl
Reach-IsWaiting (next r e) = Event-IsWaiting e (Reach-IsWaiting r)
