-- ===== src/App/Busy.antt =====
-- The frame of a shop's pages and the two pages in it that lock it, those of a new order and of an order
-- made elsewhere (web/src/AdminApp.tsx, web/src/pages/CreateOrderPage.tsx,
-- web/src/pages/HistoricalOrderPage.tsx): a page tells the frame by `onBusyChange` that it is busy, and
-- the frame disables its links and the choice of a shop until it is told otherwise.
use radif.Prelude.{
  ◌==◌, Text, ℕ, ◌+◌, ◌≡◌, Bool, true, false, not, ◌||◌, Option, none, some, List, [], ◌∷◌, ◌++◌,
}
use radif.Shared.Types.{SalesChannel, CreatedOrder}
use radif.Shared.Api.{Effect, Settled, Thrown, busy_change}
use radif.Shared.Effects.{told_busy}
use radif.CreateOrder.State.{State, init}
use radif.CreateOrder.Submit.{Page, Env, problem, begin, show_created, end_submit, fail_submit}
use radif.CreateOrder.Invariant.{Step, sent, order_failed, order_came, copy_ended}
use radif.HistoricalOrder.State as Old
use radif.HistoricalOrder.Submit as Import
use radif.HistoricalOrder.Fields as Form
use radif.HistoricalOrder.Invariant as Steps

-- The open page, where it is one of the two.
pub data Open : Type 0 where
  new_order : State → Open
  old_order : Old.State → Open

-- What a sent page waits for: the answer for a new order, the copy of its message, or the answer for
-- an old order; with the count of the page that waits.
pub data Task : Type 0 where
  ordering copying importing : ℕ → Task

abbrev pub mount_of : Task → ℕ
mount_of (ordering n) = n
mount_of (copying n) = n
mount_of (importing n) = n

abbrev pub mounts : List Task → List ℕ
mounts [] = []
mounts (t ∷ ts) = mount_of t ∷ mounts ts

-- `creating` is the frame's state. `mount` counts the pages that were opened, `page` is the one
-- that is open, and `tasks` are those that have not ended, also of pages that are gone.
pub record Frame : Type 0 where
  pub creating : Bool
  pub mount : ℕ
  pub page : Option Open
  pub tasks : List Task

abbrev pub closed_frame : Frame
closed_frame = record { creating = false; mount = 0; page = none; tasks = [] }

abbrev pub is_none : Option Open → Bool
is_none none = true
is_none (some p) = false

unfoldable pub is_pending : Option Open → Bool
is_pending none = false
is_pending (some (new_order s)) = s.pending
is_pending (some (old_order s)) = s.pending

-- `setCreating`, for what a page tells by `onBusyChange`.
unfoldable pub hear_busy : List Effect → Frame → Frame
hear_busy effects f = record f { creating = told_busy f.creating effects }

-- The page goes, and its clean-up tells that it is not busy.
unfoldable pub leave : Frame → Frame
unfolding hear_busy
leave f = record (hear_busy (busy_change false ∷ []) f) { page = none }

unfoldable pub enter : Open → Frame → Frame
enter p f = record f { page = some p; mount = f.mount + 1 }

-- `submit` of the two pages, up to its call.
unfoldable pub send : Open → Task → Frame → Frame
unfolding hear_busy
send p task f = record (hear_busy (busy_change true ∷ []) f) {
  page = some p;
  tasks = task ∷ f.tasks;
}

-- The next part of a handler that waited: what it makes of its page, where that one is open, its
-- effects, and the tasks that are left.
unfoldable pub go_on : Open → List Effect → List Task → Frame → Frame
unfolding hear_busy
go_on p effects tasks f = record (hear_busy effects f) { page = some p; tasks = tasks }

unfoldable pub go_on_late : List Effect → List Task → Frame → Frame
unfolding hear_busy
go_on_late effects tasks f = record (hear_busy effects f) { tasks = tasks }

-- Whether an event of a page is neither the sending of its form nor what comes of that.
abbrev pub is_local : {s t : State} → Step s t → Bool
is_local (sent s) = false
is_local (order_failed page env made s reason) = false
is_local (order_came page made s order) = false
is_local (copy_ended page env made s order) = false
is_local _ = true

abbrev pub is_local_import : {s t : Old.State} → Steps.Step s t → Bool
is_local_import (Steps.sent s r d) = false
is_local_import (Steps.answered env key made s reply) = false
is_local_import _ = true

-- Whether a task is one of a page that is gone.
abbrev pub is_gone : ℕ → Frame → Bool
is_gone n f = is_none f.page || not (n == f.mount)

-- What happens; `escaping` tells whether a page is also left while it is pending: by the browser's own
-- buttons, which no page can disable, by the form's link to the import, which is not disabled, or by the
-- keyboard on the links of the made order, which are only marked as disabled.
pub data Event (escaping : Bool) : Frame → Frame → Type 0 where
  entered :
      (f : Frame) (channel : SalesChannel) (key : Text) (now : ℕ)
      → f.page ≡ none
      → Event escaping f (enter (new_order (init channel key now)) f)
  entered_import :
      (f : Frame) (channel : SalesChannel) (key : Text)
      → f.page ≡ none
      → Event escaping f (enter (old_order (Old.init channel key)) f)
  left_by_link : (f : Frame) → f.creating ≡ false → Event escaping f (leave f)
  escaped : (f : Frame) → escaping ≡ true → Event escaping f (leave f)
  used :
      (f : Frame) (s t : State) (step : Step s t)
      → f.page ≡ some (new_order s)
      → is_local step ≡ true
      → Event escaping f (record f { page = some (new_order t) })
  used_import :
      (f : Frame) (s t : Old.State) (step : Steps.Step s t)
      → f.page ≡ some (old_order s)
      → is_local_import step ≡ true
      → Event escaping f (record f { page = some (old_order t) })
  was_sent :
      (f : Frame) (today : Text) (s : State)
      → f.page ≡ some (new_order s)
      → s.pending ≡ false
      → problem today s ≡ none
      → Event escaping f (send (new_order (begin s)) (ordering f.mount) f)
  import_sent :
      (f : Frame) (s : Old.State)
      → f.page ≡ some (old_order s)
      → s.reviewing ≡ true
      → Form.submit_disabled s ≡ false
      → Event escaping f (send (old_order (Form.begin s)) (importing f.mount) f)
  failed :
      (f : Frame) (page : Page) (env : Env) (made s : State) (reason : Thrown)
      (before after : List Task)
      → f.page ≡ some (new_order s)
      → f.tasks ≡ before ++ ordering f.mount ∷ after
      → Event escaping f (
          go_on
            (new_order (fail_submit page env made reason s).0)
            (fail_submit page env made reason s).1
            (before ++ after)
            f)
  came :
      (f : Frame) (page : Page) (made s : State) (order : CreatedOrder) (before after : List Task)
      → f.page ≡ some (new_order s)
      → f.tasks ≡ before ++ ordering f.mount ∷ after
      → Event escaping f (
          go_on
            (new_order (show_created page made order s).0)
            (show_created page made order s).1
            (before ++ copying f.mount ∷ after)
            f)
  copied :
      (f : Frame) (page : Page) (env : Env) (made s : State) (order : CreatedOrder)
      (before after : List Task)
      → f.page ≡ some (new_order s)
      → f.tasks ≡ before ++ copying f.mount ∷ after
      → Event escaping f (
          go_on
            (new_order (end_submit page env made order s).0)
            (end_submit page env made order s).1
            (before ++ after)
            f)
  import_answered :
      (f : Frame) (env : Old.Env) (key : Text) (made s : Old.State) (reply : Settled CreatedOrder)
      (before after : List Task)
      → f.page ≡ some (old_order s)
      → f.tasks ≡ before ++ importing f.mount ∷ after
      → Event escaping f (
          go_on
            (old_order (Import.settle env key made reply s).0)
            (Import.settle env key made reply s).1
            (before ++ after)
            f)
  failed_late :
      (f : Frame) (page : Page) (env : Env) (made s : State) (reason : Thrown) (n : ℕ)
      (before after : List Task)
      → is_gone n f ≡ true
      → f.tasks ≡ before ++ ordering n ∷ after
      → Event escaping f (go_on_late (fail_submit page env made reason s).1 (before ++ after) f)
  came_late :
      (f : Frame) (page : Page) (made s : State) (order : CreatedOrder) (n : ℕ)
      (before after : List Task)
      → is_gone n f ≡ true
      → f.tasks ≡ before ++ ordering n ∷ after
      → Event escaping f
          (go_on_late (show_created page made order s).1 (before ++ copying n ∷ after) f)
  copied_late :
      (f : Frame) (page : Page) (env : Env) (made s : State) (order : CreatedOrder) (n : ℕ)
      (before after : List Task)
      → is_gone n f ≡ true
      → f.tasks ≡ before ++ copying n ∷ after
      → Event escaping f (go_on_late (end_submit page env made order s).1 (before ++ after) f)
  import_answered_late :
      (f : Frame) (env : Old.Env) (key : Text) (made s : Old.State) (reply : Settled CreatedOrder)
      (n : ℕ) (before after : List Task)
      → is_gone n f ≡ true
      → f.tasks ≡ before ++ importing n ∷ after
      → Event escaping f (go_on_late (Import.settle env key made reply s).1 (before ++ after) f)

pub data Run (escaping : Bool) (f : Frame) : Frame → Type 0 where
  here : Run escaping f f
  next : {g h : Frame} → Run escaping f g → Event escaping g h → Run escaping f h
