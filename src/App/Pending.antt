-- ===== src/App/Pending.antt =====
-- What the events of the two pages that lock the frame make of their pending mark.
use radif.Prelude.{Text, ◌≡◌, refl, Bool, true, false, arith}
use mathlib.Core.Bool.{false≢true}
use radif.Shared.Types.{CreatedOrder}
use radif.Shared.Api.{Settled, fulfilled, rejected}
use radif.Shared.Effects.{told_busy, effect_laws}
use radif.CreateOrder.State.{
  State, update_items, type_amount, check_split, type_initial, pick_work_days, pick_date, reset,
}
use radif.CreateOrder.Fields.{load_products, products_loaded, Edit, open_date_editor, edit}
use radif.CreateOrder.Submit.{bad_amount, bad_initial_payment, bad_date, set_problem, settle_date}
use radif.CreateOrder.Invariant.{
  Step, products_asked, products_came, edited, toggled, quantity_changed, amount_typed,
  split_checked, initial_typed, days_picked, date_picked, refused, sent, order_failed, order_came,
  copy_ended, date_answered, restarted,
}
use radif.HistoricalOrder.State as Old
use radif.HistoricalOrder.Submit as Import
use radif.HistoricalOrder.Fields as Form
use radif.HistoricalOrder.Invariant as Steps
use radif.Components.ReceiptPicker.{change, busy}
use radif.App.Busy.{is_local, is_local_import}

edit-pending : (e : Edit) (s : State) → (edit e s).pending ≡ s.pending
unfolding edit
edit-pending open_date_editor s = ground arith
edit-pending _ s = refl

pub local-pending : {s t : State} (step : Step s t) → is_local step ≡ true → t.pending ≡ s.pending
unfolding update_items type_amount check_split type_initial pick_work_days pick_date set_problem
    settle_date reset load_products products_loaded
local-pending (products_asked s) l = refl
local-pending (products_came s (fulfilled products)) l = refl
local-pending (products_came s (rejected reason)) l = refl
local-pending (edited s e) l = edit-pending e s
local-pending (toggled s product) l = refl
local-pending (quantity_changed s id how) l = refl
local-pending (amount_typed s typed) l = refl
local-pending (split_checked s checked) l = refl
local-pending (initial_typed s typed) l = refl
local-pending (days_picked s count promised) l = refl
local-pending (date_picked s value) l = refl
local-pending (refused s bad_amount) l = refl
local-pending (refused s bad_initial_payment) l = refl
local-pending (refused s bad_date) l = refl
local-pending (sent s) l = absurd (false≢true l)
local-pending (order_failed page env made s reason) l = absurd (false≢true l)
local-pending (order_came page made s order) l = absurd (false≢true l)
local-pending (copy_ended page env made s order) l = absurd (false≢true l)
local-pending (date_answered order s (fulfilled date)) l = refl
local-pending (date_answered order s (rejected reason)) l = refl
local-pending (restarted s key now) l = refl

edit_import-pending : (e : Form.Edit) (s : Old.State) → (Form.edit e s).pending ≡ s.pending
unfolding Form.edit
edit_import-pending e s = ground arith

pub local_import-pending :
    {s t : Old.State} (step : Steps.Step s t) → is_local_import step ≡ true → t.pending ≡ s.pending
unfolding Form.load_products Form.products_loaded Old.update_items Form.hear Old.open_review
    Form.back
local_import-pending (Steps.products_asked s) l = refl
local_import-pending (Steps.products_came s (fulfilled products)) l = refl
local_import-pending (Steps.products_came s (rejected reason)) l = refl
local_import-pending (Steps.edited s e r) l = edit_import-pending e s
local_import-pending (Steps.toggled env s product r) l = ground arith
local_import-pending (Steps.quantity_changed env s id how r) l = ground arith
local_import-pending (Steps.picker_told s (change file) r) l = refl
local_import-pending (Steps.picker_told s (busy now) r) l = refl
local_import-pending (Steps.picture_came s file) l = refl
local_import-pending (Steps.picture_done s) l = refl
local_import-pending (Steps.review_asked env s r) l = ground arith
local_import-pending (Steps.went_back s) l = refl
local_import-pending (Steps.sent s r d) l = absurd (false≢true l)
local_import-pending (Steps.answered env key made s reply) l = absurd (false≢true l)

pub import_ends :
    (env : Old.Env) (key : Text) (made : Old.State) (reply : Settled CreatedOrder) (s : Old.State)
    (b : Bool)
    → ((Import.settle env key made reply s).0.pending ≡ false)
      × (told_busy b (Import.settle env key made reply s).1 ≡ false)
unfolding Import.settle Old.failure_event
import_ends env key made (fulfilled order) s b = (refl, refl)
import_ends env key made (rejected reason) s b = (refl, simp effect_laws)
