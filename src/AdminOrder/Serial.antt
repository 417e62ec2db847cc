-- ===== src/AdminOrder/Serial.antt =====
-- No two of the calls that change an order are on their way at once.
use radif.Prelude.{◌≡◌, refl, sym, ◌∙◌, ap, subst, Bool, true, false, List, [], ◌∷◌, ◌++◌, arith}
use mathlib.Core.Bool.{false≢true}
use radif.Shared.Types.{AdminOrder, Shop}
use radif.Shared.Api.{Settled, fulfilled, rejected, abort_error, api_error, error, no_error}
use radif.AdminOrder.State.{
  State, Saving, nothing, init, load, set_load_error, show_order, loaded, cancel_customer_edit,
  cancel_internal_edit,
}
use radif.AdminOrder.Save.{
  Section, status_section, date_section, tracking_section, customer_section, internal_section,
  saving_of, settle_changes, is_saving, status_disabled, date_disabled, tracking_disabled,
}
use radif.AdminOrder.Payment.{
  Env, copy_final_message, copy_order_message, share_order_message, request_disabled,
  confirm_disabled,
}
use radif.AdminOrder.Actions.{settle_link_ends, settle_request_ends, settle_confirm_ends}
use radif.AdminOrder.Fields.{Edit, close_customer, close_internal, edit}
use radif.AdminOrder.Calls.{
  Call, save, rotate, ask_final, accept_final, mark, is_enabled, begin, Page, Step, load_began,
  load_ended, edited, refused, message_copied, message_shared, final_copied, began, saved, rotated,
  asked, accepted, Reach, here, next,
}

-- At most one call has not been answered, and the page marks it as the one that is being saved.
unfoldable pub IsSerial : Saving → List Call → Type 0
IsSerial saving [] = saving ≡ nothing
IsSerial saving (c ∷ []) = saving ≡ mark c
IsSerial saving (_ ∷ _ ∷ _) = ⊥

is_saving-saving_of : (section : Section) → is_saving (saving_of section) ≡ true
unfolding is_saving saving_of
is_saving-saving_of (status_section _) = refl
is_saving-saving_of (date_section _) = refl
is_saving-saving_of (tracking_section _) = refl
is_saving-saving_of (customer_section _) = refl
is_saving-saving_of (internal_section _ _ _) = refl

pub is_saving-mark : (c : Call) → is_saving (mark c) ≡ true
unfolding is_saving mark
is_saving-mark (save section) = is_saving-saving_of section
is_saving-mark rotate = refl
is_saving-mark ask_final = refl
is_saving-mark accept_final = refl

enabled_idle :
    (c : Call) (s : State) (o : AdminOrder) → is_enabled c s o ≡ true → is_saving s.saving ≡ false
unfolding is_enabled status_disabled date_disabled tracking_disabled request_disabled
    confirm_disabled
enabled_idle (save (status_section _)) s o h = ground (arith, h)
enabled_idle (save (date_section _)) s o h = ground (arith, h)
enabled_idle (save (tracking_section _)) s o h = ground (arith, h)
enabled_idle (save (customer_section _)) s o h = ground (arith, h)
enabled_idle (save (internal_section _ _ _)) s o h = ground (arith, h)
enabled_idle rotate s o h = ground (arith, h)
enabled_idle ask_final s o h = ground (arith, h)
enabled_idle accept_final s o h = ground (arith, h)

-- Where nothing is saved, no call is on its way.
idle_calls :
    (saving : Saving) (calls : List Call)
    → IsSerial saving calls
    → is_saving saving ≡ false
    → calls ≡ []
unfolding IsSerial
idle_calls saving [] i h = refl
idle_calls saving (c ∷ []) i h = absurd (false≢true (sym h ∙ ap is_saving i ∙ is_saving-mark c))
idle_calls saving (_ ∷ _ ∷ _) i h = absurd i

-- An answer is that of the only call.
last_answer :
    (saving : Saving) (calls : List Call) (c : Call) (before after : List Call)
    → calls ≡ before ++ c ∷ after
    → IsSerial saving calls
    → before ++ after ≡ []
unfolding IsSerial
last_answer saving calls c before after e i = go before after (subst (IsSerial saving) e i)
  where
    go : (b a : List Call) → IsSerial saving (b ++ c ∷ a) → b ++ a ≡ []
    go [] [] j = refl
    go [] (_ ∷ _) j = absurd j
    go (_ ∷ []) a j = absurd j
    go (_ ∷ _ ∷ b) a j = absurd j

-- What does not touch the mark.
loaded-saving :
    (reply : Settled AdminOrder) (aborted : Bool) (s : State)
    → (loaded reply aborted s).saving ≡ s.saving
unfolding loaded show_order set_load_error
loaded-saving (fulfilled o) aborted s = refl
loaded-saving (rejected (abort_error m)) aborted s = refl
loaded-saving (rejected (api_error c m)) aborted s = refl
loaded-saving (rejected (error m)) aborted s = refl
loaded-saving (rejected no_error) aborted s = refl

edit-saving : (e : Edit) (s : State) → (edit e s).saving ≡ s.saving
unfolding edit cancel_customer_edit cancel_internal_edit
edit-saving close_customer s = ground arith
edit-saving close_internal s = ground arith
edit-saving _ s = refl

copy_order_message-saving :
    (env : Env) (shops : List Shop) (s : State)
    → (copy_order_message env shops s).0.saving ≡ s.saving
unfolding copy_order_message
copy_order_message-saving env shops s = ground arith

share_order_message-saving :
    (env : Env) (shops : List Shop) (reply : Settled (Unit {0})) (s : State)
    → (share_order_message env shops reply s).0.saving ≡ s.saving
unfolding share_order_message
share_order_message-saving env shops reply s = ground (arith, copy_order_message-saving env shops s)

copy_final_message-saving :
    (env : Env) (o : AdminOrder) (s : State) → (copy_final_message env o s).0.saving ≡ s.saving
unfolding copy_final_message
copy_final_message-saving env o s = ground arith

begin-saving : (c : Call) (s : State) → (begin c s).saving ≡ mark c
unfolding begin mark
begin-saving (save section) s = refl
begin-saving rotate s = refl
begin-saving ask_final s = refl
begin-saving accept_final s = refl

settle_changes-saving :
    (section : Section) (reply : Settled AdminOrder) (s : State)
    → (settle_changes section reply s).saving ≡ nothing
unfolding settle_changes
settle_changes-saving section (fulfilled o) s = refl
settle_changes-saving section (rejected reason) s = refl

same : {a b : Saving} (calls : List Call) → b ≡ a → IsSerial a calls → IsSerial b calls
same calls e i = subst (λ saving. IsSerial saving calls) (sym e) i

answered :
    (a : Saving) {b : Saving} {calls : List Call} (c : Call) (before after : List Call)
    → b ≡ nothing
    → calls ≡ before ++ c ∷ after
    → IsSerial a calls
    → IsSerial b (before ++ after)
unfolding IsSerial
answered a {b} {calls} c before after n e i =
    subst (IsSerial b) (sym (last_answer a calls c before after e i)) n

Step-IsSerial :
    {p q : Page} → Step p q → IsSerial p.state.saving p.calls → IsSerial q.state.saving q.calls
unfolding load IsSerial
Step-IsSerial (load_began p) i = i
Step-IsSerial (load_ended p reply aborted) i = same p.calls (loaded-saving reply aborted p.state) i
Step-IsSerial (edited p e) i = same p.calls (edit-saving e p.state) i
Step-IsSerial (refused p message) i = i
Step-IsSerial (message_copied p env shops) i =
    same p.calls (copy_order_message-saving env shops p.state) i
Step-IsSerial (message_shared p env shops reply) i =
    same p.calls (share_order_message-saving env shops reply p.state) i
Step-IsSerial (final_copied p env o) i = same p.calls (copy_final_message-saving env o p.state) i
Step-IsSerial (began p c o shown enabled) i =
    subst (λ calls. IsSerial (begin c p.state).saving (c ∷ calls))
      (sym (idle_calls p.state.saving p.calls i (enabled_idle c p.state o enabled)))
      (begin-saving c p.state)
Step-IsSerial (saved p section reply before after e) i =
    answered p.state.saving (save section) before after
      (settle_changes-saving section reply p.state) e i
Step-IsSerial (rotated p reply before after e) i =
    answered p.state.saving rotate before after (settle_link_ends reply p.state) e i
Step-IsSerial (asked p env reply before after e) i =
    answered p.state.saving ask_final before after (settle_request_ends env reply p.state) e i
Step-IsSerial (accepted p reply before after e) i =
    answered p.state.saving accept_final before after (settle_confirm_ends reply p.state) e i

pub Reach-IsSerial :
    {p : Page} → Reach (record { state = init; calls = [] }) p → IsSerial p.state.saving p.calls
unfolding init IsSerial
Reach-IsSerial here = refl
Reach-IsSerial (next r step) = Step-IsSerial step (Reach-IsSerial r)
