-- ===== src/AdminOrder/Calls.antt =====
-- The calls of an order's page that change the order (web/src/pages/AdminOrderPage.tsx), and everything
-- else that happens to it.
use radif.Prelude.{Text, ◌≡◌, Bool, true, false, not, some, List, [], ◌∷◌, ◌++◌}
use radif.Shared.Types.{AdminOrder, Shop}
use radif.Shared.Api.{Settled}
use radif.AdminOrder.State.{State, Saving, link, request_final, confirm_final, load, loaded}
use radif.AdminOrder.Save.{
  Section, status_section, date_section, tracking_section, customer_section, internal_section,
  saving_of, settle_changes, is_saving, status_disabled, date_disabled, tracking_disabled,
}
use radif.AdminOrder.Payment.{
  Env, copy_final_message, copy_order_message, share_order_message, settle_link, settle_request,
  settle_confirm, request_disabled, confirm_disabled,
}
use radif.AdminOrder.Fields.{Edit, edit}

pub data Call : Type 0 where
  save : Section → Call
  rotate ask_final accept_final : Call

unfoldable pub mark : Call → Saving
mark (save section) = saving_of section
mark rotate = link
mark ask_final = request_final
mark accept_final = confirm_final

-- Whether the button of a call can be pressed.
unfoldable pub is_enabled : Call → State → AdminOrder → Bool
is_enabled (save (status_section _)) s o = not (status_disabled s o)
is_enabled (save (date_section _)) s o = not (date_disabled s o)
is_enabled (save (tracking_section _)) s o = not (tracking_disabled s o)
is_enabled (save (customer_section _)) s o = not (is_saving s.saving)
is_enabled (save (internal_section _ _ _)) s o = not (is_saving s.saving)
is_enabled rotate s o = not (is_saving s.saving)
is_enabled ask_final s o = not (request_disabled s o)
is_enabled accept_final s o = not (confirm_disabled s o)

-- A handler up to its call.
unfoldable pub begin : Call → State → State
begin (save section) s = record s { saving = saving_of section; error = [] }
begin rotate s = record s { saving = link; error = []; link_rotated = false }
begin ask_final s = record s { saving = request_final; error = [] }
begin accept_final s = record s { saving = confirm_final; error = [] }

-- The page, with the calls that have not been answered yet.
pub record Page : Type 0 where
  pub state : State
  pub calls : List Call

pub data Step : Page → Page → Type 0 where
  load_began : (p : Page) → Step p (record p { state = load p.state })
  load_ended :
      (p : Page) (reply : Settled AdminOrder) (aborted : Bool)
      → Step p (record p { state = loaded reply aborted p.state })
  edited : (p : Page) (e : Edit) → Step p (record p { state = edit e p.state })
  refused :
      (p : Page) (message : Text) → Step p (record p { state = record p.state { error = message } })
  message_copied :
      (p : Page) (env : Env) (shops : List Shop)
      → Step p (record p { state = (copy_order_message env shops p.state).0 })
  message_shared :
      (p : Page) (env : Env) (shops : List Shop) (reply : Settled (Unit {0}))
      → Step p (record p { state = (share_order_message env shops reply p.state).0 })
  final_copied :
      (p : Page) (env : Env) (o : AdminOrder)
      → Step p (record p { state = (copy_final_message env o p.state).0 })
  began :
      (p : Page) (c : Call) (o : AdminOrder)
      → p.state.order ≡ some o
      → is_enabled c p.state o ≡ true
      → Step p (record { state = begin c p.state; calls = c ∷ p.calls })
  -- the answers, which may come in any order
  saved :
      (p : Page) (section : Section) (reply : Settled AdminOrder) (before after : List Call)
      → p.calls ≡ before ++ save section ∷ after
      → Step p (record { state = settle_changes section reply p.state; calls = before ++ after })
  rotated :
      (p : Page) (reply : Settled Text) (before after : List Call)
      → p.calls ≡ before ++ rotate ∷ after
      → Step p (record { state = settle_link reply p.state; calls = before ++ after })
  asked :
      (p : Page) (env : Env) (reply : Settled AdminOrder) (before after : List Call)
      → p.calls ≡ before ++ ask_final ∷ after
      → Step p (record { state = (settle_request env reply p.state).0; calls = before ++ after })
  accepted :
      (p : Page) (reply : Settled AdminOrder) (before after : List Call)
      → p.calls ≡ before ++ accept_final ∷ after
      → Step p (record { state = settle_confirm reply p.state; calls = before ++ after })

pub data Reach (p : Page) : Page → Type 0 where
  here : Reach p p
  next : {q r : Page} → Reach p q → Step q r → Reach p r
