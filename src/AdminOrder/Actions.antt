-- ===== src/AdminOrder/Actions.antt =====
-- The actions on an order that ask before they call.
use radif.Prelude.{Text, ◌≡◌, refl, ◌⊎◌, inl, inr, true, false, [], arith}
use radif.Shared.Types.{AdminOrder}
use radif.Shared.Api.{Settled, fulfilled, rejected}
use radif.AdminOrder.State.{State, nothing}
use radif.AdminOrder.Save.{is_saving}
use radif.AdminOrder.Payment.{
  Env, settle_link, rotate_customer_link, settle_request, request_final_payment, settle_confirm,
  confirm_final_payment,
}

-- While something is being saved, or where the question is answered with no, neither the rotation
-- of the link nor the request or the confirmation of the final payment changes anything or makes a
-- call.
pub actions_ignored :
    (env : Env) (url : Settled Text) (reply : Settled AdminOrder) (meanwhile : State → State)
    (s : State)
    → (is_saving s.saving ≡ true) ⊎ (env.confirmed ≡ false)
    → (rotate_customer_link env.confirmed url meanwhile s ≡ (s, []))
      × (request_final_payment env reply meanwhile s ≡ (s, []))
      × (confirm_final_payment env.confirmed reply meanwhile s ≡ (s, []))
unfolding rotate_customer_link request_final_payment confirm_final_payment
actions_ignored env url reply meanwhile s (inl h) = (ground arith, ground arith, ground arith)
actions_ignored env url reply meanwhile s (inr h) = (ground arith, ground arith, ground arith)

pub settle_link_ends : (url : Settled Text) (s : State) → (settle_link url s).saving ≡ nothing
unfolding settle_link
settle_link_ends (fulfilled url) s = refl
settle_link_ends (rejected reason) s = refl

pub settle_request_ends :
    (env : Env) (reply : Settled AdminOrder) (s : State)
    → (settle_request env reply s).0.saving ≡ nothing
unfolding settle_request
settle_request_ends env (fulfilled o) s = refl
settle_request_ends env (rejected reason) s = refl

pub settle_confirm_ends :
    (reply : Settled AdminOrder) (s : State) → (settle_confirm reply s).saving ≡ nothing
unfolding settle_confirm
settle_confirm_ends (fulfilled o) s = refl
settle_confirm_ends (rejected reason) s = refl
