-- ===== src/AdminOrder/View/Waiting.antt =====
-- What an order's page offers while a call is on its way.
use radif.Prelude.{
  Bool-cases, Option-cases, Text, ◌≡◌, refl, ◌∙◌, ap, subst, inl, inr, Bool, true, false, List, [],
  ◌∷◌,
}
use radif.AdminOrder.State.{Saving, init}
use radif.AdminOrder.Calls.{Call, Page, Reach}
use radif.AdminOrder.Serial.{IsSerial, is_saving-mark, Reach-IsSerial}
use radif.AdminOrder.View.Sections.{view}
use radif.Shared.Drawing.{offers, Display}
use radif.AdminOrder.State.{State}
use radif.AdminOrder.Save.{is_saving}
use radif.AdminOrder.View.Handlers.{Handler, changes_order}
use radif.AdminOrder.View.Offers.{offers-admin_view}

serial_saving :
    (saving : Saving) (c : Call) (rest : List Call)
    → IsSerial saving (c ∷ rest)
    → is_saving saving ≡ true
unfolding IsSerial
serial_saving saving c [] i = ap is_saving i ∙ is_saving-mark c
serial_saving saving c (_ ∷ _) i = absurd i

saving-offers :
    (p : Handler → Bool) (d : Display) (query : Text) (share : Bool) (s : State)
    → ((a : Handler) → changes_order a ≡ false → p a ≡ false)
    → is_saving s.saving ≡ true
    → offers p (view d query share s) ≡ false
unfolding view offers
saving-offers p d query share s plain busy = elim (Bool-cases s.loading) [
  | inl loading ↦ rw loading refl
  | inr loaded ↦ elim (Option-cases s.order) [
    | inl e ↦ rw (loaded, e) refl
    | inr (o, e) ↦ offers-admin_view p d query share s o plain loaded e ∙ rw busy refl
  ]
]

-- However the page is used and in whatever order the answers come: while a call that changes the order
-- is unanswered, the page offers no button that makes another one.
pub Reach-offers :
    (p : Handler → Bool) (d : Display) (query : Text) (share : Bool) {page : Page} {c : Call}
    {rest : List Call}
    → ((a : Handler) → changes_order a ≡ false → p a ≡ false)
    → Reach (record { state = init; calls = [] }) page
    → page.calls ≡ c ∷ rest
    → offers p (view d query share page.state) ≡ false
Reach-offers p d query share {page} {c} {rest} plain r e =
    saving-offers p d query share page.state plain (
      serial_saving page.state.saving c rest
        (subst (IsSerial page.state.saving) e (Reach-IsSerial r)))
