-- ===== src/AdminOrder/Laws.antt =====
-- What the page keeps in step with the server's order, and which calls it makes.
use radif.Prelude.{
  text, text_eq_refl, ◌≡◌, refl, Bool, true, false, not, ◌&&◌, some, [], ◌∷◌, arith,
}
use radif.Shared.Types.{AdminOrder}
use radif.Shared.Api.{call, Settled, fulfilled}
use radif.AdminOrder.State.{State, nothing, customer_of, show_order}
use radif.AdminOrder.Save.{
  Section, status_section, is_split, saving_of, asks_before_shipping, close_editor, settle_changes,
  changes_request, save_changes,
}

-- The fields of the forms are those of the order that is shown.
pub record InStep (s : State) (o : AdminOrder) : Type 0 where
  pub shown : s.order ≡ some o
  pub date : s.date ≡ o.estimated_delivery_date
  pub status : s.status ≡ o.status
  pub tracking : s.tracking ≡ o.shipment_tracking_code
  pub customer : s.customer ≡ customer_of o
  pub channel : s.sales_channel ≡ o.sales_channel
  pub reference : s.conversation_reference ≡ o.conversation_reference
  pub note : s.internal_note ≡ o.internal_note

save_changes_sent :
    (section : Section) (confirmed : Bool) (o : AdminOrder) (reply : Settled AdminOrder)
    (meanwhile : State → State) (s : State)
    → s.order ≡ some o
    → (asks_before_shipping section o && not confirmed) ≡ false
    → save_changes section confirmed reply meanwhile s ≡ (
      settle_changes section reply
          (meanwhile (record s { saving = saving_of section; error = [] })),
      call (changes_request o section) ∷ [],
    )
unfolding save_changes
save_changes_sent section confirmed o reply meanwhile s e c = rw (e, c)

settle_changes-InStep :
    (section : Section) (answer : AdminOrder) (s : State)
    → InStep (settle_changes section (fulfilled answer) s) answer
      × ((settle_changes section (fulfilled answer) s).saving ≡ nothing)
unfolding settle_changes close_editor show_order
settle_changes-InStep (status_section _) answer s = ground arith
settle_changes-InStep _ answer s = ground arith

-- When the answer of a saved section of the shown order comes, where the question before shipping
-- was not asked or was answered with yes, every form shows the server's order, whatever was typed
-- in the meantime, nothing is being saved any more, and one call was made.
pub save_changes-InStep :
    (section : Section) (confirmed : Bool) (o answer : AdminOrder) (meanwhile : State → State)
    (s : State)
    → s.order ≡ some o
    → (asks_before_shipping section o && not confirmed) ≡ false
    → let (t, effects) = save_changes section confirmed (fulfilled answer) meanwhile s in
      InStep t answer × (t.saving ≡ nothing) × (effects ≡ call (changes_request o section) ∷ [])
save_changes-InStep section confirmed o answer meanwhile s e c =
    let (steps, saved) = settle_changes-InStep section answer _ in
    rw (save_changes_sent section confirmed o (fulfilled answer) meanwhile s e c)
      (steps, saved, refl)

-- A split order whose final payment is not confirmed is marked as shipped only after the shop has
-- confirmed that: otherwise no call is made and nothing changes.
pub save_changes_unconfirmed :
    (o : AdminOrder) (reply : Settled AdminOrder) (meanwhile : State → State) (s : State)
    → s.order ≡ some o
    → is_split o ≡ true
    → o.final_payment_confirmed ≡ false
    → save_changes (status_section (text "shipped")) false reply meanwhile s ≡ (s, [])
unfolding save_changes asks_before_shipping
save_changes_unconfirmed o reply meanwhile s e p f = rw (e, p, f, text_eq_refl (text "shipped"))
