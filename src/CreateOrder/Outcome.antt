-- ===== src/CreateOrder/Outcome.antt =====
-- How a sent form ends.
use radif.Prelude.{
  String, Option, text_eq_refl, ◌≡◌, refl, Bool, true, false, none, some, ◌∷◌, arith,
}
use radif.Shared.Api.{
  Body, Request, Value, json, call, Settled, busy_change, fulfilled, rejected, Thrown,
}
use radif.Shared.Types.{CreatedOrder}
use radif.CreateOrder.State.{State}
use radif.Shared.Effects.{told_busy, removes, effect_laws}
use radif.CreateOrder.Submit.{
  Page, Env, problem, begin, show_created, end_submit, fail_submit, settle, submit, create_key_slot,
  create_request, copy_message, copy_created,
}

submit_sent :
    (page : Page) (env : Env) (reply : Settled CreatedOrder) (meanwhile : State → State) (s : State)
    → problem env.today s ≡ none
    → submit page env reply meanwhile s ≡ (
        let (t, effects) = settle page env s reply (meanwhile (begin s)) in
        (t, busy_change true ∷ call (create_request page env s) ∷ effects))
unfolding submit
submit_sent page env reply meanwhile s e = rw (e, submit)

pub end_ends :
    (page : Page) (env : Env) (made : State) (order : CreatedOrder) (s : State) (b : Bool)
    → ((end_submit page env made order s).0.pending ≡ false)
      × (told_busy b (end_submit page env made order s).1 ≡ false)
unfolding end_submit
end_ends page env made order s b = (refl, simp effect_laws)

pub fail_ends :
    (page : Page) (env : Env) (made : State) (reason : Thrown) (s : State) (b : Bool)
    → ((fail_submit page env made reason s).0.pending ≡ false)
      × (told_busy b (fail_submit page env made reason s).1 ≡ false)
unfolding fail_submit
fail_ends page env made reason s b = (refl, simp effect_laws)

settle_ends :
    (page : Page) (env : Env) (made : State) (reply : Settled CreatedOrder) (s : State) (b : Bool)
    → ((settle page env made reply s).0.pending ≡ false)
      × (told_busy b (settle page env made reply s).1 ≡ false)
unfolding settle show_created
settle_ends page env made (fulfilled order) s b =
    end_ends page env made order (record s { created = some order }) b
settle_ends page env made (rejected reason) s b = fail_ends page env made reason s b

-- The first field of the body of a request.
abbrev pub first_of : Body → Option (String × Value)
first_of (json (field ∷ fields)) = some field
first_of _ = none

abbrev pub first_field : Request → Option (String × Value)
first_field r = first_of r.body

settle_made :
    (page : Page) (env : Env) (made : State) (order : CreatedOrder) (s : State)
    → (removes (create_key_slot page) (settle page env made (fulfilled order) s).1 ≡ true)
      × ((settle page env made (fulfilled order) s).0.created ≡ some order)
unfolding settle show_created end_submit copy_created copy_message
settle_made page env made order s = (rw (text_eq_refl (create_key_slot page)), ground arith)

-- However the call settles and whatever happens before that, a form without a problem that was
-- sent is not pending at the end, and the surrounding page was told last that it is not busy.
pub submit_ends :
    (page : Page) (env : Env) (reply : Settled CreatedOrder) (meanwhile : State → State) (s : State)
    → problem env.today s ≡ none
    → ((submit page env reply meanwhile s).0.pending ≡ false)
      × (told_busy false (submit page env reply meanwhile s).1 ≡ false)
submit_ends page env reply meanwhile s e =
    rw (submit_sent page env reply meanwhile s e)
      (settle_ends page env s reply (meanwhile (begin s)) true)

-- Where the call for a form without a problem succeeds, the page's key is removed from the
-- session's storage, and the server's order is shown.
pub submit_made :
    (page : Page) (env : Env) (order : CreatedOrder) (meanwhile : State → State) (s : State)
    → problem env.today s ≡ none
    → let (t, effects) = submit page env (fulfilled order) meanwhile s in
      (removes (create_key_slot page) effects ≡ true) × (t.created ≡ some order)
submit_made page env order meanwhile s e =
    rw (submit_sent page env (fulfilled order) meanwhile s e)
      (settle_made page env s order (meanwhile (begin s)))
