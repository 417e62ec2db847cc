-- ===== src/Examples/Ordering.antt =====
-- A customer's order.
use radif.Prelude.{text, trim, ◌≡◌, refl, inl, ◌⊎◌, true, false, some, [], ◌∷◌}
use radif.Shared.Api.{fulfilled, rejected, error, message_or}
use radif.Shared.Effects.{calls, removes}
use radif.Shared.Messages.{details_not_saved}
use radif.PublicOrder.State.{State, init}
use radif.PublicOrder.Submit.{Link, Env, draft_slot, submit_details}
use radif.PublicOrder.Details.{
  normal_details, IsComplete, sent_state, submit_details_ready, submit_details_failed,
}
use radif.Shared.Digits.{normalize_digits, normalize_iranian_mobile, is_mobile, is_postal_code}
use radif.Examples.Data.{draft, picture, public_order, signal}

abbrev link : Link
link = record { token = text "abc"; encoded = text "abc" }

abbrev env : Env
env = record { event_key = text "e-1"; signal = signal }

abbrev opened : State
opened = record (init draft) { order = some public_order; loading = false }

abbrev filled : State
filled = record opened { receipt = some picture }

draft-IsComplete : IsComplete draft
unfolding trim normalize_digits normalize_iranian_mobile is_mobile text
draft-IsComplete = record { named = refl; reachable = refl; addressed = refl; coded = inl refl }

submit_details_ready_example :
    let (t, effects) = submit_details link env (fulfilled public_order) (λ s. s) filled in
    (calls effects ≡ normal_details link draft picture ∷ [])
    × (is_mobile (normalize_iranian_mobile draft.mobile) ≡ true)
    × ((normalize_digits draft.postal_code ≡ [])
        ⊎ (is_postal_code (normalize_digits draft.postal_code) ≡ true))
    × (t.pending ≡ false)
unfolding init
submit_details_ready_example =
    submit_details_ready link env (fulfilled public_order) (λ s. s) filled picture refl
      draft-IsComplete

submit_details_failed_example :
    let (t, effects) =
      submit_details link env (rejected (error (text "offline"))) (λ s. s) filled in
    (removes (draft_slot link) effects ≡ false)
    × (t.draft ≡ (sent_state filled).draft)
    × (t.receipt ≡ (sent_state filled).receipt)
    × (t.error ≡ message_or (error (text "offline")) details_not_saved)
unfolding init
submit_details_failed_example =
    submit_details_failed link env (error (text "offline")) (λ s. s) filled picture refl
      draft-IsComplete
