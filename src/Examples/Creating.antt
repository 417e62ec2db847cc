-- ===== src/Examples/Creating.antt =====
-- A new order, and one that was made elsewhere.
use mathlib.Core.Bool.{false≢true}
use radif.Prelude.{sym, text, text_lt, number, ◌≡◌, refl, ◌↔◌, true, false, none, some, [], ◌∷◌}
use radif.Shared.Api.{fulfilled, rejected, error}
use radif.Shared.Effects.{calls, signals, posted, told_busy, removes}
use radif.Shared.Types.{SalesChannel}
use radif.CreateOrder.State.{State, init}
use radif.CreateOrder.Submit.{Page, Env, problem, submit, create_key_slot}
use radif.CreateOrder.Validation.{
  IsReady, problem_iff, with_message, failure_signal, submit_refused,
}
use radif.CreateOrder.Outcome.{submit_ends, submit_made}
use radif.Examples.Data.{cup, created, formats, signal}

abbrev page : Page
page = record { shop_id = 5; shop_name = text "gallery"; template = none; formats = formats }

abbrev env : Env
env = record {
  today = text "2026-11-26";
  event_key = text "e-1";
  elapsed = 42000;
  write_text = some true;
  reserved = none;
  copy_recorded = fulfilled tt;
  signal = signal;
}

abbrev fresh : State
fresh = init SalesChannel.instagram (text "key-1") 0

abbrev filled : State
filled = record fresh {
  items = record { product = cup; quantity = 2 } ∷ [];
  amount = text "500000";
  delivery_date = text "2026-12-01";
}

no_problem : problem env.today filled ≡ none
unfolding problem text text_lt number init
no_problem = refl

problem_iff_example : (problem env.today filled ≡ none) ↔ IsReady env.today filled
problem_iff_example = problem_iff env.today filled

fresh-unready : ¬ IsReady env.today fresh
unfolding init
fresh-unready ready = false≢true (sym ready.has_items)

submit_refused_example :
    ((submit page env (fulfilled created) (λ s. s) fresh).0 ≡ with_message fresh)
    × (calls (submit page env (fulfilled created) (λ s. s) fresh).1 ≡ [])
    × (signals (submit page env (fulfilled created) (λ s. s) fresh).1
        ≡ posted env.signal (failure_signal page env fresh.create_key (text "client_validation")))
submit_refused_example = submit_refused page env (fulfilled created) (λ s. s) fresh fresh-unready

submit_ends_example :
    ((submit page env (rejected (error (text "offline"))) (λ s. s) filled).0.pending ≡ false)
    × (told_busy false (submit page env (rejected (error (text "offline"))) (λ s. s) filled).1
        ≡ false)
submit_ends_example =
    submit_ends page env (rejected (error (text "offline"))) (λ s. s) filled no_problem

submit_made_example :
    let (t, effects) = submit page env (fulfilled created) (λ s. s) filled in
    (removes (create_key_slot page) effects ≡ true) × (t.created ≡ some created)
submit_made_example = submit_made page env created (λ s. s) filled no_problem
