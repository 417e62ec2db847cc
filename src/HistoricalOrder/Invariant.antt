-- ===== src/HistoricalOrder/Invariant.antt =====
-- What holds of the form of an order made elsewhere after any sequence of events, and what it
-- sends.
use radif.Prelude.{
  Bool-cases, is_empty, All, text_eq, decimal-IsDigit, Text, IsDigit, ℕ, ◌≡◌, refl, sym, ◌∙◌, ap,
  subst, ◌⊎◌, inl, inr, true, false, not, ◌&&◌, ◌||◌, Option, none, some, List, arith,
}
use mathlib.Core.Bool.{false≢true}
use radif.Shared.Types.{Product, CreatedOrder, SalesChannel}
use radif.Shared.Api.{File, Settled, fulfilled, rejected}
use radif.Shared.Digits.{is_mobile, is_postal_code}
use radif.Shared.Digits.Laws.{normalize_digits-IsDigit}
use radif.Components.ProductChoices.{
  SelectedOrderItem, items_total, toggle, Change, change_quantity,
}
use radif.Components.ProductChoices.Invariant.{IsChoice, toggle-IsChoice, change_quantity-IsChoice}
use radif.Components.ReceiptPicker.{Told, change, busy}
use radif.HistoricalOrder.State.{
  State, Customer, Env, init, Problem, problem, update_items, open_review, reset,
}
use radif.HistoricalOrder.Submit.{settle}
use radif.HistoricalOrder.Laws.{open_review_ready}
use radif.HistoricalOrder.Fields.{
  load_products, products_loaded, Edit, edit, hear, back, submit_disabled, begin, type_amount,
}

-- What has been reviewed: a form without a problem, whose mobile number and postal code are normal.
pub record IsReady (s : State) : Type 0 where
  pub no_problem : problem s ≡ none
  pub mobile : is_mobile s.customer.mobile ≡ true
  pub postal_code :
      (is_empty s.customer.postal_code || is_postal_code s.customer.postal_code) ≡ true

pub record IsValid (s : State) : Type 0 where
  pub amount_digits : All IsDigit s.amount
  pub choice : IsChoice s.items
  pub reviewed : s.reviewing ≡ true → IsReady s

-- The events. The fields are drawn only while nothing is reviewed; a picture that was picked before
-- may still come then.
pub data Step : State → State → Type 0 where
  products_asked : (s : State) → Step s (load_products s)
  products_came : (s : State) (reply : Settled (List Product)) → Step s (products_loaded reply s)
  edited : (s : State) (e : Edit) → s.reviewing ≡ false → Step s (edit e s)
  toggled :
      (env : Env) (s : State) (product : Product)
      → s.reviewing ≡ false
      → Step s (update_items env (toggle product s.items) s).0
  quantity_changed :
      (env : Env) (s : State) (id : ℕ) (how : Change)
      → s.reviewing ≡ false
      → Step s (update_items env (change_quantity id how s.items) s).0
  picker_told : (s : State) (told : Told) → s.reviewing ≡ false → Step s (hear told s)
  picture_came : (s : State) (file : File) → Step s (hear (change (some file)) s)
  picture_done : (s : State) → Step s (hear (busy false) s)
  review_asked : (env : Env) (s : State) → s.reviewing ≡ false → Step s (open_review env s).0
  went_back : (s : State) → Step s (back s)
  sent : (s : State) → s.reviewing ≡ true → submit_disabled s ≡ false → Step s (begin s)
  answered :
      (env : Env) (key : Text) (made s : State) (reply : Settled CreatedOrder)
      → Step s (settle env key made reply s).0

pub data Reach (s : State) : State → Type 0 where
  here : Reach s s
  next : {t u : State} → Reach s t → Step t u → Reach s u

-- A form that is not reviewed.
unreviewed : {s : State} → All IsDigit s.amount → IsChoice s.items → s.reviewing ≡ false → IsValid s
unreviewed a c r = record {
  amount_digits = a;
  choice = c;
  reviewed = λ h. absurd (false≢true (sym r ∙ h));
}

edit-reviewing : (e : Edit) (s : State) → (edit e s).reviewing ≡ s.reviewing
unfolding edit
edit-reviewing e s = ground arith

edit-IsValid : (e : Edit) (s : State) → s.reviewing ≡ false → IsValid s → IsValid (edit e s)
unfolding edit
edit-IsValid (type_amount typed) s r v = unreviewed (normalize_digits-IsDigit typed) v.choice r
edit-IsValid _ s r v = unreviewed v.amount_digits v.choice r

update_items-IsValid :
    (env : Env) (chosen : List SelectedOrderItem) (s : State)
    → IsChoice chosen
    → s.reviewing ≡ false
    → IsValid (update_items env chosen s).0
unfolding update_items
update_items-IsValid env chosen s c r =
    elim (Bool-cases (not (is_empty chosen) && not (text_eq s.started_key s.create_key))) [
      | inl starts ↦ rw starts (unreviewed (decimal-IsDigit (items_total chosen)) c r)
      | inr goes_on ↦ rw goes_on (unreviewed (decimal-IsDigit (items_total chosen)) c r)
    ]

-- A picture that comes takes no problem in.
picture-problem :
    (s : State) (file : File) → problem s ≡ none → problem (hear (change (some file)) s) ≡ none
unfolding hear problem
picture-problem s file h = ground (arith, h)

done-problem : (s : State) → problem s ≡ none → problem (hear (busy false) s) ≡ none
unfolding hear problem
done-problem s h = ground (arith, h)

-- A state that is reviewed as another one is.
carried :
    {s t : State}
    → (problem s ≡ none → problem t ≡ none)
    → t.customer ≡ s.customer
    → t.items ≡ s.items
    → t.amount ≡ s.amount
    → t.reviewing ≡ s.reviewing
    → IsValid s
    → IsValid t
carried {s} {t} p c i a r v = record {
  amount_digits = subst (All IsDigit) (sym a) v.amount_digits;
  choice = subst IsChoice (sym i) v.choice;
  reviewed = λ h.
      let ready = v.reviewed (sym r ∙ h) in
      record {
        no_problem = p ready.no_problem;
        mobile = ap (λ (k : Customer). is_mobile k.mobile) c ∙ ready.mobile;
        postal_code =
            ap (λ (k : Customer). is_empty k.postal_code || is_postal_code k.postal_code) c
            ∙ ready.postal_code;
      };
}

postal_or :
    (t : Text)
    → (is_empty t ≡ true) ⊎ (is_postal_code t ≡ true)
    → (is_empty t || is_postal_code t) ≡ true
postal_or t (inl h) = ground (arith, h)
postal_or t (inr h) = ground (arith, h)

open_review-keeps :
    (env : Env) (s : State)
    → ((open_review env s).0.amount ≡ s.amount) × ((open_review env s).0.items ≡ s.items)
unfolding open_review
open_review-keeps env s = (ground arith, ground arith)

open_review-IsValid :
    (env : Env) (s : State) → s.reviewing ≡ false → IsValid s → IsValid (open_review env s).0
unfolding open_review
open_review-IsValid env s r v = go (problem s) refl
  where
    go : (q : Option Problem) → problem s ≡ q → IsValid (open_review env s).0
    go (some p) h = rw (h, open_review) (unreviewed v.amount_digits v.choice r)
    go none h =
        let (ready, mobile, postal) = open_review_ready env s h in
        record {
          amount_digits = subst (All IsDigit) (sym (open_review-keeps env s).0) v.amount_digits;
          choice = subst IsChoice (sym (open_review-keeps env s).1) v.choice;
          reviewed = λ k. record {
            no_problem = ready;
            mobile = mobile;
            postal_code = postal_or (open_review env s).0.customer.postal_code postal;
          };
        }

settle-IsValid :
    (env : Env) (key : Text) (made s : State) (reply : Settled CreatedOrder)
    → IsValid s
    → IsValid (settle env key made reply s).0
unfolding settle reset problem
settle-IsValid env key made s (fulfilled order) v = unreviewed tt tt refl
settle-IsValid env key made s (rejected reason) v = carried (λ h. h) refl refl refl refl v

Step-IsValid : {s t : State} → Step s t → IsValid s → IsValid t
unfolding load_products products_loaded hear back begin problem
Step-IsValid (products_asked s) v = carried (λ h. h) refl refl refl refl v
Step-IsValid (products_came s (fulfilled products)) v = carried (λ h. h) refl refl refl refl v
Step-IsValid (products_came s (rejected reason)) v = carried (λ h. h) refl refl refl refl v
Step-IsValid (edited s e r) v = edit-IsValid e s r v
Step-IsValid (toggled env s product r) v =
    update_items-IsValid env (toggle product s.items) s (toggle-IsChoice product s.items v.choice) r
Step-IsValid (quantity_changed env s id how r) v =
    update_items-IsValid env (change_quantity id how s.items) s
      (change_quantity-IsChoice id how s.items v.choice) r
Step-IsValid (picker_told s (change file) r) v = unreviewed v.amount_digits v.choice r
Step-IsValid (picker_told s (busy now) r) v = unreviewed v.amount_digits v.choice r
Step-IsValid (picture_came s file) v = carried (picture-problem s file) refl refl refl refl v
Step-IsValid (picture_done s) v = carried (done-problem s) refl refl refl refl v
Step-IsValid (review_asked env s r) v = open_review-IsValid env s r v
Step-IsValid (went_back s) v = unreviewed v.amount_digits v.choice refl
Step-IsValid (sent s r d) v = carried (λ h. h) refl refl refl refl v
Step-IsValid (answered env key made s reply) v = settle-IsValid env key made s reply v

-- From the empty form on, whatever happens and in whatever order: the amount holds ASCII digits
-- only, the items are a well-formed choice, and a form that is reviewed, the only one that can be
-- sent, has no problem, a normal mobile number, and a postal code that is empty or has ten digits.
pub Reach-IsValid :
    (channel : SalesChannel) (key : Text) {s : State} → Reach (init channel key) s → IsValid s
unfolding init
Reach-IsValid channel key here = unreviewed tt tt refl
Reach-IsValid channel key (next r step) = Step-IsValid step (Reach-IsValid channel key r)
