-- ===== src/CreateOrder/View/Ways.antt =====
-- Which links of the page of a new order can be followed.
use radif.Prelude.{
  if◌then◌else◌, is_empty, text, decimal, Text, ◌≡◌, refl, Bool, not, ◌&&◌, Option, none, some,
  List, [], ◌∷◌, ◌++◌, arith,
}
use radif.Shared.Types.{CreatedOrder}
use radif.Shared.Drawing.{
  words, notice, retry_notice, Display, ways_out, ways_out-append, ways_out-when,
  ways_out-when_text,
}
use radif.Components.ProductChoices.View.{ways_out-choices}
use radif.CreateOrder.State.{State, CopyState, idle, copying, copied, shared, failed}
use radif.CreateOrder.View.{
  load, toggled, changed, copy_state_label, link_copy_notice, date_editor, created_messages,
  created_links, created_view, split_part, fields_part, date_help, products_part, form_view,
  page_view, view,
}

ways_out-products : (k : Bool) (d : Display) (s : State) → ways_out k (products_part d s) ≡ []
unfolding ways_out products_part
ways_out-products k d s =
    simp
      (
        ways_out-append,
        ways_out-when k s.loading,
        ways_out-when k (not s.loading && is_empty s.load_error && is_empty s.products),
        ways_out-choices d toggled changed k s.products s.items,
        ways_out-when_text k s.load_error (λ e. retry_notice e load ∷ []) (λ u. refl),
      )
      (ground arith)

ways_out-fields : (k : Bool) (d : Display) (s : State) → ways_out k (fields_part d s) ≡ []
unfolding ways_out fields_part split_part
ways_out-fields k d s =
    simp
      (
        ways_out-append,
        ways_out-when_text k s.amount_error (λ e. words e ∷ []) (λ u. refl),
        ways_out-when_text k (date_help d s) (λ e. words e ∷ []) (λ u. refl),
        ways_out-when_text k s.delivery_date_error (λ e. words e ∷ []) (λ u. refl),
      )
      (ground arith)

ways_out-form :
    (k : Bool) (d : Display) (shop_name : Text) (s : State)
    → ways_out k (form_view d shop_name s) ≡ text "/orders/import" ∷ []
unfolding ways_out form_view
ways_out-form k d shop_name s = simp (
  ways_out-append,
  ways_out-products k d s,
  ways_out-when k (not (is_empty s.items)) (fields_part d s) (ways_out-fields k d s),
  ways_out-when_text k s.error (λ e. notice e ∷ []) (λ u. refl),
)

ways_out-copy_state : (k : Bool) (c : CopyState) → ways_out k (copy_state_label c) ≡ []
unfolding ways_out copy_state_label
ways_out-copy_state k idle = refl
ways_out-copy_state k copying = refl
ways_out-copy_state k copied = refl
ways_out-copy_state k shared = refl
ways_out-copy_state k failed = refl

ways_out-link_copy : (k : Bool) (c : CopyState) → ways_out k (link_copy_notice c) ≡ []
unfolding ways_out link_copy_notice
ways_out-link_copy k failed = refl
ways_out-link_copy k _ = refl

ways_out-messages :
    (k : Bool) (share : Bool) (s : State) (order : CreatedOrder)
    → ways_out k (created_messages share s order) ≡ []
unfolding ways_out created_messages
ways_out-messages k share s order =
    simp
      (ways_out-append, ways_out-copy_state k s.copy_state, ways_out-link_copy k s.link_copy_state)
      (ground arith)

ways_out-created :
    (k : Bool) (d : Display) (share : Bool) (s : State) (order : CreatedOrder)
    → ways_out k (created_view d share s order) ≡ (
        if s.pending && not k
        then []
        else (text "/orders/" ++ decimal order.id) ∷ text "/orders" ∷ [])
unfolding ways_out created_view date_editor created_links
ways_out-created k d share s order =
    simp (ways_out-append, ways_out-messages k share s order) (ground arith)

-- The links that can be followed, by whether there is an order that was made, and whether they are
-- followed by the keyboard.
abbrev pub ways : Bool → State → Option CreatedOrder → List Text
ways keyboard s none = text "/orders/import" ∷ []
ways keyboard s (some order) =
    if s.pending && not keyboard
    then []
    else (text "/orders/" ++ decimal order.id) ∷ text "/orders" ∷ []

-- The links of the page that can be followed: for an order that was made, those to the order and to the
-- list, by a pointer only where the form is not pending any more, but by the keyboard always, although they
-- are marked as disabled while it is; for a form, the one to the import of old orders, whether the form
-- is pending or not.
pub ways_out-view :
    (keyboard : Bool) (d : Display) (shop_name : Text) (share : Bool) (s : State)
    → ways_out keyboard (view d shop_name share s) ≡ ways keyboard s s.created
unfolding view
ways_out-view k d shop_name share s =
    elim s.created as (λ made. ways_out k (page_view d shop_name share s made) ≡ ways k s made) [
      | none ↦ ways_out-form k d shop_name s
      | some order ↦ ways_out-created k d share s order
    ]
