-- ===== src/Orders/Page/Clean.antt =====
-- Where the controls of the list of orders lead.
use radif.Prelude.{
  Bool-cases, is_empty, All, Text, text_eq_refl, ℕ, ◌≡◌, refl, inl, inr, true, false, Option, none,
  some, List, [], ◌∷◌, map, arith,
}
use radif.Shared.Drawing.{words, when_text, Display, flat_map}
use radif.Shared.Handled.{
  Handles, no_nodes, on_words, on_retry_notice, on_waiting, on_link, on_button, on_field, on_choice,
  Handles-append, Handles-when, Handles-when_text, Handles-flat_map, Handles-map,
}
use radif.Shared.Types.{OrderSummary}
use radif.Orders.Filters.{
  Params, View, active, archive, search_of, normalized_search, includes, by_q,
}
use radif.Orders.Sorting.{sort_options}
use radif.Orders.Address.{IsClean}
use radif.Orders.Controls.{
  status_options, Control, search_typed, status_picked, sort_picked, view_picked, cleared, Controls,
  here, next, Controls-IsClean,
}
use radif.Orders.Listing.{State}
use radif.Orders.Rows.{
  compact, payment_label, shows_receipt_mark, shows_error, shows_rows, shows_more_button,
  shows_empty, Offer, offer_clear, offer_active, offer_archive, offer_new, empty_offer,
}
use radif.Orders.Page.{
  Handler, to_filter, to_view, apply, Look, compact_row, full_row, row, count_nodes, search_part,
  view_part, sort_choice, status_button, controls_part, rows_part, offer_nodes, empty_part, view,
}

includes-All :
    (ts us : List Text)
    → ((t : Text) → includes ts t ≡ true → includes us t ≡ true)
    → All (λ t. includes us t ≡ true) ts
unfolding includes
includes-All [] us h = tt
includes-All (t ∷ ts) us h =
    (h t (rw (text_eq_refl t) refl), includes-All ts us (λ u e. h u (ground (arith, e))))

module _ (p : Params) where
  -- The address after a handler is one that the controls lead to.
  abbrev Leads : Handler → Type 0
  Leads a = Controls p (apply a p)

  step : {q : Params} → Control p q → Controls p q
  step c = next here c

  Leads-search : (t : Text) → Leads (to_filter by_q t)
  unfolding apply
  Leads-search t = step (search_typed p t)

  Leads-view : (v : View) → Leads (to_view v)
  unfolding apply
  Leads-view v = step (view_picked p v)

  Handles-row : (l : Look) (o : OrderSummary) → Handles Leads (row l p o)
  unfolding row compact_row full_row
  Handles-row l o = elim (Bool-cases (compact p)) [
    | inl e ↦ rw e (on_link (on_words (on_words (on_words (on_words (text_part o))))))
    | inr e ↦ rw e (
        on_link (
          on_words (
            on_words (
              on_words (
                on_words (
                  on_words (
                    on_words (
                      Handles-append (text_part o) (
                        Handles-append (Handles-when (shows_receipt_mark o) (on_words no_nodes))
                          (Handles-when o.has_tracking_code (on_words no_nodes)))))))))))
  ]
    where
      text_part :
          (o : OrderSummary) → Handles Leads (when_text (payment_label o) (λ t. words t ∷ []))
      text_part o = Handles-when_text (payment_label o) _ (λ u. on_words no_nodes)

  Handles-search : Handles Leads (search_part p)
  unfolding search_part
  Handles-search =
      on_field Leads-search
        (Handles-when_text (search_of p) _ (λ u. on_button (λ _. Leads-search []) no_nodes))

  Handles-statuses :
      (ts : List Text)
      → All (λ t. includes (status_options p) t ≡ true) ts
      → Handles Leads (flat_map status_button ts)
  unfolding status_button apply
  Handles-statuses [] h = no_nodes
  Handles-statuses (t ∷ ts) (e, h) =
      on_button (λ _. step (status_picked p t e)) (Handles-statuses ts h)

  All-sorts :
      (ts : List Text)
      → All (λ t. includes (sort_options p) t ≡ true) ts
      → All (λ o. o.disabled ≡ false → Leads o.picked) (map sort_choice ts)
  unfolding sort_choice apply
  All-sorts [] h = tt
  All-sorts (t ∷ ts) (e, h) = (λ _. step (sort_picked p t e), All-sorts ts h)

  Handles-controls : Handles Leads (controls_part p)
  unfolding controls_part
  Handles-controls = on_words (
      on_words (
        on_choice
          (λ _.
            All-sorts (sort_options p) (includes-All (sort_options p) (sort_options p) (λ t e. e)))
          (Handles-statuses (status_options p)
            (includes-All (status_options p) (status_options p) (λ t e. e)))))

  Handles-offer : (o : Offer) → Handles Leads (offer_nodes o)
  unfolding offer_nodes apply
  Handles-offer offer_clear = on_button (λ _. step (cleared p)) no_nodes
  Handles-offer offer_active = on_button (λ _. Leads-view active) no_nodes
  Handles-offer offer_archive = on_button (λ _. Leads-view archive) no_nodes
  Handles-offer offer_new = on_link no_nodes

  Handles-count : (d : Display) (n : Option ℕ) → Handles Leads (count_nodes d n)
  unfolding count_nodes
  Handles-count d none = no_nodes
  Handles-count d (some n) = on_words no_nodes

  Handles-view_part : (d : Display) (s : State) → Handles Leads (view_part d s p)
  unfolding view_part
  Handles-view_part d s = elim (Bool-cases (is_empty (normalized_search p))) [
    | inl e ↦ rw e (
        on_button (λ _. Leads-view active)
          (Handles-append (Handles-count d s.active_count)
            (on_button (λ _. Leads-view archive) no_nodes)))
    | inr e ↦ rw e (on_words (on_button (λ _. Leads-search []) no_nodes))
  ]

  Handles-rows : (l : Look) (s : State) → Handles Leads (rows_part l s p)
  unfolding rows_part apply
  Handles-rows l s =
      Handles-append (Handles-flat_map (row l p) s.orders (Handles-row l))
        (Handles-when (shows_more_button s) (on_button (λ _. here) no_nodes))

  Handles-empty : (s : State) → Handles Leads (empty_part s p)
  unfolding empty_part
  Handles-empty s = on_words (on_words (Handles-offer (empty_offer p s)))

  -- Whatever is drawn, each of its controls leads where the controls of the list lead.
  Handles-view : (l : Look) (name : Text) (s : State) → Handles Leads (view l name s p)
  unfolding view apply
  Handles-view l name s = on_words (
      Handles-append Handles-search (
        Handles-append (Handles-view_part l.display s) (
          Handles-append Handles-controls (
            Handles-append (Handles-when s.loading (on_waiting no_nodes)) (
              Handles-append (Handles-when (shows_error s) (on_retry_notice here no_nodes)) (
                Handles-append (Handles-when (shows_rows s) (Handles-rows l s))
                  (Handles-when (shows_empty s) (Handles-empty s))))))))

-- Whatever the list of orders draws, with any orders, counts and error, each of its controls that can
-- be used leads from an address that the cleaning effect leaves alone to such an address.
pub Handles-IsClean :
    (l : Look) (name : Text) (s : State) (p : Params)
    → IsClean p
    → Handles (λ a. IsClean (apply a p)) (view l name s p)
Handles-IsClean l name s p h = Handles-map (λ a c. Controls-IsClean h c) (Handles-view p l name s)
