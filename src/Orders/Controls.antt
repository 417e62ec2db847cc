-- ===== src/Orders/Controls.antt =====
-- The controls of the list and the address (web/src/pages/OrdersPage.tsx).
use radif.Prelude.{
  Bool-cases, or_else, is_empty, text_eq, trim, Text, ℕ, ◌≡◌, refl, sym, inl, inr, true, false,
  Option, none, some, List, [], ◌∷◌, arith,
}
use mathlib.Core.Bool.{false≢true}
use radif.Orders.Filters.{
  Params, View, active, archive, view_of, search_of, normalized_search, status_of, includes,
  allowed_sorts, shown_statuses, statuses_of, all_statuses, active_statuses, archive_statuses,
  invalid_sort, bad_sort, invalid_status, bad_status, text_or_none, by_q, by_status, set_filter,
  set_view, clear_filters,
}
use radif.Orders.Address.{IsClean, set_filter-blank-IsClean}
use radif.Orders.Sorting.{sort_options, pick_sort, sort_of-pick_sort}

-- The buttons of the statuses; the first one is for all of them.
unfoldable pub status_options : Params → List Text
status_options p = [] ∷ shown_statuses (normalized_search p) (view_of p)

-- What the controls that the page draws do to the address.
pub data Control : Params → Params → Type 0 where
  search_typed : (p : Params) (value : Text) → Control p (set_filter by_q value p)
  status_picked :
      (p : Params) (value : Text)
      → includes (status_options p) value ≡ true
      → Control p (set_filter by_status value p)
  sort_picked :
      (p : Params) (value : Text)
      → includes (sort_options p) value ≡ true
      → Control p (pick_sort value p)
  view_picked : (p : Params) (view : View) → Control p (set_view view p)
  cleared : (p : Params) → Control p (clear_filters p)

pub data Controls (p : Params) : Params → Type 0 where
  here : Controls p p
  next : {q r : Params} → Controls p q → Control q r → Controls p r

-- What a view allows, a search allows too.
bad_sort-search :
    (sort : Option Text) (c : ℕ) (t s : Text) (v w : View)
    → bad_sort sort s v ≡ false
    → bad_sort sort (c ∷ t) w ≡ false
unfolding bad_sort allowed_sorts includes
bad_sort-search none c t s v w h = refl
bad_sort-search (some r) c t (_ ∷ _) v w h = h
bad_sort-search (some r) c t [] active w h = ground arith
bad_sort-search (some r) c t [] archive w h = ground arith

bad_status-search :
    (status : Text) (c : ℕ) (t s : Text) (v w : View)
    → bad_status status s v ≡ false
    → bad_status status (c ∷ t) w ≡ false
unfolding bad_status shown_statuses statuses_of all_statuses active_statuses archive_statuses
    includes
bad_status-search status c t (_ ∷ _) v w h = h
bad_status-search status c t [] active w h = ground arith
bad_status-search status c t [] archive w h = ground arith

bad-search :
    (p : Params) (t : Text)
    → is_empty t ≡ false
    → IsClean p
    → (bad_sort p.sort t (view_of p) ≡ false) × (bad_status (status_of p) t (view_of p) ≡ false)
unfolding invalid_sort invalid_status
bad-search p [] e h = absurd (false≢true (sym e))
bad-search p (c ∷ t) e (d, s, u) = (
  bad_sort-search p.sort c t (normalized_search p) (view_of p) (view_of p) s,
  bad_status-search (status_of p) c t (normalized_search p) (view_of p) (view_of p) u,
)

search_typed-IsClean : (p : Params) (value : Text) → IsClean p → IsClean (set_filter by_q value p)
unfolding set_filter invalid_sort invalid_status normalized_search search_of status_of view_of
search_typed-IsClean p value h = elim (Bool-cases (is_empty (trim value))) [
  | inl blank ↦ set_filter-blank-IsClean p value blank h
  | inr word ↦ let (s, u) = bad-search p (trim value) word h in rw word (h.0, s, u)
]

picked_status :
    (value t : Text) (v : View)
    → includes ([] ∷ shown_statuses t v) value ≡ true
    → bad_status (or_else (text_or_none value) []) t v ≡ false
unfolding bad_status text_or_none includes text_eq
picked_status [] t v h = refl
picked_status (c ∷ value) t v h = ground arith

status_picked-IsClean :
    (p : Params) (value : Text)
    → includes (status_options p) value ≡ true
    → IsClean p
    → IsClean (set_filter by_status value p)
unfolding set_filter status_options invalid_sort invalid_status normalized_search search_of
    status_of view_of
status_picked-IsClean p value e (d, s, u) =
    (d, s, picked_status value (normalized_search p) (view_of p) e)

sort_picked-IsClean :
    (p : Params) (value : Text)
    → includes (sort_options p) value ≡ true
    → IsClean p
    → IsClean (pick_sort value p)
unfolding pick_sort set_filter invalid_status normalized_search search_of status_of view_of
sort_picked-IsClean p value e (d, s, u) = (d, (sort_of-pick_sort value p e).1, u)

view_picked-IsClean : (p : Params) (view : View) → IsClean (set_view view p)
unfolding set_view invalid_sort bad_sort invalid_status bad_status status_of
view_picked-IsClean p active = (refl, refl, refl)
view_picked-IsClean p archive = (refl, refl, refl)

cleared-IsClean : (p : Params) → IsClean (clear_filters p)
unfolding clear_filters invalid_sort bad_sort invalid_status bad_status status_of
cleared-IsClean p = (refl, refl, refl)

Control-IsClean : {p q : Params} → Control p q → IsClean p → IsClean q
Control-IsClean (search_typed p value) h = search_typed-IsClean p value h
Control-IsClean (status_picked p value e) h = status_picked-IsClean p value e h
Control-IsClean (sort_picked p value e) h = sort_picked-IsClean p value e h
Control-IsClean (view_picked p view) h = view_picked-IsClean p view
Control-IsClean (cleared p) h = cleared-IsClean p

-- From an address that the cleaning effect leaves alone, the controls that the page draws lead
-- only to such addresses, in whatever order they are used: no sort and no status that is picked or
-- kept is one that the list does not have.
pub Controls-IsClean : {p q : Params} → IsClean p → Controls p q → IsClean q
Controls-IsClean h here = h
Controls-IsClean h (next cs c) = Control-IsClean c (Controls-IsClean h cs)
