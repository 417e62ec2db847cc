-- ===== src/Examples/Listing.antt =====
-- The list of orders, the choice of products and the ages.
use radif.Prelude.{is_empty, text, text_eq, trim, ◌≡◌, refl, true, false, none, some, List, [], ◌∷◌}
use radif.Shared.Ages.{Claims, relative_age, relative_age-Claims}
use radif.Shared.Api.{fulfilled}
use radif.Orders.Filters.{
  Params, view_of, search_of, normalized_search, status_of, includes, bad_sort, bad_status,
  invalid_sort, invalid_status, shown_statuses, statuses_of, archive_statuses, by_q, set_filter,
}
use radif.Orders.Address.{IsClean}
use radif.Orders.Sorting.{sort_options, pick_sort, shown_if, is_active}
use radif.Orders.Controls.{search_typed, sort_picked, here, next, Controls-IsClean}
use radif.Orders.Listing as Listing
use radif.Orders.Stale.{Event, started, first_came, step, run}
use radif.Orders.Pages.{Shows, log_all, orders_of, run-Shows}
use radif.Orders.Rows.{shows_empty}
use radif.Orders.Empty.{AllPossible, Possible, shows_empty-run, follow, follow_ends}
use radif.Components.ProductChoices.Quantities.{
  Press, on_product, press_all, press_basket_all, quantity_of, quantity_of-press_all,
}
use radif.Examples.Data.{cup, bowl}

abbrev pub archived : Params
archived = record {
  view = some (text "archive");
  q = none;
  status = some (text "shipped");
  sort = none;
  delivery = none;
  others = [];
}

pub archived-IsClean : IsClean archived
unfolding invalid_sort invalid_status text text_eq trim bad_sort bad_status status_of includes
    shown_statuses normalized_search search_of statuses_of view_of archive_statuses
archived-IsClean = (refl, refl, refl)

recent_offered : includes (sort_options archived) (text "recent") ≡ true
unfolding sort_options shown_if is_active includes normalized_search search_of view_of trim text
    text_eq
recent_offered = refl

Controls-IsClean_example :
    IsClean (set_filter by_q (text "sara") (pick_sort (text "recent") archived))
Controls-IsClean_example = Controls-IsClean archived-IsClean (
    next (next here (sort_picked archived (text "recent") recent_offered))
      (search_typed (pick_sort (text "recent") archived) (text "sara")))

abbrev empty_page : Listing.Page
empty_page = record { orders = []; has_more = false; active_count = 0; archived_count = 3 }

abbrev one_answer : List Event
one_answer = started ∷ first_came 1 false (fulfilled empty_page) ∷ []

run-Shows_example :
    Shows (run one_answer Listing.init) (log_all one_answer (record { number = 0; pages = [] }))
run-Shows_example = run-Shows one_answer

shows_empty-run_example :
    let pages = (log_all one_answer (record { number = 0; pages = [] })).pages in
    (is_empty pages ≡ false) × (orders_of pages ≡ [])
unfolding shows_empty run AllPossible Possible step Listing.first_answered Listing.take_first
    Listing.start Listing.init Listing.show_page
shows_empty-run_example = shows_empty-run one_answer (tt, (tt, tt)) refl

follow_ends_example : follow 3 0 archived ≡ true
follow_ends_example = follow_ends archived

abbrev presses : List Press
presses = on_product cup ∷ on_product bowl ∷ on_product cup ∷ []

quantity_of-press_all_example :
    quantity_of (press_all presses []) ≡ press_basket_all presses (quantity_of [])
quantity_of-press_all_example = quantity_of-press_all presses [] tt

relative_age-Claims_example : Claims 90000000 600000 (relative_age 90000000 600000)
relative_age-Claims_example = relative_age-Claims 90000000 600000
