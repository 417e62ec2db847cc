-- ===== src/Orders/Page.antt =====
-- The whole of what the list of orders draws (web/src/pages/OrdersPage.tsx).
pub mod Clean
use radif.Prelude.{
  ◌==◌, if◌then◌else◌, or_else, is_empty, text, decimal, Text, ℕ, ◌+◌, ◌/◌, false, not, Option,
  none, some, List, [], ◌∷◌, ◌++◌, map,
}
use radif.Shared.Types.{OrderSummary}
use radif.Shared.Digits.{persian_digits}
use radif.Shared.Dates.{Timing, delivery_timing, timing_label}
use radif.Shared.Ages.{Age, relative_age}
use radif.Shared.Statuses.{admin_status_labels, label_in}
use radif.Shared.Labels.{tomans, dot}
use radif.Shared.Drawing.{
  Node, words, retry_notice, waiting, link, button, field, choice, Choice, Display, when, when_text,
  flat_map,
}
use radif.Orders.Labels.{
  clear_search_label, results_from_all, clear_label, in_progress_label, archive_label,
  search_results, finished_orders, orders_in_progress, every_status, due_label, updated_label,
  recent_label, amount_label, all_label, last_change, has_receipt, has_tracking, loading_more_label,
  more_label, none_found, archive_empty, all_handled, none_made, clear_filters_label,
  back_to_active_label, show_archive_label, make_order_label,
}
use radif.Orders.Filters.{
  Params, View, active, archive, view_of, search_of, normalized_search, status_of, Filter, by_q,
  by_status, set_filter, set_view, clear_filters, sort_of,
}
use radif.Orders.Sorting.{sort_options, pick_sort}
use radif.Orders.Controls.{status_options}
use radif.Orders.Listing.{State}
use radif.Orders.Rows.{
  is_archive, compact, filtered, payment_label, status_chip, customer_line, shows_receipt_mark,
  shows_error, shows_rows, shows_more_button, shows_empty, Offer, offer_clear, offer_active,
  offer_archive, offer_new, empty_offer, empty_description,
}

pub data Handler : Type 0 where
  to_filter : Filter → Text → Handler
  to_sort : Text → Handler
  to_view : View → Handler
  to_clear reload load_more : Handler

-- The address after a handler.
unfoldable pub apply : Handler → Params → Params
apply (to_filter name value) p = set_filter name value p
apply (to_sort value) p = pick_sort value p
apply (to_view view) p = set_view view p
apply to_clear p = clear_filters p
apply reload p = p
apply load_more p = p

-- What the page is given besides its state: the browser's formats and clock, the days and hours that
-- the texts of dates and times stand for, and the text of an address's parameters.
pub record Look : Type 0 where
  pub display : Display
  pub serialize : Params → Text
  pub today : ℕ
  pub day_of : Text → ℕ
  pub now : ℕ
  pub time_of : Text → ℕ
  pub age_words : Age → Text

unfoldable pub age_text : Look → Text → Text
age_text l time = l.age_words (relative_age l.now (l.time_of time))

-- `/orders/${order.id}${params.toString() ? … : ""}`
unfoldable pub order_address : Look → Params → OrderSummary → Text
order_address l p o =
    text "/orders/"
    ++ decimal o.id
    ++ (if is_empty (l.serialize p) then [] else text "?" ++ l.serialize p)

unfoldable pub compact_row : Look → Params → OrderSummary → List (Node Handler)
compact_row l p o =
    link (persian_digits o.order_code ++ last_change ++ age_text l o.updated_at) false
      (order_address l p o)
    ∷ words (status_chip o)
    ∷ words o.product_summary
    ∷ words (or_else (customer_line o) [])
    ∷ words (l.display.number o.amount ++ tomans)
    ∷ when_text (payment_label o) (λ t. words t ∷ [])

unfoldable pub full_row : Look → Params → OrderSummary → List (Node Handler)
full_row l p o =
    link (persian_digits o.order_code ++ dot ++ age_text l o.created_at) false (order_address l p o)
    ∷ words o.product_summary
    ∷ words (or_else (customer_line o) [])
    ∷ words (status_chip o)
    ∷ words (l.display.date o.estimated_delivery_date)
    ∷ words (
        timing_label l.display.number
          (delivery_timing l.today (l.day_of o.estimated_delivery_date)))
    ∷ words (l.display.number o.amount ++ tomans)
    ∷ (when_text (payment_label o) (λ t. words t ∷ [])
        ++ (when (shows_receipt_mark o) (words has_receipt ∷ [])
            ++ when o.has_tracking_code (words has_tracking ∷ [])))

unfoldable pub row : Look → Params → OrderSummary → List (Node Handler)
row l p o = if compact p then compact_row l p o else full_row l p o

unfoldable pub count_nodes : Display → Option ℕ → List (Node Handler)
count_nodes d none = []
count_nodes d (some n) = words (d.number n) ∷ []

unfoldable pub search_part : Params → List (Node Handler)
search_part p =
    field (search_of p) (to_filter by_q)
    ∷ when_text (search_of p) (λ t. button clear_search_label false (to_filter by_q []) ∷ [])

unfoldable pub view_part : Display → State → Params → List (Node Handler)
view_part d s p =
    if not (is_empty (normalized_search p))
    then words results_from_all ∷ button clear_label false (to_filter by_q []) ∷ []
    else button in_progress_label false (to_view active)
      ∷ (count_nodes d s.active_count ++ button archive_label false (to_view archive) ∷ [])

unfoldable pub heading : Params → Text
heading p =
    if not (is_empty (normalized_search p))
    then search_results
    else if is_archive (view_of p)
    then finished_orders
    else orders_in_progress

unfoldable pub status_heading : Text → Text
status_heading [] = every_status
status_heading (c ∷ t) = or_else (label_in admin_status_labels (c ∷ t)) []

unfoldable pub sort_labels : List (Text × Text)
sort_labels =
    (text "due", due_label)
    ∷ (text "updated", updated_label)
    ∷ (text "recent", recent_label)
    ∷ (text "amount", amount_label)
    ∷ []

unfoldable pub sort_choice : Text → Choice Handler
sort_choice value = record {
  value = value;
  label = or_else (label_in sort_labels value) [];
  disabled = false;
  picked = to_sort value;
}

unfoldable pub status_label : Text → Text
status_label [] = all_label
status_label (c ∷ t) = or_else (label_in admin_status_labels (c ∷ t)) []

unfoldable pub status_button : Text → List (Node Handler)
status_button value = button (status_label value) false (to_filter by_status value) ∷ []

unfoldable pub controls_part : Params → List (Node Handler)
controls_part p =
    words (heading p)
    ∷ words (status_heading (status_of p))
    ∷ choice false (map sort_choice (sort_options p)) (sort_of p)
    ∷ flat_map status_button (status_options p)

unfoldable pub rows_part : Look → State → Params → List (Node Handler)
rows_part l s p =
    flat_map (row l p) s.orders
    ++ when (shows_more_button s) (
        button (if s.loading_more then loading_more_label else more_label) s.loading_more load_more
        ∷ [])

unfoldable pub empty_heading : Params → State → Text
empty_heading p s =
    if filtered p
    then none_found
    else if is_archive (view_of p)
    then archive_empty
    else if not (s.archived_count == 0)
    then all_handled
    else none_made

unfoldable pub offer_nodes : Offer → List (Node Handler)
offer_nodes offer_clear = button clear_filters_label false to_clear ∷ []
offer_nodes offer_active = button back_to_active_label false (to_view active) ∷ []
offer_nodes offer_archive = button show_archive_label false (to_view archive) ∷ []
offer_nodes offer_new = link make_order_label false (text "/orders/new") ∷ []

unfoldable pub empty_part : State → Params → List (Node Handler)
empty_part s p =
    words (empty_heading p s)
    ∷ words (empty_description (filtered p) (view_of p) s.archived_count)
    ∷ offer_nodes (empty_offer p s)

unfoldable pub view : Look → Text → State → Params → List (Node Handler)
view l shop_name s p =
    words shop_name
    ∷ (search_part p
        ++ (view_part l.display s p
            ++ (controls_part p
                ++ (when s.loading (waiting ∷ [])
                    ++ (when (shows_error s) (retry_notice s.error reload ∷ [])
                        ++ (when (shows_rows s) (rows_part l s p)
                            ++ when (shows_empty s) (empty_part s p)))))))
