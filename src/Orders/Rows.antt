-- ===== src/Orders/Rows.antt =====
-- What the list of orders draws: its sections, a row of an order, and the notice of an empty list
-- (web/src/pages/OrdersPage.tsx).
use radif.Prelude.{
  leb, ◌==◌, if◌then◌else◌, or_else, is_empty, text, text_eq, Text, ℕ, zero, suc, Bool, true, false,
  not, ◌&&◌, ◌||◌, Option, none, some, [],
}
use radif.Shared.Types.{OrderSummary}
use radif.Shared.Dates.{Timing, late, ahead}
use radif.Shared.Statuses.{admin_status_labels, label_in}
use radif.Shared.Messages.{
  settled_in_two, final_receipt_ready, final_receipt_awaited, two_payments, first_payment_confirmed,
  customer_details_missing, change_search_or_filters, archive_holds, none_in_progress,
  start_with_new_order,
}
use radif.Orders.Filters.{
  Params, View, active, archive, view_of, normalized_search, status_of, invalid_status, set_view,
  clear_filters,
}
use radif.Orders.Listing.{State}

unfoldable pub is_archive : View → Bool
is_archive active = false
is_archive archive = true

-- A search and the archive have short rows.
unfoldable pub compact : Params → Bool
compact p = not (is_empty (normalized_search p)) || is_archive (view_of p)

unfoldable pub filtered : Params → Bool
filtered p =
    not (is_empty (normalized_search p)) || (not (is_empty (status_of p)) && not (invalid_status p))

-- An amount that is missing or 0 makes an order of one payment.
unfoldable pub in_two_payments : OrderSummary → Bool
in_two_payments o = not (or_else o.initial_payment_amount 0 == 0)

unfoldable pub payment_label : OrderSummary → Text
unfolding in_two_payments
payment_label o =
    if not (in_two_payments o)
    then []
    else if o.final_payment_confirmed
    then settled_in_two
    else if o.final_receipt_uploaded
    then final_receipt_ready
    else if o.final_payment_requested
    then final_receipt_awaited
    else two_payments

-- The mark of a row: a status that has no label is shown as it stands.
unfoldable pub status_chip : OrderSummary → Text
unfolding in_two_payments
status_chip o =
    if in_two_payments o && text_eq o.status (text "paid")
    then first_payment_confirmed
    else or_else (label_in admin_status_labels o.status) o.status

unfoldable pub customer_line : OrderSummary → Option Text
customer_line o =
    if o.customer_submitted then o.customer_full_name else some customer_details_missing

-- Whether a final receipt waits for the shop, which the row stresses.
unfoldable pub awaits_check : OrderSummary → Bool
awaits_check o = o.final_receipt_uploaded && not o.final_payment_confirmed

unfoldable pub shows_receipt_mark : OrderSummary → Bool
unfolding in_two_payments
shows_receipt_mark o = o.receipt_uploaded && not (in_two_payments o)

-- How much a delivery presses: `timing.days < 0 ? … : timing.days <= 7 ? … : …`.
pub data Urgency : Type 0 where
  overdue soon later : Urgency

unfoldable pub urgency_of : Timing → Urgency
urgency_of (late days) = overdue
urgency_of (ahead days) = if leb days 7 then soon else later

-- The sections of the page under its filters.
unfoldable pub shows_error : State → Bool
shows_error s = not s.loading && not (is_empty s.error)

unfoldable pub shows_rows : State → Bool
shows_rows s = not s.loading && not (is_empty s.orders)

unfoldable pub shows_more_button : State → Bool
unfolding shows_rows
shows_more_button s = shows_rows s && s.has_more

unfoldable pub shows_empty : State → Bool
shows_empty s = not s.loading && is_empty s.error && is_empty s.orders

-- The button of an empty list.
pub data Offer : Type 0 where
  offer_clear offer_active offer_archive offer_new : Offer

unfoldable pub offer_of : Bool → View → ℕ → Offer
offer_of true v archived = offer_clear
offer_of false archive archived = offer_active
offer_of false active zero = offer_new
offer_of false active (suc _) = offer_archive

unfoldable pub empty_offer : Params → State → Offer
empty_offer p s = offer_of (filtered p) (view_of p) s.archived_count

unfoldable pub empty_description : Bool → View → ℕ → Text
empty_description true v archived = change_search_or_filters
empty_description false archive archived = archive_holds
empty_description false active zero = start_with_new_order
empty_description false active (suc _) = none_in_progress

-- What a press of the button does: a new address of the list, or the form of a new order.
unfoldable pub accept : Offer → Params → Option Params
accept offer_clear p = some (clear_filters p)
accept offer_active p = some (set_view active p)
accept offer_archive p = some (set_view archive p)
accept offer_new p = none
