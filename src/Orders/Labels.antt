-- ===== src/Orders/Labels.antt =====
-- The labels of the list of orders (web/src/pages/OrdersPage.tsx), each with its meaning in English.
use radif.Prelude.{Text, text}

-- clear the search
abbrev pub clear_search_label : Text
clear_search_label =
    text
      "\u{67e}\u{627}\u{6a9}\u{200c}\u{6a9}\u{631}\u{62f}\u{646} \u{62c}\u{633}\u{62a}\u{62c}\u{648}"

-- results from the orders in progress and the archive
abbrev pub results_from_all : Text
results_from_all =
    text
      "\u{646}\u{62a}\u{627}\u{6cc}\u{62c} \u{627}\u{632} \u{62f}\u{631} \u{62c}\u{631}\u{6cc}\u{627}\u{646} \u{648} \u{628}\u{627}\u{6cc}\u{6af}\u{627}\u{646}\u{6cc}"

-- clear
abbrev pub clear_label : Text
clear_label = text "\u{67e}\u{627}\u{6a9} \u{6a9}\u{631}\u{62f}\u{646}"

-- in progress
abbrev pub in_progress_label : Text
in_progress_label = text "\u{62f}\u{631} \u{62c}\u{631}\u{6cc}\u{627}\u{646}"

-- archive
abbrev pub archive_label : Text
archive_label = text "\u{628}\u{627}\u{6cc}\u{6af}\u{627}\u{646}\u{6cc}"

-- results of the search
abbrev pub search_results : Text
search_results = text "\u{646}\u{62a}\u{627}\u{6cc}\u{62c} \u{62c}\u{633}\u{62a}\u{62c}\u{648}"

-- finished orders
abbrev pub finished_orders : Text
finished_orders =
    text
      "\u{633}\u{641}\u{627}\u{631}\u{634}\u{200c}\u{647}\u{627}\u{6cc} \u{67e}\u{627}\u{6cc}\u{627}\u{646}\u{200c}\u{6cc}\u{627}\u{641}\u{62a}\u{647}"

-- the queue of orders in progress
abbrev pub orders_in_progress : Text
orders_in_progress =
    text
      "\u{635}\u{641} \u{633}\u{641}\u{627}\u{631}\u{634}\u{200c}\u{647}\u{627}\u{6cc} \u{62f}\u{631} \u{62c}\u{631}\u{6cc}\u{627}\u{646}"

-- every status
abbrev pub every_status : Text
every_status =
    text "\u{647}\u{645}\u{647} \u{648}\u{636}\u{639}\u{6cc}\u{62a}\u{200c}\u{647}\u{627}"

-- nearest delivery
abbrev pub due_label : Text
due_label =
    text
      "\u{646}\u{632}\u{62f}\u{6cc}\u{6a9}\u{200c}\u{62a}\u{631}\u{6cc}\u{646} \u{62a}\u{62d}\u{648}\u{6cc}\u{644}"

-- last change
abbrev pub updated_label : Text
updated_label = text "\u{622}\u{62e}\u{631}\u{6cc}\u{646} \u{62a}\u{63a}\u{6cc}\u{6cc}\u{631}"

-- newest order
abbrev pub recent_label : Text
recent_label =
    text
      "\u{62c}\u{62f}\u{6cc}\u{62f}\u{62a}\u{631}\u{6cc}\u{646} \u{633}\u{641}\u{627}\u{631}\u{634}"

-- highest amount
abbrev pub amount_label : Text
amount_label = text "\u{628}\u{6cc}\u{634}\u{62a}\u{631}\u{6cc}\u{646} \u{645}\u{628}\u{644}\u{63a}"

-- all
abbrev pub all_label : Text
all_label = text "\u{647}\u{645}\u{647}"

-- last change
abbrev pub last_change : Text
last_change = text " · \u{622}\u{62e}\u{631}\u{6cc}\u{646} \u{62a}\u{63a}\u{6cc}\u{6cc}\u{631} "

-- has a receipt
abbrev pub has_receipt : Text
has_receipt = text "\u{631}\u{633}\u{6cc}\u{62f} \u{62f}\u{627}\u{631}\u{62f}"

-- has a tracking code
abbrev pub has_tracking : Text
has_tracking =
    text "\u{6a9}\u{62f} \u{631}\u{647}\u{6af}\u{6cc}\u{631}\u{6cc} \u{62f}\u{627}\u{631}\u{62f}"

-- loading
abbrev pub loading_more_label : Text
loading_more_label =
    text "\u{62f}\u{631} \u{62d}\u{627}\u{644} \u{62f}\u{631}\u{6cc}\u{627}\u{641}\u{62a}…"

-- more orders
abbrev pub more_label : Text
more_label =
    text
      "\u{646}\u{645}\u{627}\u{6cc}\u{634} \u{633}\u{641}\u{627}\u{631}\u{634}\u{200c}\u{647}\u{627}\u{6cc} \u{628}\u{6cc}\u{634}\u{62a}\u{631}"

-- no order was found with this filter
abbrev pub none_found : Text
none_found =
    text
      "\u{633}\u{641}\u{627}\u{631}\u{634}\u{6cc} \u{628}\u{627} \u{627}\u{6cc}\u{646} \u{641}\u{6cc}\u{644}\u{62a}\u{631} \u{67e}\u{6cc}\u{62f}\u{627} \u{646}\u{634}\u{62f}"

-- the archive is empty
abbrev pub archive_empty : Text
archive_empty =
    text
      "\u{628}\u{627}\u{6cc}\u{6af}\u{627}\u{646}\u{6cc} \u{62e}\u{627}\u{644}\u{6cc} \u{627}\u{633}\u{62a}"

-- all orders have been handled
abbrev pub all_handled : Text
all_handled =
    text
      "\u{647}\u{645}\u{647} \u{633}\u{641}\u{627}\u{631}\u{634}\u{200c}\u{647}\u{627} \u{631}\u{633}\u{6cc}\u{62f}\u{6af}\u{6cc} \u{634}\u{62f}\u{647}\u{200c}\u{627}\u{646}\u{62f}"

-- no order has been made yet
abbrev pub none_made : Text
none_made =
    text
      "\u{647}\u{646}\u{648}\u{632} \u{633}\u{641}\u{627}\u{631}\u{634}\u{6cc} \u{633}\u{627}\u{62e}\u{62a}\u{647} \u{646}\u{634}\u{62f}\u{647}"

-- clear the filters
abbrev pub clear_filters_label : Text
clear_filters_label =
    text
      "\u{67e}\u{627}\u{6a9}\u{200c}\u{6a9}\u{631}\u{62f}\u{646} \u{641}\u{6cc}\u{644}\u{62a}\u{631}\u{647}\u{627}"

-- back to the orders in progress
abbrev pub back_to_active_label : Text
back_to_active_label =
    text
      "\u{628}\u{627}\u{632}\u{6af}\u{634}\u{62a} \u{628}\u{647} \u{633}\u{641}\u{627}\u{631}\u{634}\u{200c}\u{647}\u{627}\u{6cc} \u{62f}\u{631} \u{62c}\u{631}\u{6cc}\u{627}\u{646}"

-- show the archive
abbrev pub show_archive_label : Text
show_archive_label =
    text
      "\u{645}\u{634}\u{627}\u{647}\u{62f}\u{647} \u{628}\u{627}\u{6cc}\u{6af}\u{627}\u{646}\u{6cc}"

-- make a new order
abbrev pub make_order_label : Text
make_order_label =
    text
      "\u{633}\u{627}\u{62e}\u{62a} \u{633}\u{641}\u{627}\u{631}\u{634} \u{62c}\u{62f}\u{6cc}\u{62f}"
