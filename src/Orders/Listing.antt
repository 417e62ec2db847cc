-- ===== src/Orders/Listing.antt =====
-- The list of orders and its requests (web/src/pages/OrdersPage.tsx). Requests overlap: every
-- answer carries the number of its request, and the page takes only those of the last one.
use radif.Prelude.{
  ◌==◌, if◌then◌else◌, Text, ℕ, ◌+◌, Bool, true, false, not, ◌&&◌, Option, none, some, List, [],
  ◌++◌,
}
use radif.Shared.Types.{OrderSummary}
use radif.Shared.Messages.{orders_not_loaded, more_orders_not_loaded}
use radif.Shared.Api.{Settled, fulfilled, rejected, abort_error, message_or}

pub record Page : Type 0 where
  pub orders : List OrderSummary
  pub has_more : Bool
  pub active_count : ℕ
  pub archived_count : ℕ

pub record State : Type 0 where
  pub orders : List OrderSummary
  pub loading : Bool
  pub loading_more : Bool
  pub error : Text
  pub has_more : Bool
  pub active_count : Option ℕ
  pub archived_count : ℕ
  pub list_request : ℕ

unfoldable pub init : State
init = record {
  orders = [];
  loading = true;
  loading_more = false;
  error = [];
  has_more = false;
  active_count = none;
  archived_count = 0;
  list_request = 0;
}

-- The effect, up to its call: it takes the next number.
unfoldable pub start : State → State
start s = record {
  orders = [];
  loading = true;
  loading_more = false;
  error = [];
  has_more = false;
  active_count = none;
  archived_count = 0;
  list_request = s.list_request + 1;
}

-- The effect's cleanup.
unfoldable pub stop : ℕ → State → State
stop request s =
    if request == s.list_request then record s { list_request = s.list_request + 1 } else s

unfoldable pub show_page : Page → State → State
show_page page s = record s {
  orders = page.orders;
  has_more = page.has_more;
  active_count = some page.active_count;
  archived_count = page.archived_count;
}

-- The answer of the effect's request. `aborted` tells whether its controller has been aborted.
unfoldable pub take_first : ℕ → Settled Page → State → State
take_first request (fulfilled page) s = if request == s.list_request then show_page page s else s
take_first request (rejected (abort_error _)) s = s
take_first request (rejected reason) s =
    if request == s.list_request
    then record s { error = message_or reason orders_not_loaded }
    else s

unfoldable pub first_answered : ℕ → Bool → Settled Page → State → State
first_answered request aborted reply s =
    let t = take_first request reply s in
    if not aborted && request == t.list_request then record t { loading = false } else t

-- `loadMore`, up to its call; the call's number is the current one.
unfoldable pub more : State → State
more s = record s { loading_more = true; error = [] }

unfoldable pub take_more : ℕ → Settled Page → State → State
take_more request (fulfilled page) s =
    if request == s.list_request
    then record s {
      orders = s.orders ++ page.orders;
      has_more = page.has_more;
      active_count = some page.active_count;
      archived_count = page.archived_count;
    }
    else s
take_more request (rejected reason) s =
    if request == s.list_request
    then record s { error = message_or reason more_orders_not_loaded }
    else s

unfoldable pub more_answered : ℕ → Settled Page → State → State
more_answered request reply s =
    let t = take_more request reply s in
    if request == t.list_request then record t { loading_more = false } else t
