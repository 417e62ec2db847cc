-- ===== src/Report.antt =====
-- The report of a shop (web/src/pages/ReportPage.tsx).
pub mod Labels
pub mod View
use radif.Prelude.{
  ◌==◌, if◌then◌else◌, is_empty, text, text_eq, decimal, Text, ℕ, Bool, true, false, not, ◌&&◌,
  Option, none, some, List, [], ◌∷◌, ◌++◌, map,
}
use radif.Shared.Messages.{report_not_loaded}
use radif.Shared.Statuses.{admin_status_labels, label_in}
use radif.Shared.Api.{
  get, empty, Request, Settled, fulfilled, rejected, abort_error, error, message_or,
}

pub record TopProduct : Type 0 where
  pub id : ℕ
  pub name : Text
  pub quantity : ℕ

-- `status_counts` has the keys that the server sends.
pub record ShopReport : Type 0 where
  pub order_count : ℕ
  pub confirmed_order_count : ℕ
  pub confirmed_order_value : ℕ
  pub average_order_value : ℕ
  pub status_counts : List (Text × ℕ)
  pub top_products : List TopProduct

pub record State : Type 0 where
  pub report : Option ShopReport
  pub loading : Bool
  pub error : Text

unfoldable pub init : State
init = record { report = none; loading = true; error = [] }

-- The effect, up to its call and from its answer on; `aborted` tells whether it has been cleaned up.
unfoldable pub load : State → State
load s = record { report = none; loading = true; error = [] }

unfoldable pub report_request : ℕ → Request
report_request shop_id = record {
  method = get;
  path = text "/api/shops/" ++ decimal shop_id ++ text "/report";
  body = empty;
}

unfoldable pub take_report : Settled ShopReport → State → State
take_report (fulfilled report) s = record s { report = some report }
take_report (rejected (abort_error _)) s = s
take_report (rejected reason) s = record s { error = message_or reason report_not_loaded }

unfoldable pub loaded : Settled ShopReport → Bool → State → State
unfolding take_report
loaded reply aborted s =
    let t = take_report reply s in record t { loading = if aborted then t.loading else false }

-- The sections of the page.
unfoldable pub has_orders : Option ShopReport → Bool
has_orders none = false
has_orders (some report) = not (report.order_count == 0)

unfoldable pub has_none : Option ShopReport → Bool
has_none none = false
has_none (some report) = report.order_count == 0

unfoldable pub shows_error : State → Bool
shows_error s = not (is_empty s.error)

unfoldable pub shows_empty : State → Bool
shows_empty s = not s.loading && is_empty s.error && has_none s.report

unfoldable pub shows_report : State → Bool
shows_report s = not s.loading && is_empty s.error && has_orders s.report

-- A row for each status, in the page's order, with the count that the server gives or 0.
unfoldable pub count_in : List (Text × ℕ) → Text → ℕ
count_in [] key = 0
count_in ((k, n) ∷ counts) key = let rest = count_in counts key in if text_eq key k then n else rest

unfoldable pub report_statuses : List Text
report_statuses =
    text "waiting_info"
    ∷ text "waiting_payment"
    ∷ text "paid"
    ∷ text "preparing"
    ∷ text "shipped"
    ∷ text "cancelled"
    ∷ []

unfoldable pub status_rows : ShopReport → List (Option Text × ℕ)
status_rows report =
    map (λ key. (label_in admin_status_labels key, count_in report.status_counts key))
      report_statuses

-- An answer that is no abort, and that has a message if it is an error.
unfoldable pub speaks : Settled ShopReport → Bool
speaks (fulfilled report) = true
speaks (rejected (abort_error _)) = false
speaks (rejected reason) = not (is_empty (message_or reason report_not_loaded))

pub is_thrown : Settled ShopReport → Bool
is_thrown (fulfilled report) = false
is_thrown (rejected reason) = true

pub answer_has : (Option ShopReport → Bool) → Settled ShopReport → Bool
answer_has p (fulfilled report) = p (some report)
answer_has p (rejected reason) = false
