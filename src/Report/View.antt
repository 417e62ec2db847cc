-- ===== src/Report/View.antt =====
-- The whole of what the report draws (web/src/pages/ReportPage.tsx), up to its fixed texts and the widths
-- of the bars.
use radif.Prelude.{or_else, text, Text, ℕ, ◌+◌, false, Option, none, some, List, [], ◌∷◌, ◌++◌}
use radif.Shared.Labels.{tomans}
use radif.Shared.Drawing.{
  Node, words, retry_notice, waiting, link, Display, when, when_text, flat_map,
}
use radif.Report.Labels.{
  orders_counted, no_report_yet, record_order_label, no_ranking_yet, pieces_label,
}
use radif.Report.{TopProduct, ShopReport, State, shows_empty, shows_report, status_rows}

pub data Handler : Type 0 where
  reload : Handler

unfoldable pub empty_part : List (Node Handler)
empty_part = words no_report_yet ∷ link record_order_label false (text "/orders/new") ∷ []

unfoldable pub totals_part : Display → ShopReport → List (Node Handler)
totals_part d report =
    words (d.number report.confirmed_order_value ++ tomans)
    ∷ words (d.number report.confirmed_order_count ++ orders_counted)
    ∷ words (d.number report.order_count)
    ∷ words (d.number report.average_order_value)
    ∷ []

unfoldable pub status_nodes : Display → Option Text × ℕ → List (Node Handler)
status_nodes d (label, count) = words (or_else label []) ∷ words (d.number count) ∷ []

unfoldable pub top_from : Display → ℕ → List TopProduct → List (Node Handler)
top_from d index [] = []
top_from d index (product ∷ products) =
    words (d.number (index + 1))
    ∷ words product.name
    ∷ words (d.number product.quantity ++ pieces_label)
    ∷ top_from d (index + 1) products

unfoldable pub products_part : Display → List TopProduct → List (Node Handler)
products_part d [] = words no_ranking_yet ∷ []
products_part d (product ∷ products) = top_from d 0 (product ∷ products)

unfoldable pub report_part : Display → Option ShopReport → List (Node Handler)
report_part d none = []
report_part d (some report) =
    totals_part d report
    ++ (flat_map (status_nodes d) (status_rows report) ++ products_part d report.top_products)

unfoldable pub view : Display → Text → State → List (Node Handler)
view d shop_name s =
    words shop_name
    ∷ (when s.loading (waiting ∷ [])
        ++ (when_text s.error (λ e. retry_notice e reload ∷ [])
            ++ (when (shows_empty s) empty_part ++ when (shows_report s) (report_part d s.report))))
