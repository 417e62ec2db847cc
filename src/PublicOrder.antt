-- ===== src/PublicOrder.antt =====
-- web/src/pages/PublicOrderPage.tsx: the page that the customer of an order opens by its link.
pub mod State
pub mod Payment
pub mod View
pub mod Submit
pub mod Phases
pub mod Details
pub mod Labels
pub mod Page
