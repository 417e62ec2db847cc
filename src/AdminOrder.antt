-- ===== src/AdminOrder.antt =====
-- web/src/pages/AdminOrderPage.tsx: the page on which a shop works on one of its orders.
pub mod State
pub mod Save
pub mod Fields
pub mod Calls
pub mod Serial
pub mod Payment
pub mod Laws
pub mod Actions
pub mod Labels
pub mod View
