-- ===== src/AdminOrder/View.antt =====
-- What an order's page draws (web/src/pages/AdminOrderPage.tsx).
pub mod Handlers
pub mod Customer
pub mod Payments
pub mod Sections
pub mod Plain
pub mod Offers
pub mod Waiting
