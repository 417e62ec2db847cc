-- ===== src/PublicOrder/Page.antt =====
-- The whole of what a customer's page draws (web/src/pages/PublicOrderPage.tsx).
pub mod Payments
pub mod Details
pub mod Offers
