-- ===== src/CreateOrder.antt =====
-- web/src/pages/CreateOrderPage.tsx: the form by which a shop creates an order, and the screen
-- that shows the created order.
pub mod State
pub mod Fields
pub mod Submit
pub mod Validation
pub mod Outcome
pub mod Invariant
pub mod Labels
pub mod View
