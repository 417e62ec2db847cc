-- ===== src/HistoricalOrder.antt =====
-- web/src/pages/HistoricalOrderPage.tsx: the form by which a shop enters an order of the past.
pub mod State
pub mod Fields
pub mod Submit
pub mod Laws
pub mod Invariant
pub mod Labels
pub mod View
