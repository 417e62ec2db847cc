-- ===== src/Orders.antt =====
-- web/src/pages/OrdersPage.tsx: the list of a shop's orders.
pub mod Filters
pub mod Listing
pub mod Address
pub mod Stale
pub mod Pages
pub mod Sorting
pub mod Controls
pub mod Rows
pub mod Empty
pub mod Labels
pub mod Page
