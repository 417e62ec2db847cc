-- ===== src/App.antt =====
-- The session and the selection of a shop (web/src/App.tsx and web/src/AdminApp.tsx).
pub mod Session
pub mod Shops
pub mod Gate
pub mod Laws
pub mod Busy
pub mod Pending
pub mod Lock
pub mod Unlock
pub mod Labels
pub mod Frame
