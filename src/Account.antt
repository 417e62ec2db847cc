-- ===== src/Account.antt =====
-- The account page (web/src/pages/AccountPage.tsx).
pub mod State
pub mod Fields
pub mod Cards
pub mod Settings
pub mod Laws
pub mod Replies
pub mod Labels
pub mod View
