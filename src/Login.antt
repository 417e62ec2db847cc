-- ===== src/Login.antt =====
-- web/src/pages/LoginPage.tsx: the login, the signup, the reset of a password and the first shop.
pub mod Steps
pub mod Fields
pub mod Laws
pub mod Tasks
pub mod Labels
pub mod View
