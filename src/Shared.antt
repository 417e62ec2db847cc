-- ===== src/Shared.antt =====
-- web/src/shared.ts: the types, the calls of the server, and the helpers of the pages.
pub mod Types
pub mod Messages
pub mod Api
pub mod Effects
pub mod Digits
pub mod Ages
pub mod Dates
pub mod Drawing
pub mod Labels
pub mod Channels
pub mod Statuses
pub mod Storage
pub mod RandomId
pub mod Groups
pub mod Templates
pub mod Share
pub mod Handled
