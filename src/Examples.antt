-- ===== src/Examples.antt =====
-- The theorems at concrete inputs, where their conditions hold.
mod Data
mod Days
mod Creating
mod Importing
mod Ordering
mod Managing
mod Sharing
mod Listing
mod Working
mod Entering
mod Drawing
