-- ===== src/Tests.antt =====
-- Runs of the development on concrete data: the theorems applied to examples.
pub mod Data
pub mod Labels
pub mod Stored
pub mod Committed
pub mod Synced
pub mod Fetched
pub mod Paid
pub mod Checked
pub mod Stacked
pub mod Prepared
pub mod Validated
pub mod Rolled
pub mod Refunded
pub mod Encoded
