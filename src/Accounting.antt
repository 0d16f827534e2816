-- ===== src/Accounting.antt =====
-- The ledger: internal/app/accounting.go.
pub mod Types
pub mod Lines
pub mod Mapping
pub mod Journal
pub mod Balance
pub mod Reversal
pub mod Reversed
pub mod Live
pub mod Standing
pub mod Exchanged
pub mod Entered
pub mod Sole
pub mod Topmost
pub mod Pending
pub mod Resolved
