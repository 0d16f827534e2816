-- ===== src/Withdrawals.antt =====
-- Withdrawals of savings, from the request to the disbursement: internal/app/withdrawals.go, and
-- the super admin's decisions of internal/app/super_admin_overrides.go.
pub mod Types
pub mod Requests
pub mod Decisions
pub mod Disbursement
pub mod Overrides
pub mod Effects
pub mod Payout
pub mod Entered
pub mod Paid
pub mod Approved
pub mod Cover
pub mod Invariant
pub mod Sound
pub mod Lifecycle
