-- ===== src/Repayments.antt =====
-- Loan repayments: internal/app/repayments.go and internal/app/repayment_corrections.go.
pub mod Types
pub mod Posting
pub mod Refresh
pub mod Current
pub mod Kept
pub mod Opened
pub mod StartDate
pub mod Restarted
pub mod Rebuilt
pub mod Recomputed
pub mod Corrections
pub mod Corrected
pub mod Synced
pub mod Corrects
pub mod Mirrored
pub mod Reconciled
pub mod Entered
pub mod Lifecycle
