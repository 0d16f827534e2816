-- ===== src/Schedule.antt =====
-- Loan schedules: internal/app/loan_schedule.go.
pub mod Terms
pub mod Fees
pub mod Plan
pub mod Loans
pub mod Snapshot
pub mod Checked
pub mod Rounding
pub mod Totals
pub mod Approval
