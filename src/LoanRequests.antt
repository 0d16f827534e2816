-- ===== src/LoanRequests.antt =====
-- Loan requests and loans: internal/app/loan_requests.go, internal/app/loans.go, the requests of
-- internal/app/admin_loan_requests.go and the loans of internal/app/super_admin_overrides.go. Here is
-- the limit on a loan.
pub mod Limit
pub mod Types
pub mod Terms
pub mod Requests
pub mod Decisions
pub mod Disbursement
pub mod Overrides
pub mod Backed
pub mod Invariant
pub mod Effects
pub mod Approvals
pub mod Disbursed
pub mod Books
pub mod Sound
pub mod Lifecycle
pub mod Progress
pub mod Payoff
pub mod PaidOut
use kopdes.Base.{ℕ, ◌/◌, ◌-◌, ◌==◌, ◌||◌, ltb, if◌then◌else◌, ℤ, pos_part, max_int64, add64, mul64}
use kopdes.Base.Text.{Text, codes, text_eq}

-- The `switch` on the member's type.
unfoldable pub savings_multiplier : Text → ℕ
savings_multiplier member_type =
    if text_eq member_type (codes "contract_worker")
    then 2
    else (if text_eq member_type (codes "employee")
        then 4
        else (if text_eq member_type (codes "daily_worker")
              || text_eq member_type (codes "customer")
            then 1
            else 0))

-- `maxLoanAmountForMemberSavings`; a negative balance counts as none.
unfoldable pub max_loan_amount_for_member_savings : Text → ℤ → ℤ → ℕ
max_loan_amount_for_member_savings member_type wajib_balance sukarela_balance =
    let multiplier = savings_multiplier member_type in
    let wajib = pos_part wajib_balance in
    let sukarela = pos_part sukarela_balance in
    let total_savings = add64 wajib sukarela in
    if multiplier == 0
    then 0
    else (if ltb (max_int64 - wajib) sukarela
        then max_int64
        else (if ltb (max_int64 / multiplier) total_savings
            then max_int64
            else mul64 total_savings multiplier))
