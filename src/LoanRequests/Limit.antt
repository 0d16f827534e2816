-- ===== src/LoanRequests/Limit.antt =====
-- About `maxLoanAmountForMemberSavings` of internal/app/loan_requests.go.
use kopdes.Base.Text.{Text}
