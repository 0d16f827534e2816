-- ===== src/LoanRequests/Types.antt =====
-- The tables that the loan requests read and write. Left out are times of day, the idempotency key of
-- a request that an admin creates, and the account codes proposed for a loan, which every operation
-- sets to the empty text.
use kopdes.Base.{ℕ, ℤ, Bool, true, false, not, ◌&&◌, ◌||◌, Option, List, Result}
use kopdes.Base.Text.{Text, codes}
use kopdes.Approval.{Stage}
use kopdes.Approval.Requests.{RequestStatus, Decision, NoticeRow, is_pending, is_approved, is_some}
use kopdes.Savings.{SavingRecord}
use kopdes.Schedule.Terms.{AdminFeePolicy}
use kopdes.Accounting.Types.{JournalError}
use kopdes.Repayments.Types.{Books, RepaymentError}

-- `loan_type`; `other_type` is any text that no `switch` names.
pub data LoanType : Type 0 where
  regular secondary_goods goods_purchase_paylater voucher : LoanType
  other_type : Text → LoanType

abbrev pub text_of : LoanType → Text
text_of regular = codes "regular"
text_of secondary_goods = codes "secondary_goods"
text_of goods_purchase_paylater = codes "goods_purchase_paylater"
text_of voucher = codes "voucher"
text_of (other_type t) = t

abbrev pub is_regular : LoanType → Bool
is_regular regular = true
is_regular _ = false

abbrev pub is_voucher : LoanType → Bool
is_voucher voucher = true
is_voucher _ = false

-- The columns `proposed_*`, which one statement sets together.
pub record Proposal : Type 0 where
  pub approved_amount : ℤ
  pub duration_months : ℤ
  pub start_date : Text
  pub admin_fee_policy : AdminFeePolicy
  pub monthly_admin_fee : Option ℤ
  pub total_admin_fee : ℤ
  pub total_obligation : ℤ

-- `disbursement_date`, `disbursed_by` and `disbursed_at`
pub record LoanDisbursement : Type 0 where
  pub date : Text
  pub by : Text

-- `cancellation_reason` and `cancelled_by`
pub record Cancellation : Type 0 where
  pub reason : Text
  pub by : Text

-- A row of `loan_requests`.
pub record LoanRequest : Type 0 where
  pub id : Text
  pub member_id : Text
  pub loan_type : LoanType
  pub requested_amount : ℤ
  pub requested_admin_fee : Option ℤ
  pub duration_months : ℤ
  pub purpose : Text
  pub status : RequestStatus
  pub stage : Option Stage
  pub reviewed_by : Option Text
  pub rejection_reason : Text
  pub creation_source : Text
  pub created_by : Text
  pub batch_id : Text
  pub cancellation : Option Cancellation
  pub proposal : Option Proposal
  pub settle_outstanding_loans : Bool
  pub loan_payoff_amount : ℕ
  pub disbursement : Option LoanDisbursement

-- The columns of `members` that a loan request reads.
pub record Borrower : Type 0 where
  pub id : Text
  pub is_active : Bool
  pub deactivation_pending : Bool
  pub member_type : Text
  pub bank_name : Text
  pub bank_account : Text

pub record Desk : Type 0 where
  pub members : List Borrower
  pub savings : List SavingRecord
  pub requests : List LoanRequest
  pub decisions : List Decision
  pub notices : List NoticeRow
  pub books : Books

pub data LoanRequestError : Type 0 where
  invalid_loan_request inactive_loan_member pending_loan_request_exists : LoanRequestError
  member_deactivation_pending member_bank_details_required : LoanRequestError
  loan_amount_limit_exceeded invalid_loan_rejection : LoanRequestError
  invalid_loan_approval loan_request_not_pending loan_request_not_found : LoanRequestError
  not_ready_for_disbursement invalid_calculated invalid_disbursement_date : LoanRequestError
  payoff_exceeds_disbursement wrong_approval_stage member_not_found : LoanRequestError
  invalid_cancellation cancel_forbidden super_admin_required : LoanRequestError
  journal_failed : JournalError → LoanRequestError
  payoff_failed : RepaymentError → LoanRequestError

abbrev pub Outcome : Type 0 → Type 0
Outcome A = Result LoanRequestError A

abbrev pub key_of_loan_request : LoanRequest → Text
key_of_loan_request r = r.id

abbrev pub key_of_borrower : Borrower → Text
key_of_borrower m = m.id

-- `status='pending' OR (status='approved' AND disbursement_date='')`
abbrev pub is_in_flight : LoanRequest → Bool
is_in_flight r = is_pending r.status || (is_approved r.status && not (is_some r.disbursement))
