-- ===== src/Withdrawals/Types.antt =====
-- The tables that the withdrawals read and write. Times of day are left out; a row of
-- `withdrawal_reservations` stands in the row of its request, which it references uniquely.
use kopdes.Base.{ℕ, Bool, true, false, ◌&&◌, if◌then◌else◌, Option, List, sum_of, Result}
use kopdes.Base.Text.{Text, text_eq}
use kopdes.Approval.Requests.{RequestStatus, Decision, NoticeRow}
use kopdes.Approval.{Stage}
use kopdes.Accounting.Types.{Ledger, JournalError}
use kopdes.Savings.{SavingRecord}

pub data ReservationStatus : Type 0 where
  active released consumed : ReservationStatus

pub record Reservation : Type 0 where
  pub amount : ℕ
  pub status : ReservationStatus

-- `disbursement_date`, `disbursed_by`, `disbursed_at` and `saving_record_id`, which one statement
-- sets together.
pub record Disbursement : Type 0 where
  pub date : Text
  pub by : Text
  pub saving_record_id : Text

-- A row of `withdrawal_requests`.
pub record Request : Type 0 where
  pub id : Text
  pub member_id : Text
  pub amount : ℕ
  pub note : Text
  pub status : RequestStatus
  pub stage : Option Stage
  pub reviewed_by : Option Text
  pub rejection_reason : Text
  pub proposed_cash_coa_code : Text
  pub proposed_savings_coa_code : Text
  pub creation_source : Text
  pub disbursement : Option Disbursement
  pub reservation : Reservation

pub record Member : Type 0 where
  pub id : Text
  pub is_active : Bool
  -- a row of `member_deactivation_requests` that is pending
  pub deactivation_pending : Bool

pub record Db : Type 0 where
  pub members : List Member
  pub savings : List SavingRecord
  pub requests : List Request
  pub decisions : List Decision
  pub notices : List NoticeRow
  pub ledger : Ledger

pub data WithdrawalError : Type 0 where
  invalid_withdrawal_request inactive_withdrawal_member : WithdrawalError
  insufficient_sukarela_balance withdrawal_request_not_found : WithdrawalError
  withdrawal_request_not_pending invalid_withdrawal_rejection : WithdrawalError
  not_ready_for_disbursement invalid_disbursement_date disburser_role : WithdrawalError
  coa_override_forbidden wrong_approval_stage member_deactivation_pending : WithdrawalError
  member_not_found super_admin_required : WithdrawalError
  journal_failed : JournalError → WithdrawalError

abbrev pub Outcome : Type 0 → Type 0
Outcome A = Result WithdrawalError A

abbrev pub key_of_request : Request → Text
key_of_request r = r.id

abbrev pub key_of_member : Member → Text
key_of_member m = m.id

abbrev pub is_held : ReservationStatus → Bool
is_held active = true
is_held _ = false

-- What a request holds back of a member's savings.
abbrev pub held_for : Text → Request → ℕ
held_for member_id r =
    if text_eq r.member_id member_id && is_held r.reservation.status
    then r.reservation.amount
    else 0

-- `SELECT COALESCE(SUM(amount),0) FROM withdrawal_reservations WHERE member_id=$1 AND status='active'`
abbrev pub reserved : Text → List Request → ℕ
reserved member_id = sum_of (held_for member_id)
