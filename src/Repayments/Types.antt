-- ===== src/Repayments/Types.antt =====
-- The tables that a repayment reads and writes. The empty text and NULL are one missing due date;
-- times of day are left out. A loan's installments stand in its row, in the order of their numbers.
use kopdes.Base.{
  ℤ, ℕ, ltb, Bool, true, false, Option, none, some, List, [], ◌∷◌, if◌then◌else◌, Result,
}
use kopdes.Base.Text.{Text}
use kopdes.Calendar.{Date}
use kopdes.Schedule.Terms.{AdminFeePolicy}
use kopdes.Allocation.{Rows}
use kopdes.Accounting.Types.{Ledger, JournalError}

pub data LoanStatus : Type 0 where
  active adjustment_due paid cancelled : LoanStatus

-- The columns that no repayment changes.
pub record LoanTerms : Type 0 where
  pub loan_request_id : Text
  pub approved_amount : ℕ
  pub duration_months : ℤ
  pub monthly_installment : ℕ
  pub start_date : Text
  pub admin_fee_policy : AdminFeePolicy
  pub monthly_admin_fee : Option ℤ
  pub total_admin_fee : ℤ
  pub final_due_date : Option Date
  pub approved_by : Text

pub record Loan : Type 0 where
  pub id : Text
  pub terms : LoanTerms
  pub member_id : Text
  pub loan_type : Text
  pub total_obligation : ℕ
  pub remaining_balance : ℕ
  pub status : LoanStatus
  pub next_due_date : Option Date
  pub installments : Rows

-- `LoanRepayment`
pub record Repayment : Type 0 where
  pub id : Text
  pub loan_id : Text
  pub member_id : Text
  pub source : Text
  pub coa_code : Text
  pub amount : ℕ
  pub record_date : Text
  pub reference_no : Text
  pub note : Text
  pub recorded_by : Text

-- A row of `loan_repayment_audits` with the action "added".
pub record Audit : Type 0 where
  pub after_state : Repayment
  pub reason : Text
  pub actor_id : Text

pub record Books : Type 0 where
  pub loans : List Loan
  pub repayments : List Repayment
  pub audits : List Audit
  pub ledger : Ledger

pub data RepaymentError : Type 0 where
  coa_override_forbidden invalid_repayment loan_not_found : RepaymentError
  loan_not_active over_balance no_installment_due : RepaymentError
  schedule_missing correction_other_active : RepaymentError
  journal_failed : JournalError → RepaymentError

abbrev pub Outcome : Type 0 → Type 0
Outcome A = Result RepaymentError A

abbrev pub key_of_loan : Loan → Text
key_of_loan l = l.id

-- `loan.Status == "active" || loan.Status == "adjustment_due"`
abbrev pub is_running : LoanStatus → Bool
is_running active = true
is_running adjustment_due = true
is_running _ = false

-- The due date of the first installment that is not paid in full.
abbrev pub next_due : Rows → Option Date
next_due [] = none
next_due (i ∷ rest) =
    if ltb i.paid_amount i.scheduled_amount then some i.due_date else next_due rest

-- The due date of the first installment.
abbrev pub first_due : Rows → Option Date
first_due [] = none
first_due (i ∷ _) = some i.due_date

abbrev pub first_amount : Rows → ℕ
first_amount [] = 0
first_amount (i ∷ _) = i.scheduled_amount

abbrev pub last_due : Rows → Option Date
last_due [] = none
last_due (i ∷ []) = some i.due_date
last_due (i ∷ j ∷ rest) = last_due (j ∷ rest)
