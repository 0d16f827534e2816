-- ===== src/Repayments/StartDate.antt =====
-- A corrected start date: `correctLoanStartDateByID` of internal/app/loans.go.
use kopdes.Base.{
  ℕ, pos, ltb, ◌==◌, not, Bool, true, false, ◌&&◌, ◌||◌, if◌then◌else◌, List, [], ◌∷◌, ◌++◌, Result,
  ok, err, ◌>>=◌, ◌>>◌, reject_if, found, max_int64,
}
use kopdes.Base.Text.{Text, text_eq, trim_space}
use kopdes.Base.Table.{find, update}
use kopdes.Calendar.{Date}
use kopdes.Calendar.Text.{parse_loan_date}
use kopdes.Schedule.Terms.{
  AdminFeePolicy, legacy_flat_monthly, LoanScheduleCalculation, ScheduleError, max_duration,
}
use kopdes.Schedule.Plan.{build_loan_schedule_from_obligation}
use kopdes.Schedule.Snapshot.{validate_loan_fee_snapshot}
use kopdes.Repayments.Types.{
  Loan, Repayment, Books, key_of_loan, is_running, first_due, last_due, first_amount,
}

pub data StartDateError : Type 0 where
  invalid_loan_start_date loan_start_date_status loan_start_date_locked loan_not_found :
      StartDateError

abbrev Outcome : Type 0 → Type 0
Outcome A = Result StartDateError A

-- A row of `loan_start_date_audits`.
pub record StartDateAudit : Type 0 where
  pub loan_id : Text
  pub old_start_date : Text
  pub new_start_date : Text
  pub changed_by : Text

-- `Before` on days.
abbrev pub is_before : Date → Date → Bool
is_before d e =
    ltb d.year e.year
    || (d.year == e.year && (ltb d.month e.month || (d.month == e.month && ltb d.day e.day)))

-- `SELECT COUNT(*) FROM loan_repayments WHERE loan_id=$1`, above zero
abbrev pub has_repayment : Text → List Repayment → Bool
has_repayment loan_id [] = false
has_repayment loan_id (r ∷ rest) = text_eq r.loan_id loan_id || has_repayment loan_id rest

-- What the code reads beside the books: today's day, whether the loan has a row of
-- `loan_suspensions`, its column `legacy_terms` and the day of its request's creation.
pub record StartDateFacts : Type 0 where
  pub today : Date
  pub is_suspended : Bool
  pub legacy_terms : Bool
  pub requested_on : Date

abbrev is_legacy : AdminFeePolicy → Bool
is_legacy legacy_flat_monthly = true
is_legacy _ = false

-- `maxDuration`, for legacy terms the largest `int`
abbrev pub longest : Bool → AdminFeePolicy → ℕ
longest legacy policy = if legacy || is_legacy policy then max_int64 else max_duration policy

-- `if e != nil { return errInvalidLoanStartDate }`
abbrev pub dated {ℓ} : {A : Type ℓ} → Result ScheduleError A → Result StartDateError A
dated (ok a) = ok a
dated (err _) = err invalid_loan_start_date

-- The loan with its schedule rebuilt.
abbrev pub restart : Loan → Text → LoanScheduleCalculation → Loan
restart loan value calc = record loan {
  terms = record loan.terms {
    start_date = value;
    monthly_installment = first_amount calc.installments;
    final_due_date = last_due calc.installments;
  };
  next_due_date = first_due calc.installments;
  installments = calc.installments;
}

-- `correctLoanStartDateByID`
unfoldable pub correct_loan_start_date :
    Books
    → List StartDateAudit
    → StartDateFacts
    → Text
    → Text
    → Text
    → Outcome (Books × List StartDateAudit)
correct_loan_start_date books audits facts loan_id admin_id text = do
  let value = trim_space text
  start ← found (parse_loan_date value) invalid_loan_start_date
  reject_if (is_before facts.today start) invalid_loan_start_date
  loan ← found (find key_of_loan loan_id books.loans) loan_not_found
  reject_if (not (is_running loan.status)) loan_start_date_status
  reject_if facts.is_suspended loan_start_date_locked
  reject_if (has_repayment loan_id books.repayments) loan_start_date_locked
  reject_if (is_before start facts.requested_on) invalid_loan_start_date
  dated (
      validate_loan_fee_snapshot loan.terms.admin_fee_policy (pos loan.terms.approved_amount)
        loan.terms.duration_months loan.terms.monthly_admin_fee loan.terms.total_admin_fee
        (pos loan.total_obligation))
  calc ← dated (
      build_loan_schedule_from_obligation (pos loan.total_obligation) loan.terms.duration_months
        value (longest facts.legacy_terms loan.terms.admin_fee_policy))
  let audit : StartDateAudit = record {
    loan_id = loan_id;
    old_start_date = loan.terms.start_date;
    new_start_date = value;
    changed_by = admin_id;
  }
  ok (
    record books { loans = update key_of_loan loan_id (λ _. restart loan value calc) books.loans },
    audits ++ audit ∷ [],
  )
