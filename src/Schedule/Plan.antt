-- ===== src/Schedule/Plan.antt =====
-- The installments of a schedule, and the schedule rebuilt from an approved obligation
-- (internal/app/loan_schedule.go).
use kopdes.Base.{
  ℕ, zero, suc, ◌+◌, ◌/◌, ◌%◌, ltb, ◌==◌, if◌then◌else◌, ℤ, List, [], ◌∷◌, ok, ◌>>=◌, ◌>>◌,
  reject_if, found, positive, add64,
}
use kopdes.Calendar.{Date, loan_due_date}
use kopdes.Base.Text.{Text}
use kopdes.Calendar.Text.{parse_loan_date}
use kopdes.Schedule.Terms.{
  Outcome, InstallmentCalculation, LoanScheduleCalculation, obligation_not_positive,
  duration_out_of_range, obligation_below_duration, invalid_loan_date,
}

-- The loop over `make([]InstallmentCalculation, count)`, with the rounds that are left.
unfoldable pub installments_from :
    Date → (regular_amount remainder count left index : ℕ) → List InstallmentCalculation
installments_from start regular_amount remainder count zero index = []
installments_from start regular_amount remainder count (suc left) index =
    record {
      number = index + 1;
      due_date = loan_due_date start (index + 1);
      scheduled_amount =
          if index + 1 == count then add64 regular_amount remainder else regular_amount;
      paid_amount = 0;
    }
    ∷ installments_from start regular_amount remainder count left (index + 1)

-- An obligation split over a number of months.
unfoldable pub build_installments : Date → ℕ → ℕ → List InstallmentCalculation
unfolding installments_from
build_installments start total months =
    installments_from start (total / months) (total % months) months months 0

-- `buildLoanScheduleFromObligation`
unfoldable pub build_loan_schedule_from_obligation :
    ℤ → ℤ → Text → ℕ → Outcome LoanScheduleCalculation
build_loan_schedule_from_obligation total_obligation duration_months start_date max_duration = do
  total ← positive total_obligation obligation_not_positive
  months ← positive duration_months duration_out_of_range
  reject_if (ltb max_duration months) duration_out_of_range
  reject_if (ltb total months) obligation_below_duration
  start ← found (parse_loan_date start_date) invalid_loan_date
  ok (record {
    total_interest = 0;
    monthly_admin_fee = 0;
    total_admin_fee = 0;
    total_obligation = total;
    installments = build_installments start total months;
  })
