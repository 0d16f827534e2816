-- ===== src/Examples/Loans.antt =====
-- Schedules, payments and chains of approval at concrete inputs.
use kopdes.Base.{
  ℕ, suc, ◌+◌, ◌*◌, ◌/◌, ◌%◌, ◌≤◌, ◌<◌, ◌≡◌, refl, ok, err, some, none, pos, max_int64, List, [],
  ◌∷◌, arith, sum_of, length, map,
}
use kopdes.Base.Text.{Text, codes}
use kopdes.Calendar.{Date, is_valid, loan_due_date, days_in_month, is_leap}
use kopdes.Calendar.Text.{parse_loan_date, parse_fields}
use kopdes.Schedule.Terms.{
  InstallmentCalculation, LoanScheduleCalculation, regular_tiered_monthly_v1,
}
use kopdes.Schedule.Fees.{calculate_regular_loan_monthly_admin_fee_v1}
use kopdes.Schedule.Plan.{build_installments, installments_from}
use kopdes.Schedule.Loans.{calculate_regular_loan_schedule}
use kopdes.Schedule.Totals.{build_installments_lem, IsPlanned, scheduled}
use kopdes.Schedule.Rounding.{
  calculate_regular_loan_monthly_admin_fee_v1_rounds, regular_fee_numerator,
}
use kopdes.Schedule.Approval.{IsApprovable, calculate_regular_loan_schedule-IsApprovable}
use kopdes.Allocation.{
  Rows, allocate_repayments_oldest_first, allocate_one, post_payment, unpaid_rows,
}
use kopdes.Allocation.Poured.{poured}
use kopdes.Allocation.Refines.{
  allocate_repayments_oldest_first-poured, post_payment-eq-allocate_one,
}

abbrev start_day : Date
start_day = record { year = 2024; month = 1; day = 21 }

abbrev start_text : Text
start_text = codes "2024-01-21"

abbrev due : ℕ → ℕ → Date
due month day = record { year = 2024; month = month; day = day }

abbrev row : ℕ → ℕ → ℕ → InstallmentCalculation
row number month amount = record {
  number = number;
  due_date = due month 20;
  scheduled_amount = amount;
  paid_amount = 0;
}

build_installments_example :
    (sum_of scheduled (build_installments start_day 100 3) ≡ 100)
    × (length (build_installments start_day 100 3) ≡ 3)
    × IsPlanned start_day (100 / 3) (100 / 3 + 100 % 3) 0 (build_installments start_day 100 3)
build_installments_example = build_installments_lem start_day 100 3 (omega arith) (omega arith)

abbrev regular_schedule : LoanScheduleCalculation
regular_schedule = record {
  total_interest = 0;
  monthly_admin_fee = 10_000;
  total_admin_fee = 20_000;
  total_obligation = 1_020_000;
  installments = row 1 3 510_000 ∷ row 2 4 510_000 ∷ [];
}

calculate_regular_loan_schedule_example :
    IsApprovable regular_tiered_monthly_v1
      (pos 1_000_000)
      (pos 2)
      start_text
      24
      (some (pos 10_000))
      regular_schedule
unfolding calculate_regular_loan_schedule calculate_regular_loan_monthly_admin_fee_v1
    parse_loan_date parse_fields is_valid days_in_month is_leap build_installments installments_from
    loan_due_date kopdes.Base.add64 kopdes.Base.mul64
calculate_regular_loan_schedule_example =
    calculate_regular_loan_schedule-IsApprovable (pos 1_000_000) (pos 2) start_text refl

calculate_regular_fee_example :
    (10_000 * 325_000 ≤ regular_fee_numerator 30_000_000 + 5_000)
    × (regular_fee_numerator 30_000_000 + 5_000 < 10_000 * 325_000 + 10_000)
unfolding calculate_regular_loan_monthly_admin_fee_v1 kopdes.Base.add64 kopdes.Base.mul64
calculate_regular_fee_example =
    calculate_regular_loan_monthly_admin_fee_v1_rounds 30_000_000 325_000 refl

abbrev three_rows : Rows
three_rows = row 1 3 33 ∷ row 2 4 33 ∷ row 3 5 34 ∷ []

allocate_repayments_example :
    allocate_repayments_oldest_first (poured 10 three_rows) (pos 30 ∷ pos 40 ∷ [])
    ≡ ok (poured 80 three_rows, 70)
allocate_repayments_example =
    allocate_repayments_oldest_first-poured three_rows (30 ∷ 40 ∷ []) 10
      (omega arith, (omega arith, tt)) (omega arith)

post_payment_example :
    post_payment 50 (unpaid_rows three_rows) three_rows ≡ allocate_one 50 three_rows
post_payment_example =
    post_payment-eq-allocate_one 50 1 three_rows (omega arith) (refl, (refl, (refl, tt)))
