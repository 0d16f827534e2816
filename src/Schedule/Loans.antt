-- ===== src/Schedule/Loans.antt =====
-- The schedules of the four kinds of loan, and of a loan with flat interest
-- (internal/app/loan_schedule.go).
use kopdes.Base.{
  ℕ, ◌-◌, ◌/◌, ◌%◌, not, ◌&&◌, ltb, leb, ◌==◌, if◌then◌else◌, ℤ, pos, max_int64, add64, mul64, ok,
  ◌>>=◌, ◌>>◌, reject_if, found, positive, natural,
}
use kopdes.Base.Text.{Text}
use kopdes.Calendar.Text.{parse_loan_date}
use kopdes.Schedule.Terms.{
  Outcome, LoanScheduleCalculation, max_loan_interest_rate_bps, max_loan_duration_months,
  max_regular_loan_duration_months, max_secondary_goods_duration, principal_not_positive,
  duration_out_of_range, rate_out_of_range, obligation_below_duration, invalid_loan_date,
  total_fee_overflow, obligation_overflow, interest_overflow, invalid_voucher_terms,
}
use kopdes.Schedule.Fees.{calculate_percent_admin_fee, calculate_regular_loan_monthly_admin_fee_v1}
use kopdes.Schedule.Plan.{build_installments, build_loan_schedule_from_obligation}

-- `calculateVoucherLoanSchedule`
unfoldable pub calculate_voucher_loan_schedule : ℤ → ℤ → ℤ → Text → Outcome LoanScheduleCalculation
calculate_voucher_loan_schedule principal admin_fee duration_months start_date = do
  p ← positive principal invalid_voucher_terms
  fee ← natural admin_fee invalid_voucher_terms
  reject_if (ltb (max_int64 - fee) p) invalid_voucher_terms
  months ← positive duration_months invalid_voucher_terms
  reject_if (not (months == 1)) invalid_voucher_terms
  calc ← build_loan_schedule_from_obligation (pos (add64 p fee)) (pos 1) start_date 1
  ok (record calc { total_admin_fee = fee })

-- What the loans with a fee in per cent of the principal do after their duration test.
percent_loan_schedule : ℤ → ℤ → ℤ → Text → ℕ → Outcome LoanScheduleCalculation
percent_loan_schedule principal percent duration_months start_date max_duration = do
  total_admin_fee ← calculate_percent_admin_fee principal percent
  p ← positive principal principal_not_positive
  reject_if (ltb (max_int64 - total_admin_fee) p) obligation_overflow
  calc ←
      build_loan_schedule_from_obligation (pos (add64 p total_admin_fee)) duration_months start_date
        max_duration
  ok (record calc { total_admin_fee = total_admin_fee })

-- `calculateSecondaryGoodsLoanSchedule`
unfoldable pub calculate_secondary_goods_loan_schedule :
    ℤ → ℤ → Text → Outcome LoanScheduleCalculation
unfolding percent_loan_schedule
calculate_secondary_goods_loan_schedule principal duration_months start_date = do
  months ← positive duration_months duration_out_of_range
  reject_if (ltb max_secondary_goods_duration months) duration_out_of_range
  percent_loan_schedule principal (pos 20) duration_months start_date max_secondary_goods_duration

-- `calculatePaylaterLoanSchedule`
unfoldable pub calculate_paylater_loan_schedule : ℤ → ℤ → Text → Outcome LoanScheduleCalculation
unfolding percent_loan_schedule
calculate_paylater_loan_schedule principal duration_months start_date = do
  months ← positive duration_months duration_out_of_range
  reject_if (not (months == 1)) duration_out_of_range
  percent_loan_schedule principal (pos 5) (pos 1) start_date 1

-- `calculateRegularLoanSchedule`
unfoldable pub calculate_regular_loan_schedule : ℤ → ℤ → Text → Outcome LoanScheduleCalculation
calculate_regular_loan_schedule principal duration_months start_date = do
  p ← positive principal principal_not_positive
  months ← positive duration_months duration_out_of_range
  reject_if (ltb max_regular_loan_duration_months months) duration_out_of_range
  start ← found (parse_loan_date start_date) invalid_loan_date
  monthly_admin_fee ← calculate_regular_loan_monthly_admin_fee_v1 principal
  reject_if (ltb (max_int64 / months) monthly_admin_fee) total_fee_overflow
  let total_admin_fee = mul64 monthly_admin_fee months
  reject_if (ltb (max_int64 - total_admin_fee) p) obligation_overflow
  let total_obligation = add64 p total_admin_fee
  reject_if (ltb total_obligation months) obligation_below_duration
  ok (record {
    total_interest = 0;
    monthly_admin_fee = monthly_admin_fee;
    total_admin_fee = total_admin_fee;
    total_obligation = total_obligation;
    installments = build_installments start total_obligation months;
  })

-- `calculateLoanScheduleWithMaxDuration`: flat interest, rounded half up.
unfoldable pub calculate_loan_schedule_with_max_duration :
    ℤ → ℤ → ℤ → Text → ℕ → Outcome LoanScheduleCalculation
calculate_loan_schedule_with_max_duration principal duration_months rate start_date max_duration =
    do
      p ← positive principal principal_not_positive
      months ← positive duration_months duration_out_of_range
      reject_if (ltb max_duration months) duration_out_of_range
      bps ← natural rate rate_out_of_range
      reject_if (ltb max_loan_interest_rate_bps bps) rate_out_of_range
      start ← found (parse_loan_date start_date) invalid_loan_date
      let multiplier = mul64 bps months
      reject_if (not (multiplier == 0) && ltb (max_int64 / multiplier) p) interest_overflow
      let numerator = mul64 p multiplier
      let total_interest =
          if leb 5_000 (numerator % 10_000)
          then add64 (numerator / 10_000) 1
          else numerator / 10_000
      reject_if (ltb 0 total_interest && ltb (max_int64 - total_interest) p) obligation_overflow
      let total_obligation = add64 p total_interest
      reject_if (ltb total_obligation months) obligation_below_duration
      ok (record {
        total_interest = total_interest;
        monthly_admin_fee = 0;
        total_admin_fee = 0;
        total_obligation = total_obligation;
        installments = build_installments start total_obligation months;
      })

-- `calculateLoanSchedule`
unfoldable pub calculate_loan_schedule : ℤ → ℤ → ℤ → Text → Outcome LoanScheduleCalculation
unfolding calculate_loan_schedule_with_max_duration
calculate_loan_schedule principal duration_months rate start_date =
    calculate_loan_schedule_with_max_duration principal duration_months rate start_date
      max_loan_duration_months

-- `calculateLegacyLoanSchedule`: the largest `int` for the longest duration.
unfoldable pub calculate_legacy_loan_schedule : ℤ → ℤ → ℤ → Text → Outcome LoanScheduleCalculation
unfolding calculate_loan_schedule_with_max_duration
calculate_legacy_loan_schedule principal duration_months rate start_date =
    calculate_loan_schedule_with_max_duration principal duration_months rate start_date max_int64
