-- ===== src/Schedule/Fees.antt =====
-- The admin fees of internal/app/loan_schedule.go. What passes a guard `<= 0` is positive, so the
-- arithmetic is on words that are not negative; sums and products keep 64 bits.
use kopdes.Base.{
  ℕ, ◌-◌, ◌/◌, ◌%◌, ltb, leb, if◌then◌else◌, ℤ, max_int64, add64, mul64, ok, ◌>>=◌, ◌>>◌, reject_if,
  positive,
}
use kopdes.Schedule.Terms.{
  Outcome, regular_loan_first_tier_limit, principal_not_positive, fee_overflow,
}

-- `calculatePercentAdminFee`
unfoldable pub calculate_percent_admin_fee : ℤ → ℤ → Outcome ℕ
calculate_percent_admin_fee principal percent = do
  p ← positive principal principal_not_positive
  q ← positive percent fee_overflow
  reject_if (ltb ((max_int64 - 50) / q) p) fee_overflow
  ok (add64 (mul64 p q) 50 / 100)

-- `calculateRegularLoanMonthlyAdminFeeV1`: 1% of the first tier and 1.5% of the rest, half up.
unfoldable pub calculate_regular_loan_monthly_admin_fee_v1 : ℤ → Outcome ℕ
calculate_regular_loan_monthly_admin_fee_v1 principal = do
  p ← positive principal principal_not_positive
  let first_tier = if ltb regular_loan_first_tier_limit p then regular_loan_first_tier_limit else p
  let excess = p - first_tier
  let first_tier_numerator = mul64 first_tier 100
  reject_if (ltb ((max_int64 - first_tier_numerator) / 150) excess) fee_overflow
  let fee_numerator = add64 first_tier_numerator (mul64 excess 150)
  let monthly_admin_fee = fee_numerator / 10_000
  ok (if leb 5_000 (fee_numerator % 10_000) then add64 monthly_admin_fee 1 else monthly_admin_fee)
