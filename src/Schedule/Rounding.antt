-- ===== src/Schedule/Rounding.antt =====
-- The admin fees of internal/app/loan_schedule.go against exact fractions.
use kopdes.Base.{
  ℕ, ◌+◌, ◌-◌, ◌*◌, ◌/◌, ◌<◌, ◌≤◌, ◌≡◌, ltb, if◌then◌else◌, pos, max_int64, add64_exact,
  mul64_exact, add64, mul64, ok, arith,
}
use native.Mathlib.Nat.{div-add-mod}
use kopdes.Schedule.Terms.{regular_loan_first_tier_limit}
use kopdes.Schedule.Fees.{calculate_percent_admin_fee, calculate_regular_loan_monthly_admin_fee_v1}

-- A product is within a bound when one factor is within the quotient of the bound by the other.
pub mul_le_of_le_div : (p q m : ℕ) → p ≤ m / q → p * q ≤ m
mul_le_of_le_div p q m h = grind (arith, div-add-mod m q)

-- The percentage fee is the principal's percentage rounded half up to whole Rupiah.
pub calculate_percent_admin_fee_rounds :
    (p q fee : ℕ)
    → calculate_percent_admin_fee (pos p) (pos q) ≡ ok fee
    → (100 * fee ≤ p * q + 50) × (p * q + 50 < 100 * fee + 100) × (p * q + 50 ≤ max_int64)
unfolding calculate_percent_admin_fee
calculate_percent_admin_fee_rounds p q fee h =
    ground (arith, mul_le_of_le_div p q (max_int64 - 50), mul64_exact p q, add64_exact (p * q) 50)

-- The exact monthly fee of a Regular Loan, in ten-thousandths of a Rupiah.
abbrev pub regular_fee_numerator : ℕ → ℕ
regular_fee_numerator p =
    if ltb regular_loan_first_tier_limit p
    then regular_loan_first_tier_limit * 100 + (p - regular_loan_first_tier_limit) * 150
    else p * 100

-- The monthly fee of a Regular Loan is 1% of the first 25 million and 1.5% of the rest, rounded half
-- up to whole Rupiah.
pub calculate_regular_loan_monthly_admin_fee_v1_rounds :
    (p fee : ℕ)
    → calculate_regular_loan_monthly_admin_fee_v1 (pos p) ≡ ok fee
    → (10_000 * fee ≤ regular_fee_numerator p + 5_000)
      × (regular_fee_numerator p + 5_000 < 10_000 * fee + 10_000)
unfolding calculate_regular_loan_monthly_admin_fee_v1 add64 mul64
calculate_regular_loan_monthly_admin_fee_v1_rounds p fee h = ground arith
