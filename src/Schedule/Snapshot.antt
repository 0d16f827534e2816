-- ===== src/Schedule/Snapshot.antt =====
-- `validateLoanFeeSnapshot` of internal/app/loan_schedule.go.
use kopdes.Base.{
  ℕ, ◌-◌, ◌/◌, Bool, true, false, not, ◌||◌, ltb, ◌==◌, ℤ, pos, negsuc, max_int64, add64, mul64,
  Option, none, some, ok, err, ◌>>=◌, ◌>>◌, reject_if, positive, natural,
}
use kopdes.Schedule.Terms.{
  AdminFeePolicy, regular_tiered_monthly_v1, secondary_goods_one_time_v1,
  goods_purchase_paylater_one_time_v1, voucher_nominal_one_time_v1, legacy_flat_monthly, unknown,
  Outcome, max_regular_loan_duration_months, max_secondary_goods_duration, invalid_snapshot_totals,
  invalid_snapshot, legacy_monthly_present, unknown_policy,
}
use kopdes.Schedule.Fees.{calculate_percent_admin_fee, calculate_regular_loan_monthly_admin_fee_v1}

-- `err != nil || fee != expected`, for a fee that was computed anew.
abbrev pub differs : Outcome ℕ → ℕ → Bool
differs (ok expected) fee = not (fee == expected)
differs (err _) fee = true

abbrev pub is_present : Option ℤ → Bool
is_present none = false
is_present (some _) = true

-- The monthly fee of a Regular Loan snapshot: present, as computed anew, and the total by months.
abbrev pub regular_mismatch : Outcome ℕ → Option ℤ → ℕ → ℕ → Bool
regular_mismatch expected none months fee = true
regular_mismatch expected (some (negsuc _)) months fee = true
regular_mismatch expected (some (pos monthly)) months fee =
    differs expected monthly
    || ltb (max_int64 / months) monthly
    || not (mul64 monthly months == fee)
    || ltb max_regular_loan_duration_months months

-- The `switch` on the policy, with the positive principal and duration and the total fee.
unfoldable pub policy_check : AdminFeePolicy → ℤ → ℕ → Option ℤ → ℕ → Outcome (Unit {0})
policy_check regular_tiered_monthly_v1 principal months monthly fee =
    reject_if
      (regular_mismatch (calculate_regular_loan_monthly_admin_fee_v1 principal) monthly months fee)
      invalid_snapshot
policy_check secondary_goods_one_time_v1 principal months monthly fee =
    reject_if
      (differs (calculate_percent_admin_fee principal (pos 20)) fee
        || is_present monthly
        || ltb max_secondary_goods_duration months)
      invalid_snapshot
policy_check goods_purchase_paylater_one_time_v1 principal months monthly fee =
    reject_if
      (differs (calculate_percent_admin_fee principal (pos 5)) fee
        || is_present monthly
        || not (months == 1))
      invalid_snapshot
policy_check voucher_nominal_one_time_v1 principal months monthly fee =
    reject_if (is_present monthly || not (months == 1)) invalid_snapshot
policy_check legacy_flat_monthly principal months monthly fee =
    reject_if (is_present monthly) legacy_monthly_present
policy_check unknown principal months monthly fee = err unknown_policy

-- The call with all its guards.
unfoldable pub validate_loan_fee_snapshot :
    AdminFeePolicy → ℤ → ℤ → Option ℤ → ℤ → ℤ → Outcome (Unit {0})
unfolding policy_check
validate_loan_fee_snapshot policy principal duration_months monthly total_admin_fee
      total_obligation =
    do
      p ← positive principal invalid_snapshot_totals
      months ← positive duration_months invalid_snapshot_totals
      fee ← natural total_admin_fee invalid_snapshot_totals
      total ← positive total_obligation invalid_snapshot_totals
      reject_if (ltb (max_int64 - fee) p || not (add64 p fee == total)) invalid_snapshot_totals
      policy_check policy principal months monthly fee
