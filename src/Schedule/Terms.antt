-- ===== src/Schedule/Terms.antt =====
-- The constants, records and errors of internal/app/loan_schedule.go.
use kopdes.Base.{ℕ, List, Result}
use kopdes.Calendar.{Date}

abbrev pub default_loan_interest_rate_bps : ℕ
default_loan_interest_rate_bps = 100

abbrev pub max_loan_interest_rate_bps : ℕ
max_loan_interest_rate_bps = 1000

abbrev pub max_loan_duration_months : ℕ
max_loan_duration_months = 120

abbrev pub max_regular_loan_duration_months : ℕ
max_regular_loan_duration_months = 24

abbrev pub max_secondary_goods_duration : ℕ
max_secondary_goods_duration = 12

abbrev pub regular_loan_first_tier_limit : ℕ
regular_loan_first_tier_limit = 25_000_000

-- The policy text of a fee snapshot; `unknown` is any text that the switch does not name.
pub data AdminFeePolicy : Type 0 where
  regular_tiered_monthly_v1 : AdminFeePolicy
  secondary_goods_one_time_v1 : AdminFeePolicy
  goods_purchase_paylater_one_time_v1 : AdminFeePolicy
  voucher_nominal_one_time_v1 : AdminFeePolicy
  legacy_flat_monthly : AdminFeePolicy
  unknown : AdminFeePolicy

-- Amounts are whole Rupiah. The due date stands for its text, `format_date` of it.
pub record InstallmentCalculation : Type 0 where
  pub number : ℕ
  pub due_date : Date
  pub scheduled_amount : ℕ
  pub paid_amount : ℕ

pub record LoanScheduleCalculation : Type 0 where
  pub total_interest : ℕ
  pub monthly_admin_fee : ℕ
  pub total_admin_fee : ℕ
  pub total_obligation : ℕ
  pub installments : List InstallmentCalculation

pub data ScheduleError : Type 0 where
  principal_not_positive obligation_not_positive : ScheduleError
  duration_out_of_range rate_out_of_range : ScheduleError
  obligation_below_duration : ScheduleError
  invalid_loan_date : ScheduleError
  fee_overflow total_fee_overflow obligation_overflow interest_overflow : ScheduleError
  invalid_voucher_terms : ScheduleError
  invalid_snapshot_totals invalid_snapshot legacy_monthly_present unknown_policy : ScheduleError

abbrev pub Outcome : Type 0 → Type 0
Outcome A = Result ScheduleError A

-- `maxDuration` by the policy.
abbrev pub max_duration : AdminFeePolicy → ℕ
max_duration secondary_goods_one_time_v1 = max_secondary_goods_duration
max_duration goods_purchase_paylater_one_time_v1 = 1
max_duration voucher_nominal_one_time_v1 = 1
max_duration _ = max_regular_loan_duration_months
