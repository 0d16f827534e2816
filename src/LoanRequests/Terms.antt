-- ===== src/LoanRequests/Terms.antt =====
-- The terms of a loan: the schedule for its type, and the checks of a proposal that approval
-- (internal/app/loans.go) and the super admin's override (internal/app/super_admin_overrides.go)
-- share.
use kopdes.Base.{
  ℕ, ℤ, pos, ltb, not, ◌&&◌, Option, none, some, Result, ok, err, ◌>>=◌, ◌>>◌, reject_if, positive,
}
use kopdes.Base.Text.{Text, codes, text_eq, is_empty}
use kopdes.Savings.{saving_summary}
use kopdes.Schedule.Terms.{
  AdminFeePolicy, regular_tiered_monthly_v1, secondary_goods_one_time_v1,
  goods_purchase_paylater_one_time_v1, voucher_nominal_one_time_v1, LoanScheduleCalculation,
  ScheduleError, max_duration,
}
use kopdes.Schedule.Plan.{build_loan_schedule_from_obligation}
use kopdes.Schedule.Loans.{
  calculate_regular_loan_schedule, calculate_secondary_goods_loan_schedule,
  calculate_paylater_loan_schedule, calculate_voucher_loan_schedule,
}
use kopdes.Schedule.Snapshot.{validate_loan_fee_snapshot}
use kopdes.LoanRequests.{max_loan_amount_for_member_savings}
use kopdes.LoanRequests.Types.{
  LoanType, regular, secondary_goods, goods_purchase_paylater, voucher, other_type, Proposal,
  LoanRequest, Borrower, Desk, Outcome, LoanRequestError, invalid_loan_approval, invalid_calculated,
  loan_amount_limit_exceeded,
}

-- `if err != nil { return errInvalidLoanApprovalCalculated }`
abbrev pub calculated {ℓ} : {A : Type ℓ} → Result ScheduleError A → Result LoanRequestError A
calculated (ok a) = ok a
calculated (err _) = err invalid_calculated

-- What is proposed of a schedule.
abbrev pub proposal_of :
    AdminFeePolicy → ℤ → ℤ → Text → Option ℤ → LoanScheduleCalculation → Proposal
proposal_of policy amount duration start monthly calc = record {
  approved_amount = amount;
  duration_months = duration;
  start_date = start;
  admin_fee_policy = policy;
  monthly_admin_fee = monthly;
  total_admin_fee = pos calc.total_admin_fee;
  total_obligation = pos calc.total_obligation;
}

-- The `switch` on the type of the loan.
unfoldable pub schedule_terms : LoanType → Option ℤ → ℤ → ℤ → Text → Outcome Proposal
schedule_terms regular fee amount duration start = do
  calc ← calculated (calculate_regular_loan_schedule amount duration start)
  ok (
      proposal_of regular_tiered_monthly_v1 amount duration start
        (some (pos calc.monthly_admin_fee)) calc)
schedule_terms secondary_goods fee amount duration start = do
  calc ← calculated (calculate_secondary_goods_loan_schedule amount duration start)
  ok (proposal_of secondary_goods_one_time_v1 amount duration start none calc)
schedule_terms voucher none amount duration start = err invalid_loan_approval
schedule_terms voucher (some fee) amount duration start = do
  calc ← calculated (calculate_voucher_loan_schedule amount fee duration start)
  ok (proposal_of voucher_nominal_one_time_v1 amount duration start none calc)
schedule_terms goods_purchase_paylater fee amount duration start = do
  calc ← calculated (calculate_paylater_loan_schedule amount duration start)
  ok (proposal_of goods_purchase_paylater_one_time_v1 amount duration start none calc)
schedule_terms (other_type t) fee amount duration start = err invalid_loan_approval

-- The limit by savings, from which requests that an admin creates are exempt.
unfoldable pub check_limit : Desk → LoanRequest → Borrower → ℕ → Outcome (Unit {0})
check_limit desk r member amount =
    let summary = saving_summary r.member_id desk.savings in
    reject_if
      (not (text_eq r.creation_source (codes "admin"))
        && ltb
            (max_loan_amount_for_member_savings member.member_type summary.wajib_balance
              summary.sukarela_balance)
            amount)
      loan_amount_limit_exceeded

-- `ProposedApprovedAmount <= 0 || … || ProposedTotalObligation <= 0`, with the positive amount
unfoldable pub check_complete : Proposal → Outcome ℕ
check_complete p = do
  amount ← positive p.approved_amount invalid_loan_approval
  months ← positive p.duration_months invalid_loan_approval
  reject_if (is_empty p.start_date) invalid_loan_approval
  obligation ← positive p.total_obligation invalid_loan_approval
  ok amount

-- The fee snapshot validated, and the schedule rebuilt for a start date.
unfoldable pub check_terms : Proposal → Text → Outcome LoanScheduleCalculation
check_terms p start = do
  calculated (
      validate_loan_fee_snapshot p.admin_fee_policy p.approved_amount p.duration_months
        p.monthly_admin_fee p.total_admin_fee p.total_obligation)
  calculated (
      build_loan_schedule_from_obligation p.total_obligation p.duration_months start
        (max_duration p.admin_fee_policy))
