-- ===== src/Schedule/Approval.antt =====
-- The calculators of internal/app/loan_schedule.go against the checks at approval.
use kopdes.Base.{
  ℕ, zero, suc, ◌+◌, ◌-◌, ◌/◌, ◌≤◌, ◌≡◌, false, ltb, max_int64, add64, mul64, add64_exact, arith, ℤ,
  pos, negsuc, pos_part, Option, none, some, ok, Option-cases, inl, inr,
}
use kopdes.Calendar.{Date}
use kopdes.Base.Text.{Text}
use kopdes.Calendar.Text.{parse_loan_date}
use kopdes.Schedule.Terms.{
  LoanScheduleCalculation, regular_tiered_monthly_v1, secondary_goods_one_time_v1,
  goods_purchase_paylater_one_time_v1, voucher_nominal_one_time_v1,
  max_regular_loan_duration_months, max_secondary_goods_duration, AdminFeePolicy,
}
use kopdes.Schedule.Fees.{calculate_regular_loan_monthly_admin_fee_v1, calculate_percent_admin_fee}
use kopdes.Schedule.Plan.{build_installments, build_loan_schedule_from_obligation}
use kopdes.Schedule.Loans.{
  calculate_regular_loan_schedule, calculate_secondary_goods_loan_schedule,
  calculate_paylater_loan_schedule, calculate_voucher_loan_schedule,
}
use kopdes.Schedule.Snapshot.{validate_loan_fee_snapshot, policy_check}

-- What the approval checks of a schedule `s` for a principal, a duration and a start date.
pub record IsApprovable (policy : AdminFeePolicy) (principal duration : ℤ) (start : Text)
    (longest : ℕ) (monthly : Option ℤ) (s : LoanScheduleCalculation) : Type 0 where
  pub total : s.total_obligation ≡ pos_part principal + s.total_admin_fee
  pub fits : s.total_obligation ≤ max_int64
  pub snapshot :
      validate_loan_fee_snapshot policy principal duration monthly
        (pos s.total_admin_fee)
        (pos s.total_obligation)
      ≡ ok tt
  pub rebuilt :
      (r : LoanScheduleCalculation) × (build_loan_schedule_from_obligation
          (pos s.total_obligation)
          duration
          start
          longest
        ≡ ok r)
      × (r.installments ≡ s.installments)

-- What the calculators share: a parsed date, the obligation without overflow, and its plan.
record IsBuilt (p m : ℕ) (start : Text) (s : LoanScheduleCalculation) : Type 0 where
  date : Date
  parsed : parse_loan_date start ≡ some date
  total : s.total_obligation ≡ p + s.total_admin_fee
  fits : s.total_obligation ≤ max_int64
  covers : m ≤ s.total_obligation
  planned : s.installments ≡ build_installments date s.total_obligation m

IsBuilt-IsApprovable :
    (policy : AdminFeePolicy) (p m : ℕ) (start : Text) (longest : ℕ) (monthly : Option ℤ)
    (s : LoanScheduleCalculation)
    → IsBuilt (suc p) (suc m) start s
    → suc m ≤ longest
    → policy_check policy (pos (suc p)) (suc m) monthly s.total_admin_fee ≡ ok tt
    → IsApprovable policy (pos (suc p)) (pos (suc m)) start longest monthly s
unfolding validate_loan_fee_snapshot build_loan_schedule_from_obligation
IsBuilt-IsApprovable policy p m start longest monthly s b le check = record {
  total = b.total;
  fits = b.fits;
  snapshot = ground (arith, check, within, exact, b.total, b.fits);
  rebuilt = (rebuilt_schedule, ground (arith, b.parsed), ground (arith, b.planned));
}
  where
    rebuilt_schedule : LoanScheduleCalculation
    rebuilt_schedule = record {
      total_interest = 0;
      monthly_admin_fee = 0;
      total_admin_fee = 0;
      total_obligation = s.total_obligation;
      installments = build_installments b.date s.total_obligation (suc m);
    }

    within : ltb (max_int64 - s.total_admin_fee) (suc p) ≡ false
    within = ground (arith, b.total, b.fits)

    exact : add64 (suc p) s.total_admin_fee ≡ suc p + s.total_admin_fee
    exact = add64_exact (suc p) s.total_admin_fee (omega (arith, b.total, b.fits))

regular-IsBuilt :
    (p m : ℕ) (start : Text) (d : Date) {s : LoanScheduleCalculation}
    → parse_loan_date start ≡ some d
    → calculate_regular_loan_schedule (pos (suc p)) (pos (suc m)) start ≡ ok s
    → IsBuilt (suc p) (suc m) start s
      × (suc m ≤ max_regular_loan_duration_months)
      × (calculate_regular_loan_monthly_admin_fee_v1 (pos (suc p)) ≡ ok s.monthly_admin_fee)
      × (s.monthly_admin_fee ≤ max_int64 / suc m)
      × (s.total_admin_fee ≡ mul64 s.monthly_admin_fee (suc m))
unfolding calculate_regular_loan_schedule
regular-IsBuilt p m start d {s} e h = (
  record {
    date = d;
    parsed = e;
    total = ground (arith, add64_exact (suc p) s.total_admin_fee);
    fits = ground (arith, add64_exact (suc p) s.total_admin_fee);
    covers = ground arith;
    planned = ground arith;
  },
  ground arith,
  ground arith,
  ground arith,
  ground arith,
)

-- The schedule that a Regular Loan's calculator returns passes the approval's checks: the obligation is
-- principal and fee without overflow, the fee snapshot with the schedule's monthly fee validates, and
-- the same installments are rebuilt from the obligation.
pub calculate_regular_loan_schedule-IsApprovable :
    (principal duration : ℤ) (start : Text) {s : LoanScheduleCalculation}
    → calculate_regular_loan_schedule principal duration start ≡ ok s
    → IsApprovable regular_tiered_monthly_v1 principal duration start
        max_regular_loan_duration_months
        (some (pos s.monthly_admin_fee))
        s
unfolding calculate_regular_loan_schedule
calculate_regular_loan_schedule-IsApprovable (pos (suc p)) (pos (suc m)) start {s} h =
    elim (Option-cases (parse_loan_date start)) [
      | inl bad ↦ ground arith
      | inr (d, e) ↦
          let (built, within, monthly, small, total) = regular-IsBuilt p m start d e h in
          IsBuilt-IsApprovable _ p m start _ _ s built within
            (unfold policy_check in ground (arith, monthly, small, total, within))
    ]
calculate_regular_loan_schedule-IsApprovable (pos (suc p)) (pos zero) start h = cc
calculate_regular_loan_schedule-IsApprovable (pos (suc p)) (negsuc m) start h = cc
calculate_regular_loan_schedule-IsApprovable (pos zero) duration start h = cc
calculate_regular_loan_schedule-IsApprovable (negsuc p) duration start h = cc

-- The same of a Secondary Goods Loan, whose snapshot has no monthly fee: exact obligation, a snapshot
-- that validates, and the same installments rebuilt.
pub calculate_secondary_goods_loan_schedule-IsApprovable :
    (principal duration : ℤ) (start : Text) {s : LoanScheduleCalculation}
    → calculate_secondary_goods_loan_schedule principal duration start ≡ ok s
    → IsApprovable secondary_goods_one_time_v1 principal duration start max_secondary_goods_duration
        none s
unfolding calculate_secondary_goods_loan_schedule
calculate_secondary_goods_loan_schedule-IsApprovable (pos (suc p)) (pos (suc m)) start {s} h =
    elim (Option-cases (parse_loan_date start)) [
      | inl bad ↦ unfold build_loan_schedule_from_obligation in ground arith
      | inr (d, e) ↦
          IsBuilt-IsApprovable _ p m start _ _ s
            (unfold build_loan_schedule_from_obligation in
              record {
                date = d;
                parsed = e;
                total = ground (arith, add64_exact (suc p) s.total_admin_fee);
                fits = ground (arith, add64_exact (suc p) s.total_admin_fee);
                covers = ground arith;
                planned = ground arith;
              })
            (ground arith) (unfold policy_check in ground arith)
    ]
calculate_secondary_goods_loan_schedule-IsApprovable (pos zero) (pos (suc m)) start h =
    unfold calculate_percent_admin_fee in ground arith
calculate_secondary_goods_loan_schedule-IsApprovable (negsuc p) (pos (suc m)) start h =
    unfold calculate_percent_admin_fee in ground arith
calculate_secondary_goods_loan_schedule-IsApprovable principal (pos zero) start h = cc
calculate_secondary_goods_loan_schedule-IsApprovable principal (negsuc m) start h = cc

-- The same of a Paylater Loan, over one month and with no monthly fee: exact obligation, a snapshot that
-- validates, and the same installment rebuilt.
pub calculate_paylater_loan_schedule-IsApprovable :
    (principal duration : ℤ) (start : Text) {s : LoanScheduleCalculation}
    → calculate_paylater_loan_schedule principal duration start ≡ ok s
    → IsApprovable goods_purchase_paylater_one_time_v1 principal duration start 1 none s
unfolding calculate_paylater_loan_schedule
calculate_paylater_loan_schedule-IsApprovable (pos (suc p)) (pos (suc m)) start {s} h =
    elim (Option-cases (parse_loan_date start)) [
      | inl bad ↦ unfold build_loan_schedule_from_obligation in ground arith
      | inr (d, e) ↦
          IsBuilt-IsApprovable _ p m start _ _ s
            (unfold build_loan_schedule_from_obligation in
              record {
                date = d;
                parsed = e;
                total = ground (arith, add64_exact (suc p) s.total_admin_fee);
                fits = ground (arith, add64_exact (suc p) s.total_admin_fee);
                covers = ground arith;
                planned = ground arith;
              })
            (ground arith) (unfold policy_check in ground arith)
    ]
calculate_paylater_loan_schedule-IsApprovable (pos zero) (pos (suc m)) start h =
    unfold calculate_percent_admin_fee in ground arith
calculate_paylater_loan_schedule-IsApprovable (negsuc p) (pos (suc m)) start h =
    unfold calculate_percent_admin_fee in ground arith
calculate_paylater_loan_schedule-IsApprovable principal (pos zero) start h = cc
calculate_paylater_loan_schedule-IsApprovable principal (negsuc m) start h = cc

-- The same of a Voucher Loan, over one month, and its fee is the one that the request names: exact
-- obligation, a snapshot that validates, and the same installment rebuilt.
pub calculate_voucher_loan_schedule-IsApprovable :
    (principal fee duration : ℤ) (start : Text) {s : LoanScheduleCalculation}
    → calculate_voucher_loan_schedule principal fee duration start ≡ ok s
    → IsApprovable voucher_nominal_one_time_v1 principal duration start 1 none s
      × (pos s.total_admin_fee ≡ fee)
unfolding calculate_voucher_loan_schedule build_loan_schedule_from_obligation
calculate_voucher_loan_schedule-IsApprovable (pos (suc p)) (pos fee) (pos (suc m)) start {s} h =
    elim (Option-cases (parse_loan_date start)) [
      | inl bad ↦ ground arith
      | inr (d, e) ↦ (
        IsBuilt-IsApprovable _ p m start _ _ s
            (record {
              date = d;
              parsed = e;
              total = ground (arith, add64_exact (suc p) fee);
              fits = ground (arith, add64_exact (suc p) fee);
              covers = ground arith;
              planned = ground arith;
            })
            (ground arith) (unfold policy_check in ground arith),
        ground arith,
      )
    ]
calculate_voucher_loan_schedule-IsApprovable (pos (suc p)) (pos fee) (pos zero) start h =
    ground arith
calculate_voucher_loan_schedule-IsApprovable (pos (suc p)) (pos fee) (negsuc m) start h =
    ground arith
calculate_voucher_loan_schedule-IsApprovable (pos (suc p)) (negsuc fee) duration start h = cc
calculate_voucher_loan_schedule-IsApprovable (pos zero) fee duration start h = cc
calculate_voucher_loan_schedule-IsApprovable (negsuc p) fee duration start h = cc
