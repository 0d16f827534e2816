-- ===== src/LoanRequests/Backed.antt =====
-- The proposed terms of a loan request against the checks at approval and at disbursement
-- (internal/app/loans.go, internal/app/super_admin_overrides.go).
use kopdes.Base.{
  Result, err, ◌>>=◌, positive, ℕ, ℤ, pos, ◌≡◌, refl, Option, none, some, ok, arith, inl, inr,
  Result-cases, Option-cases,
}
use kopdes.Base.Text.{Text}
use kopdes.Calendar.{Date}
use kopdes.Calendar.Text.{parse_loan_date}
use kopdes.Schedule.Terms.{
  AdminFeePolicy, ScheduleError, obligation_not_positive, duration_out_of_range,
  regular_tiered_monthly_v1, secondary_goods_one_time_v1, goods_purchase_paylater_one_time_v1,
  voucher_nominal_one_time_v1, LoanScheduleCalculation,
}
use kopdes.Schedule.Plan.{build_installments, build_loan_schedule_from_obligation}
use kopdes.Schedule.Snapshot.{validate_loan_fee_snapshot}
use kopdes.Schedule.Loans.{
  calculate_regular_loan_schedule, calculate_secondary_goods_loan_schedule,
  calculate_paylater_loan_schedule, calculate_voucher_loan_schedule,
}
use kopdes.Schedule.Approval.{
  IsApprovable, calculate_regular_loan_schedule-IsApprovable,
  calculate_secondary_goods_loan_schedule-IsApprovable,
  calculate_paylater_loan_schedule-IsApprovable, calculate_voucher_loan_schedule-IsApprovable,
}
use kopdes.LoanRequests.Types.{
  LoanType, regular, secondary_goods, goods_purchase_paylater, voucher, other_type, Proposal,
}
use kopdes.LoanRequests.Terms.{schedule_terms, proposal_of, check_terms, calculated}
use kopdes.Schedule.Terms.{max_duration}

-- The proposal's fee snapshot validates, and a schedule is rebuilt from it.
pub record IsBacked (p : Proposal) : Type 0 where
  pub snapshot :
      validate_loan_fee_snapshot p.admin_fee_policy p.approved_amount p.duration_months
        p.monthly_admin_fee p.total_admin_fee p.total_obligation
      ≡ ok tt
  pub schedule : LoanScheduleCalculation
  pub rebuilt :
      build_loan_schedule_from_obligation p.total_obligation p.duration_months p.start_date
        (max_duration p.admin_fee_policy)
      ≡ ok schedule

IsApprovable-IsBacked :
    (policy : AdminFeePolicy) (amount duration : ℤ) (start : Text) (monthly : Option ℤ)
    (s : LoanScheduleCalculation)
    → IsApprovable policy amount duration start (max_duration policy) monthly s
    → IsBacked (proposal_of policy amount duration start monthly s)
IsApprovable-IsBacked policy amount duration start monthly s a = record {
  snapshot = a.snapshot;
  schedule = a.rebuilt.0;
  rebuilt = a.rebuilt.1;
}

-- A calculator's schedule, proposed.
from-calculator :
    (policy : AdminFeePolicy) (amount duration : ℤ) (start : Text)
    (monthly : LoanScheduleCalculation → Option ℤ)
    (calc : Result ScheduleError LoanScheduleCalculation) {p : Proposal}
    → ((s : LoanScheduleCalculation)
        → calc ≡ ok s
        → IsApprovable policy amount duration start (max_duration policy) (monthly s) s)
    → (calculated calc >>= λ s. ok (proposal_of policy amount duration start (monthly s) s)) ≡ ok p
    → IsBacked p
from-calculator policy amount duration start monthly (err e) {p} approvable h =
    absurd (ground arith)
from-calculator policy amount duration start monthly (ok s) {p} approvable h =
    let same : proposal_of policy amount duration start (monthly s) s ≡ p = ground arith in
    rw same at
      (IsApprovable-IsBacked policy amount duration start (monthly s) s (approvable s refl))

-- The terms that the code calculates for a loan of any type pass its own checks: the fee snapshot
-- validates, and the schedule is rebuilt from the obligation.
pub schedule_terms-IsBacked :
    (t : LoanType) (fee : Option ℤ) (amount duration : ℤ) (start : Text) {p : Proposal}
    → schedule_terms t fee amount duration start ≡ ok p
    → IsBacked p
unfolding schedule_terms
schedule_terms-IsBacked regular fee amount duration start {p} h =
    from-calculator regular_tiered_monthly_v1 amount duration start
      (λ s. some (pos s.monthly_admin_fee)) (calculate_regular_loan_schedule amount duration start)
      (λ s e. calculate_regular_loan_schedule-IsApprovable amount duration start {s = s} e) h
schedule_terms-IsBacked secondary_goods fee amount duration start {p} h =
    from-calculator secondary_goods_one_time_v1 amount duration start (λ _. none)
      (calculate_secondary_goods_loan_schedule amount duration start)
      (λ s e. calculate_secondary_goods_loan_schedule-IsApprovable amount duration start {s = s} e)
      h
schedule_terms-IsBacked goods_purchase_paylater fee amount duration start {p} h =
    from-calculator goods_purchase_paylater_one_time_v1 amount duration start (λ _. none)
      (calculate_paylater_loan_schedule amount duration start)
      (λ s e. calculate_paylater_loan_schedule-IsApprovable amount duration start {s = s} e) h
schedule_terms-IsBacked voucher none amount duration start {p} h = absurd (ground arith)
schedule_terms-IsBacked voucher (some fee) amount duration start {p} h =
    from-calculator voucher_nominal_one_time_v1 amount duration start (λ _. none)
      (calculate_voucher_loan_schedule amount fee duration start)
      (λ s e. (calculate_voucher_loan_schedule-IsApprovable amount fee duration start {s = s} e).0)
      h
schedule_terms-IsBacked (other_type t) fee amount duration start {p} h = absurd (ground arith)

-- The two checks of terms that hold.
pub check_terms-parts :
    (p : Proposal) (date : Text) {s : LoanScheduleCalculation}
    → check_terms p date ≡ ok s
    → (validate_loan_fee_snapshot p.admin_fee_policy p.approved_amount p.duration_months
          p.monthly_admin_fee p.total_admin_fee p.total_obligation
        ≡ ok tt)
      × (build_loan_schedule_from_obligation p.total_obligation p.duration_months date
            (max_duration p.admin_fee_policy)
          ≡ ok s)
unfolding check_terms
check_terms-parts p date {s} h =
    elim (Result-cases (
      validate_loan_fee_snapshot p.admin_fee_policy p.approved_amount p.duration_months
        p.monthly_admin_fee p.total_admin_fee p.total_obligation)) [
          | inr (x, bad) ↦ absurd (ground arith)
          | inl (_, e) ↦
              elim (Result-cases (
                build_loan_schedule_from_obligation p.total_obligation p.duration_months date
                  (max_duration p.admin_fee_policy))) [
                    | inr (x, bad) ↦ absurd (ground arith)
                    | inl (t, et) ↦ (ground arith, ground arith)
                  ]
        ]

-- What was rebuilt for one date is rebuilt for another.
rebuilt_again :
    (total duration : ℤ) (start date : Text) (longest : ℕ) (day : Date)
    {s : LoanScheduleCalculation}
    → parse_loan_date date ≡ some day
    → build_loan_schedule_from_obligation total duration start longest ≡ ok s
    → (t : LoanScheduleCalculation) × (build_loan_schedule_from_obligation total duration date
          longest
        ≡ ok t)
unfolding build_loan_schedule_from_obligation
rebuilt_again total duration start date longest day {s} e h =
    elim (Result-cases (positive total obligation_not_positive)) [
      | inr (x, bad) ↦ absurd (ground arith)
      | inl (n, en) ↦ elim (Result-cases (positive duration duration_out_of_range)) [
        | inr (x, bad) ↦ absurd (ground arith)
        | inl (m, em) ↦ elim (Option-cases (parse_loan_date start)) [
          | inl bad ↦ absurd (ground arith)
          | inr (d, ed) ↦ (
            record {
              total_interest = 0;
              monthly_admin_fee = 0;
              total_admin_fee = 0;
              total_obligation = n;
              installments = build_installments day n m;
            },
            ground arith,
          )
        ]
      ]
    ]

-- The terms of a backed proposal hold for every date that the code reads.
pub IsBacked-check_terms :
    (p : Proposal) (date : Text) (day : Date)
    → parse_loan_date date ≡ some day
    → IsBacked p
    → (s : LoanScheduleCalculation) × (check_terms p date ≡ ok s)
unfolding check_terms
IsBacked-check_terms p date day e b =
    let (s, again) =
      rebuilt_again p.total_obligation p.duration_months p.start_date date
        (max_duration p.admin_fee_policy) day e b.rebuilt in
    (s, rw (b.snapshot, again) refl)

-- They hold for their own date.
pub IsBacked-check_terms_own :
    (p : Proposal)
    → IsBacked p
    → (s : LoanScheduleCalculation) × (check_terms p p.start_date ≡ ok s)
unfolding check_terms
IsBacked-check_terms_own p b = (b.schedule, rw (b.snapshot, b.rebuilt) refl)
