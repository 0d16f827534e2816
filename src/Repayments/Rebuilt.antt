-- ===== src/Repayments/Rebuilt.antt =====
-- The schedule that a corrected start date rebuilds (internal/app/loans.go, on
-- internal/app/loan_schedule.go).
use kopdes.Base.{
  ℕ, suc, ◌+◌, ◌/◌, ◌%◌, ◌<◌, ◌≤◌, ◌≡◌, refl, not, true, false, ℤ, pos, some, List, [], ◌∷◌, ◌++◌,
  keep, length, sum_of, max_int64, ok, arith, inl, inr, Option-cases, Result-cases, positive,
  positive_lem,
}
use kopdes.Base.Text.{Text, text_eq}
use kopdes.Base.Table.{find, update, find-key, find-update, keep-update}
use kopdes.Calendar.{Date, loan_due_date}
use kopdes.Calendar.Text.{parse_loan_date}
use kopdes.Schedule.Terms.{
  LoanScheduleCalculation, InstallmentCalculation, obligation_not_positive, duration_out_of_range,
}
use kopdes.Schedule.Plan.{build_installments, build_loan_schedule_from_obligation}
use kopdes.Schedule.Totals.{scheduled, IsPlanned, build_installments_lem}
use kopdes.Repayments.Types.{
  Loan, Books, key_of_loan, is_running, first_due, last_due, first_amount,
}
use kopdes.Repayments.StartDate.{StartDateAudit, has_repayment, restart}

-- The day, the months and the installments of a schedule that is built.
pub record IsBuilt (obligation : ℕ) (duration : ℤ) (date : Text) (s : LoanScheduleCalculation)
    : Type 0 where
  pub day : Date
  pub of_day : parse_loan_date date ≡ some day
  pub months : ℕ
  pub of_months : duration ≡ pos months
  pub some_month : 0 < months
  pub plan : s.installments ≡ build_installments day obligation months

pub build_loan_schedule_from_obligation-IsBuilt :
    (obligation : ℕ) (duration : ℤ) (date : Text) (longest : ℕ) {s : LoanScheduleCalculation}
    → build_loan_schedule_from_obligation (pos obligation) duration date longest ≡ ok s
    → IsBuilt obligation duration date s
unfolding build_loan_schedule_from_obligation
build_loan_schedule_from_obligation-IsBuilt obligation duration date longest {s} h =
    elim (Result-cases (positive (pos obligation) obligation_not_positive)) [
      | inr (x, bad) ↦ absurd (ground arith)
      | inl (n, en) ↦ elim (Result-cases (positive duration duration_out_of_range)) [
        | inr (x, bad) ↦ absurd (ground arith)
        | inl (m, em) ↦ elim (Option-cases (parse_loan_date date)) [
          | inl bad ↦ absurd (ground arith)
          | inr (d, ed) ↦
              let same : obligation ≡ n =
                ground (arith, (positive_lem (pos obligation) obligation_not_positive en).1) in
              record {
                day = d;
                of_day = ed;
                months = m;
                of_months = ground (arith, (positive_lem duration duration_out_of_range em).1);
                some_month = (positive_lem duration duration_out_of_range em).0;
                plan = ground (arith, same);
              }
        ]
      ]
    ]

planned-first_due :
    (day : Date) (regular last index : ℕ) (rows : List InstallmentCalculation)
    → 0 < length rows
    → IsPlanned day regular last index rows
    → first_due rows ≡ some (loan_due_date day (index + 1))
planned-first_due day regular last index [] some_row planned = absurd (omega arith)
planned-first_due day regular last index (i ∷ []) some_row planned = cc
planned-first_due day regular last index (i ∷ j ∷ rest) some_row planned = cc

planned-last_due :
    (day : Date) (regular last index n : ℕ) (rows : List InstallmentCalculation)
    → 0 < length rows
    → length rows ≡ n
    → IsPlanned day regular last index rows
    → last_due rows ≡ some (loan_due_date day (index + n))
planned-last_due day regular last index n [] some_row h planned = absurd (omega arith)
planned-last_due day regular last index n (i ∷ []) some_row h planned =
    let one : n ≡ 1 = omega arith in rw (one, planned.1) refl
planned-last_due day regular last index n (i ∷ j ∷ rest) some_row h planned =
    let left = suc (length rest) in
    let later =
      planned-last_due day regular last (index + 1) left (j ∷ rest) (omega arith) refl planned.4 in
    let same : index + 1 + left ≡ index + n = omega arith in rw same at later

-- The old and the new day of a correction.
abbrev pub noting : Text → Text → Text → Loan → StartDateAudit
noting loan_id admin_id value loan = record {
  loan_id = loan_id;
  old_start_date = loan.terms.start_date;
  new_start_date = value;
  changed_by = admin_id;
}

-- What a corrected start date does to the books and to the audits: the loan, found running and
-- without repayments, keeps its obligation and balance and gets as many installments as its months,
-- none of them paid, which sum to the obligation and fall due from the new day on; nothing else of
-- the books changes, and the old and the new day are written down.
pub record Restarts (books books' : Books) (audits audits' : List StartDateAudit)
    (loan_id admin_id value : Text) : Type 0 where
  pub loan : Loan
  pub row : find key_of_loan loan_id books.loans ≡ some loan
  pub running : is_running loan.status ≡ true
  pub unpaid : has_repayment loan_id books.repayments ≡ false
  pub loan' : Loan
  pub row' : find key_of_loan loan_id books'.loans ≡ some loan'
  pub day : Date
  pub of_day : parse_loan_date value ≡ some day
  pub months : ℕ
  pub of_months : loan.terms.duration_months ≡ pos months
  pub started : loan'.terms.start_date ≡ value
  pub obligation : loan'.total_obligation ≡ loan.total_obligation
  pub balance : loan'.remaining_balance ≡ loan.remaining_balance
  pub whole : sum_of scheduled loan'.installments ≡ loan.total_obligation
  pub as_long : length loan'.installments ≡ months
  pub planned :
      IsPlanned day
        (loan.total_obligation / months)
        (loan.total_obligation / months + loan.total_obligation % months)
        0
        loan'.installments
  pub first : loan'.next_due_date ≡ some (loan_due_date day 1)
  pub last : loan'.terms.final_due_date ≡ some (loan_due_date day months)
  pub monthly : loan'.terms.monthly_installment ≡ first_amount loan'.installments
  pub others :
      keep (λ (l : Loan). not (text_eq l.id loan_id)) books'.loans
      ≡ keep (λ (l : Loan). not (text_eq l.id loan_id)) books.loans
  pub repayments : books'.repayments ≡ books.repayments
  pub ledger : books'.ledger ≡ books.ledger
  pub noted : audits' ≡ audits ++ noting loan_id admin_id value loan ∷ []

-- The rebuilt schedule in its loan.
pub restart-Restarts :
    (books : Books) (audits : List StartDateAudit) (loan_id admin_id value : Text) (loan : Loan)
    (calc : LoanScheduleCalculation)
    → find key_of_loan loan_id books.loans ≡ some loan
    → is_running loan.status ≡ true
    → has_repayment loan_id books.repayments ≡ false
    → IsBuilt loan.total_obligation loan.terms.duration_months value calc
    → loan.total_obligation ≤ max_int64
    → Restarts books
        (record books {
          loans = update key_of_loan loan_id (λ _. restart loan value calc) books.loans;
        })
        audits
        (audits ++ noting loan_id admin_id value loan ∷ [])
        loan_id
        admin_id
        value
restart-Restarts books audits loan_id admin_id value loan calc row run unpaid b fits =
    let named = find-key key_of_loan loan_id books.loans row in
    let plan = build_installments b.day loan.total_obligation b.months in
    let regular = loan.total_obligation / b.months in
    let greatest = regular + loan.total_obligation % b.months in
    let (whole, long, planned) =
      build_installments_lem b.day loan.total_obligation b.months fits b.some_month in
    let from_first : 0 + b.months ≡ b.months = omega arith in
    let some_row : 0 < length plan = rw long b.some_month in
    record {
      loan = loan;
      row = row;
      running = run;
      unpaid = unpaid;
      loan' = restart loan value calc;
      row' = find-update key_of_loan loan_id (λ _. restart loan value calc) books.loans row named;
      day = b.day;
      of_day = b.of_day;
      months = b.months;
      of_months = b.of_months;
      started = refl;
      obligation = refl;
      balance = refl;
      whole = rw b.plan whole;
      as_long = rw b.plan long;
      planned = rw b.plan planned;
      first = rw b.plan (planned-first_due b.day regular greatest 0 plan some_row planned);
      last = rw b.plan (
          rw from_first at
            (planned-last_due b.day regular greatest 0 b.months plan some_row long planned));
      monthly = refl;
      others =
          keep-update key_of_loan loan_id (λ _. restart loan value calc) books.loans
            (λ other at_id. named);
      repayments = refl;
      ledger = refl;
      noted = refl;
    }
