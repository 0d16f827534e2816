-- ===== src/Repayments/Opened.antt =====
-- A loan as it is created: the schedule of internal/app/loan_schedule.go in the books of
-- internal/app/repayments.go.
use kopdes.Base.{
  ℕ, zero, suc, ◌+◌, ◌/◌, ◌%◌, ◌≤◌, ◌<◌, ◌≡◌, refl, Option, none, [], ◌∷◌, ◌++◌, All-append_one, ok,
  arith, inl, inr, Option-cases, Result-cases, positive, positive_lem, ℤ, pos, max_int64,
  add64_exact,
}
use native.Mathlib.Nat.{div-eq-sub-div}
use kopdes.Base.Text.{Text}
use kopdes.Base.Table.{find, IsKeyed-append_one}
use kopdes.Calendar.{Date}
use kopdes.Calendar.Text.{parse_loan_date}
use kopdes.Schedule.Terms.{LoanScheduleCalculation, obligation_not_positive, duration_out_of_range}
use kopdes.Schedule.Plan.{
  installments_from, build_installments, build_loan_schedule_from_obligation,
}
use kopdes.Schedule.Totals.{div-bound, build_installments_lem}
use kopdes.Allocation.{Rows}
use kopdes.Allocation.Poured.{poured, total_scheduled}
use kopdes.Allocation.Refines.{IsNumberedFrom}
use kopdes.Repayments.Types.{Loan, Books, active, key_of_loan, next_due, first_due}
use kopdes.Accounting.Types.{Ledger}
use kopdes.Accounting.Balance.{AllBalanced}
use kopdes.Repayments.Current.{IsCurrent}
use kopdes.Repayments.Kept.{IsKept, amounts_of}

installments_from-IsNumberedFrom :
    (start : Date) (regular remainder count left index : ℕ)
    → IsNumberedFrom (index + 1) (installments_from start regular remainder count left index)
unfolding installments_from
installments_from-IsNumberedFrom start regular remainder count zero index = tt
installments_from-IsNumberedFrom start regular remainder count (suc left) index =
    (refl, installments_from-IsNumberedFrom start regular remainder count left (index + 1))

poured_zero-installments_from :
    (start : Date) (regular remainder count left index : ℕ)
    → installments_from start regular remainder count left index
      ≡ poured 0 (installments_from start regular remainder count left index)
unfolding installments_from poured
poured_zero-installments_from start regular remainder count zero index = refl
poured_zero-installments_from start regular remainder count (suc left) index =
    ground (arith, poured_zero-installments_from start regular remainder count left (index + 1))

-- A plan that nothing is paid of.
pub record IsFresh (rows : Rows) (obligation : ℕ) (due : Option Date) : Type 0 where
  pub unpaid : rows ≡ poured 0 rows
  pub whole : total_scheduled rows ≡ obligation
  pub numbered : IsNumberedFrom 1 rows
  pub owed : 0 < obligation
  pub fits : obligation ≤ max_int64
  pub first : due ≡ next_due rows

pub IsFresh-IsCurrent :
    (loan : Loan)
    → IsFresh loan.installments loan.total_obligation loan.next_due_date
    → loan.remaining_balance ≡ loan.total_obligation
    → loan.status ≡ active
    → IsCurrent loan []
IsFresh-IsCurrent loan f whole running = record {
  settled = f.unpaid;
  whole = f.whole;
  numbered = f.numbered;
  owed = f.owed;
  fits = f.fits;
  balance = omega (arith, whole);
  standing = inr (omega (arith, whole, f.owed), rw running refl, f.first);
}

div-above : (total months : ℕ) → suc months ≤ total → 0 < total / suc months
div-above total months le =
    let e = div-eq-sub-div {m = suc months} {n = total} (omega arith) le in omega (arith, e)

build_installments-first :
    (start : Date) (total months : ℕ)
    → 0 < months
    → months ≤ total
    → total ≤ max_int64
    → first_due (build_installments start total months)
      ≡ next_due (build_installments start total months)
unfolding build_installments installments_from
build_installments-first start total (suc months) p le fits = ground (
  arith,
  div-above total months le,
  add64_exact (total / suc months) (total % suc months) (omega (arith, div-bound total months)),
)
build_installments-first start total zero p le fits = absurd (omega arith)

build_installments-IsFresh :
    (start : Date) (total months : ℕ)
    → 0 < months
    → months ≤ total
    → total ≤ max_int64
    → let plan = build_installments start total months in IsFresh plan total (first_due plan)
unfolding build_installments
build_installments-IsFresh start total months p le fits = record {
  unpaid = poured_zero-installments_from start (total / months) (total % months) months months 0;
  whole = (build_installments_lem start total months fits p).0;
  numbered =
      installments_from-IsNumberedFrom start (total / months) (total % months) months months 0;
  owed = omega arith;
  fits = fits;
  first = build_installments-first start total months p le fits;
}

-- A schedule that is built from an obligation is a plan that nothing is paid of.
pub build_loan_schedule_from_obligation-IsFresh :
    (obligation : ℕ) (duration : ℤ) (date : Text) (longest : ℕ) {s : LoanScheduleCalculation}
    → build_loan_schedule_from_obligation (pos obligation) duration date longest ≡ ok s
    → obligation ≤ max_int64
    → IsFresh s.installments obligation (first_due s.installments)
unfolding build_loan_schedule_from_obligation
build_loan_schedule_from_obligation-IsFresh obligation duration date longest {s} h fits =
    elim (Result-cases (positive (pos obligation) obligation_not_positive)) [
      | inr (x, bad) ↦ absurd (ground arith)
      | inl (n, en) ↦ elim (Result-cases (positive duration duration_out_of_range)) [
        | inr (x, bad) ↦ absurd (ground arith)
        | inl (m, em) ↦ elim (Option-cases (parse_loan_date date)) [
          | inl bad ↦ absurd (ground arith)
          | inr (d, ed) ↦
              let same : obligation ≡ n =
                ground (arith, (positive_lem (pos obligation) obligation_not_positive en).1) in
              let plan : build_installments d obligation m ≡ s.installments =
                ground (arith, same) in
              let le : m ≤ obligation = ground (arith, same) in
              let above = (positive_lem duration duration_out_of_range em).0 in
              rw plan at (build_installments-IsFresh d obligation m above le fits)
        ]
      ]
    ]

-- No row is recorded for the identifier.
abbrev pub IsUnused : Books → Text → Type 0
IsUnused books loan_id =
    (find key_of_loan loan_id books.loans ≡ none) × (amounts_of loan_id books.repayments ≡ [])

-- A loan that nothing is paid of joins books that agree.
pub opened-IsKept :
    (books : Books) (loan : Loan) (ledger : Ledger)
    → IsUnused books loan.id
    → IsCurrent loan []
    → AllBalanced ledger
    → IsKept books
    → IsKept (record books { loans = books.loans ++ loan ∷ []; ledger = ledger })
opened-IsKept books loan ledger unused current balanced k = record {
  keyed = IsKeyed-append_one key_of_loan books.loans loan unused.0 k.keyed;
  current =
      All-append_one (λ l. IsCurrent l (amounts_of l.id books.repayments)) books.loans loan
        k.current (rw unused.1 current);
  paid_in = k.paid_in;
  balanced = balanced;
}
