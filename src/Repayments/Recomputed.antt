-- ===== src/Repayments/Recomputed.antt =====
-- About `refreshLoanRepaymentScheduleTx` of internal/app/repayment_corrections.go.
use kopdes.Base.{
  ℕ, zero, suc, ◌+◌, ◌-◌, ◌≤◌, ◌<◌, ◌≡◌, refl, sym, ap, ◌∙◌, ◌==◌, Bool, true, false, ℤ, pos, none,
  some, List, [], ◌∷◌, map, sum, ok, max_int64, arith, inl, inr, Bool-cases,
}
use kopdes.Calendar.{Date}
use kopdes.Allocation.{Rows, allocate_one}
use kopdes.Allocation.Poured.{poured, total_scheduled, total_scheduled-poured, poured-poured}
use kopdes.Allocation.Refines.{IsNumberedFrom, allocate_one-poured, AllPositive}
use kopdes.Repayments.Types.{Loan, LoanStatus, paid, is_running, next_due}
use kopdes.Repayments.Refresh.{cleared, refresh_rows, refresh_schedule, reopened, has_no_rows}
use kopdes.Repayments.Current.{IsNumberedFrom-poured, IsCurrent, next_due-poured}

cleared-poured : (rows : Rows) → cleared rows ≡ poured 0 rows
unfolding poured
cleared-poured [] = refl
cleared-poured (i ∷ rest) = ground (arith, cleared-poured rest)

refresh_rows-cons :
    (rows : Rows) (total n : ℕ) (more : List ℤ) {rows' : Rows}
    → allocate_one (suc n) rows ≡ (rows', 0)
    → total + suc n ≤ max_int64
    → refresh_rows rows total (pos (suc n) ∷ more) ≡ refresh_rows rows' (total + suc n) more
unfolding refresh_rows
refresh_rows-cons rows total n more e h = rw e (ground arith)

refresh_rows-poured :
    (rows : Rows) (amounts : List ℕ) (a : ℕ)
    → AllPositive amounts
    → a + sum amounts ≤ total_scheduled rows
    → total_scheduled rows ≤ max_int64
    → refresh_rows (poured a rows) a (map pos amounts)
      ≡ ok (poured (a + sum amounts) rows, a + sum amounts)
refresh_rows-poured rows [] a p h m =
    let same : a + 0 ≡ a = omega arith in unfold refresh_rows in rw same refl
refresh_rows-poured rows (zero ∷ amounts) a p h m = absurd (omega (arith, p.0))
refresh_rows-poured rows (suc n ∷ amounts) a p h m =
    let left : a + suc n - total_scheduled rows ≡ 0 = omega arith in
    let assoc : a + suc n + sum amounts ≡ a + (suc n + sum amounts) = omega arith in
    refresh_rows-cons (poured a rows) a n (map pos amounts)
      (rw left at (allocate_one-poured (suc n) a rows p.0 (omega arith))) (omega arith)
    ∙ rw assoc at (refresh_rows-poured rows amounts (a + suc n) p.1 (omega arith) m)

refresh_rows-cleared :
    (rows : Rows) (amounts : List ℕ)
    → AllPositive amounts
    → sum amounts ≤ total_scheduled rows
    → total_scheduled rows ≤ max_int64
    → refresh_rows (cleared rows) 0 (map pos amounts) ≡ ok (poured (sum amounts) rows, sum amounts)
refresh_rows-cleared rows amounts p h m =
    let from_zero : 0 + sum amounts ≡ sum amounts = omega arith in
    ap (λ (r : Rows). refresh_rows r 0 (map pos amounts)) (cleared-poured rows)
    ∙ rw from_zero at (refresh_rows-poured rows amounts 0 p (omega arith) m)

module _ (loan : Loan) (payments : List ℤ) (another : Bool) (rows : Rows) (total : ℕ) where
  refresh_schedule-settled :
      has_no_rows loan.installments ≡ false
      → refresh_rows (cleared loan.installments) 0 payments ≡ ok (rows, total)
      → loan.total_obligation ≡ total
      → refresh_schedule loan payments another
        ≡ ok (record loan {
          remaining_balance = 0;
          status = paid;
          next_due_date = none;
          installments = rows;
        })
  unfolding refresh_schedule
  refresh_schedule-settled some_rows e h = rw (some_rows, e) (ground arith)

  refresh_schedule-running :
      (status : LoanStatus) (d : Date)
      → has_no_rows loan.installments ≡ false
      → refresh_rows (cleared loan.installments) 0 payments ≡ ok (rows, total)
      → total < loan.total_obligation
      → reopened loan.status another ≡ ok status
      → next_due rows ≡ some d
      → refresh_schedule loan payments another
        ≡ ok (record loan {
          remaining_balance = loan.total_obligation - total;
          status = status;
          next_due_date = some d;
          installments = rows;
        })
  unfolding refresh_schedule
  refresh_schedule-running status d some_rows e h s due = rw (some_rows, e, s, due) (ground arith)

reopened-runs :
    (s t : LoanStatus) (another : Bool) → reopened s another ≡ ok t → is_running t ≡ true
reopened-runs s t another h = ground arith

has_rows : (rows : Rows) → 0 < total_scheduled rows → has_no_rows rows ≡ false
has_rows [] h = absurd (omega arith)
has_rows (i ∷ rest) h = refl

-- Recomputing a loan whose installments, numbered from 1 on, make up its obligation, an int64, from
-- positive payments within it always succeeds where the loan is paid off, or its status may stay or
-- reopen, whatever the loan held before, and the loan then holds exactly those payments.
pub refresh_schedule-IsCurrent :
    (loan : Loan) (amounts : List ℕ) (another : Bool)
    → IsNumberedFrom 1 loan.installments
    → total_scheduled loan.installments ≡ loan.total_obligation
    → 0 < loan.total_obligation
    → loan.total_obligation ≤ max_int64
    → AllPositive amounts
    → sum amounts ≤ loan.total_obligation
    → (sum amounts < loan.total_obligation
        → (status : LoanStatus) × (reopened loan.status another ≡ ok status))
    → (loan' : Loan) × (refresh_schedule loan (map pos amounts) another ≡ ok loan')
      × IsCurrent loan' amounts
refresh_schedule-IsCurrent loan amounts another u whole z m p le opens =
    let some_rows = has_rows loan.installments (omega arith) in
    let t = sum amounts in
    let rows = poured t loan.installments in
    let computed = refresh_rows-cleared loan.installments amounts p (omega arith) (omega arith) in
    let numbers : IsNumberedFrom 1 rows = IsNumberedFrom-poured t 1 loan.installments u in
    let same : rows ≡ poured t rows = sym (poured-poured t t loan.installments) in
    let total : total_scheduled rows ≡ loan.total_obligation =
      total_scheduled-poured t loan.installments ∙ whole in
    elim (Bool-cases (t == loan.total_obligation)) [
      | inl done ↦ (
        _,
        refresh_schedule-settled loan (map pos amounts) another rows t some_rows computed
            (ground arith),
        record {
          settled = same;
          whole = total;
          numbered = numbers;
          owed = z;
          fits = m;
          balance = ground arith;
          standing = inl (refl, refl, refl);
        },
      )
      | inr more ↦
          let (status, s) = opens (ground arith) in
          let (d, due) = next_due-poured t loan.installments (ground arith) in
          (
            _,
            refresh_schedule-running loan (map pos amounts) another rows t status d some_rows
                computed (ground arith) s due,
            record {
              settled = same;
              whole = total;
              numbered = numbers;
              owed = z;
              fits = m;
              balance = ground arith;
              standing = inr (ground arith, reopened-runs loan.status status another s, sym due);
            },
          )
    ]

same_settled :
    (loan : Loan)
    → loan.remaining_balance ≡ 0
    → loan.status ≡ paid
    → loan.next_due_date ≡ none
    → record loan { remaining_balance = 0; status = paid; next_due_date = none } ≡ loan
same_settled loan b s d = rw (sym b, sym s, sym d) refl

same_running :
    (loan : Loan) (r : ℕ) (d : Date)
    → loan.remaining_balance ≡ r
    → loan.next_due_date ≡ some d
    → record loan { remaining_balance = r; next_due_date = some d } ≡ loan
same_running loan r d b e = rw (sym b, sym e) refl

reopened-same : (s : LoanStatus) (another : Bool) → is_running s ≡ true → reopened s another ≡ ok s
reopened-same s another h = ground arith

-- If a loan holds exactly some positive payments, then recomputing it from them changes nothing:
-- payment by payment and all at once come to the same loan.
pub refresh_schedule_stable :
    (loan : Loan) (amounts : List ℕ) (another : Bool)
    → IsCurrent loan amounts
    → AllPositive amounts
    → refresh_schedule loan (map pos amounts) another ≡ ok loan
refresh_schedule_stable loan amounts another c p =
    let some_rows = has_rows loan.installments (omega (arith, c.whole, c.owed)) in
    let computed = rw (sym c.settled) at (
      refresh_rows-cleared loan.installments amounts p (omega (arith, c.whole, c.balance))
        (omega (arith, c.whole, c.fits))) in
    elim c.standing [
      | inl (nothing_left, status, due) ↦
          refresh_schedule-settled loan (map pos amounts) another loan.installments (sum amounts)
            some_rows computed (omega (arith, c.balance))
          ∙ ap ok (same_settled loan nothing_left status due)
      | inr (more, run, due) ↦
          let (d, e) =
            next_due-poured (sum amounts) loan.installments (ground (arith, c.balance, c.whole)) in
          let first : next_due loan.installments ≡ some d = rw (sym c.settled) at e in
          refresh_schedule-running loan (map pos amounts) another loan.installments (sum amounts)
            loan.status d some_rows computed (ground (arith, c.balance))
            (reopened-same loan.status another run) first
          ∙ ap ok (
              same_running loan (loan.total_obligation - sum amounts) d (omega (arith, c.balance))
                (due ∙ first))
    ]
