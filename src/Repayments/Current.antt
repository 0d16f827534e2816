-- ===== src/Repayments/Current.antt =====
-- When a loan agrees with its payments, and the payments of `recordRepaymentTx`
-- (internal/app/repayments.go).
use kopdes.Base.{
  max_int64, ◌⊎◌, ℕ, ◌+◌, ◌-◌, ◌≤◌, ◌<◌, ◌≡◌, refl, sym, ap, ◌∙◌, ltb, ◌==◌, true, none, some, List,
  [], ◌∷◌, sum, ok, arith, inl, inr, Bool-cases,
}
use kopdes.Calendar.{Date}
use kopdes.Allocation.{Rows, allocate_one, post_payment, unpaid_rows}
use kopdes.Allocation.Poured.{poured, total_scheduled, total_scheduled-poured, poured-poured}
use kopdes.Allocation.Refines.{allocate_one-poured, post_payment-eq-allocate_one, IsNumberedFrom}
use kopdes.Repayments.Types.{Loan, paid, is_running, next_due}
use kopdes.Repayments.Posting.{pay_loan}

-- The loan holds exactly the payments of these amounts, oldest installment first; its installments
-- are numbered from 1 on and make up its obligation, a positive int64.
pub record IsCurrent (loan : Loan) (amounts : List ℕ) : Type 0 where
  pub settled : loan.installments ≡ poured (sum amounts) loan.installments
  pub whole : total_scheduled loan.installments ≡ loan.total_obligation
  pub numbered : IsNumberedFrom 1 loan.installments
  pub owed : 0 < loan.total_obligation
  pub fits : loan.total_obligation ≤ max_int64
  pub balance : loan.remaining_balance + sum amounts ≡ loan.total_obligation
  pub standing :
      ((loan.remaining_balance ≡ 0) × (loan.status ≡ paid) × (loan.next_due_date ≡ none))
      ⊎ ((0 < loan.remaining_balance)
          × (is_running loan.status ≡ true)
          × (loan.next_due_date ≡ next_due loan.installments))

pub IsNumberedFrom-poured :
    (a k : ℕ) (rows : Rows) → IsNumberedFrom k rows → IsNumberedFrom k (poured a rows)
unfolding poured
IsNumberedFrom-poured a k [] u = tt
IsNumberedFrom-poured a k (i ∷ rest) u =
    (u.0, IsNumberedFrom-poured (a - i.scheduled_amount) (k + 1) rest u.1)

pub next_due-poured :
    (a : ℕ) (rows : Rows)
    → a < total_scheduled rows
    → (d : Date) × (next_due (poured a rows) ≡ some d)
unfolding poured
next_due-poured a [] h = absurd (omega arith)
next_due-poured a (i ∷ rest) h = elim (Bool-cases (ltb a i.scheduled_amount)) [
  | inl here ↦ (i.due_date, ground arith)
  | inr later ↦
      let (d, e) = next_due-poured (a - i.scheduled_amount) rest (ground arith) in
      (d, ground (arith, e))
]

-- The rows after a payment that fits.
post_payment-settled :
    (rows : Rows) (s n : ℕ)
    → 0 < n
    → rows ≡ poured s rows
    → n + s ≤ total_scheduled rows
    → IsNumberedFrom 1 rows
    → post_payment n (unpaid_rows rows) rows ≡ (poured (n + s) rows, 0)
post_payment-settled rows s n p e h u =
    let sum_comm : s + n ≡ n + s = omega arith in
    let rest : n + s - total_scheduled rows ≡ 0 = omega arith in
    post_payment-eq-allocate_one n 1 rows p u
    ∙ ap (allocate_one n) e
    ∙ allocate_one-poured n s rows p (omega arith)
    ∙ rw (sum_comm, rest) refl

module _ (loan : Loan) (n : ℕ) (rows : Rows) where
  pay_loan-last :
      is_running loan.status ≡ true
      → n ≡ loan.remaining_balance
      → post_payment n (unpaid_rows loan.installments) loan.installments ≡ (rows, 0)
      → pay_loan loan n
        ≡ ok (record loan {
          remaining_balance = 0;
          status = paid;
          next_due_date = none;
          installments = rows;
        })
  unfolding pay_loan
  pay_loan-last run e posted = rw (run, posted) (ground arith)

  pay_loan-part :
      (d : Date)
      → is_running loan.status ≡ true
      → n < loan.remaining_balance
      → post_payment n (unpaid_rows loan.installments) loan.installments ≡ (rows, 0)
      → next_due rows ≡ some d
      → pay_loan loan n
        ≡ ok (record loan {
          remaining_balance = loan.remaining_balance - n;
          next_due_date = some d;
          installments = rows;
        })
  unfolding pay_loan
  pay_loan-part d run le posted due = rw (run, posted, due) (ground arith)

-- If a running loan holds exactly some payments, then a positive payment within its balance always succeeds, and leaves a loan that holds these payments and it.
pub pay_loan-IsCurrent :
    (loan : Loan) (amounts : List ℕ) (n : ℕ)
    → IsCurrent loan amounts
    → is_running loan.status ≡ true
    → 0 < n
    → n ≤ loan.remaining_balance
    → (loan' : Loan) × (pay_loan loan n ≡ ok loan') × IsCurrent loan' (n ∷ amounts)
pay_loan-IsCurrent loan amounts n c run p le =
    let t = n + sum amounts in
    let rows = poured t loan.installments in
    let posted =
      post_payment-settled loan.installments (sum amounts) n p c.settled
        (omega (arith, c.balance, c.whole)) c.numbered in
    let numbers : IsNumberedFrom 1 rows = IsNumberedFrom-poured t 1 loan.installments c.numbered in
    let same : rows ≡ poured t rows = sym (poured-poured t t loan.installments) in
    let total : total_scheduled rows ≡ loan.total_obligation =
      total_scheduled-poured t loan.installments ∙ c.whole in
    elim (Bool-cases (n == loan.remaining_balance)) [
      | inl done ↦ (
        _,
        pay_loan-last loan n rows run (ground arith) posted,
        record {
          settled = same;
          whole = total;
          numbered = numbers;
          owed = c.owed;
          fits = c.fits;
          balance = ground (arith, c.balance);
          standing = inl (refl, refl, refl);
        },
      )
      | inr more ↦
          let (d, due) = next_due-poured t loan.installments (ground (arith, c.balance, c.whole)) in
          (
            _,
            pay_loan-part loan n rows d run (ground arith) posted due,
            record {
              settled = same;
              whole = total;
              numbered = numbers;
              owed = c.owed;
              fits = c.fits;
              balance = ground (arith, c.balance);
              standing = inr (ground arith, run, sym due);
            },
          )
    ]
