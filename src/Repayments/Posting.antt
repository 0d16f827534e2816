-- ===== src/Repayments/Posting.antt =====
-- `recordRepaymentTx` of internal/app/repayments.go.
use kopdes.Base.{
  ℕ, ◌-◌, ltb, ◌==◌, not, ◌&&◌, ◌||◌, if◌then◌else◌, ℤ, pos, none, some, List, [], ◌∷◌, ◌++◌, ok,
  err, ◌>>=◌, ◌>>◌, reject_if, found, positive,
}
use kopdes.Base.Text.{Text, codes, is_empty, trim_space}
use kopdes.Base.Table.{find, update}
use kopdes.Approval.{Role}
use kopdes.Authorization.Permissions.{has_permission, accounting_coa_override}
use kopdes.Allocation.{post_payment, unpaid_rows}
use kopdes.Accounting.Types.{Ledger, JournalInput, Journaled}
use kopdes.Accounting.Journal.{create_financial_journal}
use kopdes.Repayments.Types.{
  Loan, paid, Repayment, Audit, Books, Outcome, coa_override_forbidden, invalid_repayment,
  loan_not_found, loan_not_active, over_balance, no_installment_due, journal_failed, key_of_loan,
  is_running, next_due,
}

-- `repaymentInput` with the acting officer's role
pub record RepaymentInput : Type 0 where
  pub amount : ℤ
  pub record_date : Text
  pub coa_code : Text
  pub cash_coa_code : Text
  pub reference_no : Text
  pub note : Text
  pub role : Role

-- The loan after a payment of a positive amount.
unfoldable pub pay_loan : Loan → ℕ → Outcome Loan
pay_loan loan amount = do
  reject_if (not (is_running loan.status)) loan_not_active
  reject_if (ltb loan.remaining_balance amount) over_balance
  let (rows, remaining) = post_payment amount (unpaid_rows loan.installments) loan.installments
  reject_if (not (remaining == 0)) over_balance
  let new_balance = loan.remaining_balance - amount
  let paid_off = record loan {
    remaining_balance = new_balance;
    status = paid;
    next_due_date = none;
    installments = rows;
  }
  let due = found (next_due rows) no_installment_due
  if new_balance == 0
      then ok paid_off
      else (due >>= λ d. ok (record loan {
        remaining_balance = new_balance;
        next_due_date = some d;
        installments = rows;
      }))

-- The journal of a repayment: cash or bank against the receivable.
abbrev pub repayment_journal : Repayment → Text → Text → Text → JournalInput
repayment_journal r loan_type cash_coa_code description = record {
  reference_no = r.reference_no;
  transaction_id = r.id;
  transaction_type = codes "repayment";
  transaction_date = r.record_date;
  source = r.source;
  amount = pos r.amount;
  direction = [];
  coa_code = [];
  category = [];
  loan_type = loan_type;
  components =
      record { component = codes "cash_bank"; side = codes "debit"; amount = pos r.amount }
      ∷ record { component = codes "loan_receivable"; side = codes "credit"; amount = pos r.amount }
      ∷ [];
  lines = [];
  coa_overrides =
      (codes "cash_bank", trim_space cash_coa_code) ∷ (codes "loan_receivable", r.coa_code) ∷ [];
  description = description;
  recorded_by = r.recorded_by;
  batch_id = [];
}

abbrev journaled : Journaled Ledger → Outcome Ledger
journaled (ok ledger) = ok ledger
journaled (err e) = err (journal_failed e)

abbrev audited : Repayment → Text → Text → List Audit → List Audit
audited repayment reason actor_id audits =
    if is_empty reason
    then audits
    else audits ++ record { after_state = repayment; reason = reason; actor_id = actor_id } ∷ []

-- The row of a payment of a positive amount.
abbrev pub new_repayment : Loan → Text → Text → RepaymentInput → ℕ → Text → Repayment
new_repayment loan loan_id admin_id req amount new_id = record {
  id = new_id;
  loan_id = loan_id;
  member_id = loan.member_id;
  source = codes "bank";
  coa_code = trim_space req.coa_code;
  amount = amount;
  record_date = trim_space req.record_date;
  reference_no = trim_space req.reference_no;
  note = trim_space req.note;
  recorded_by = admin_id;
}

-- `recordRepaymentTx`, with the identifiers of the repayment and of its journal.
unfoldable pub record_repayment :
    Books → Text → Text → RepaymentInput → Text → Text → Text → Text → Outcome Books
record_repayment books loan_id admin_id req audit_reason journal_description new_id journal_id = do
  reject_if
      ((not (is_empty (trim_space req.coa_code)) || not (is_empty (trim_space req.cash_coa_code)))
        && not (has_permission req.role accounting_coa_override))
      coa_override_forbidden
  amount ← positive req.amount invalid_repayment
  reject_if (is_empty (trim_space req.record_date)) invalid_repayment
  loan ← found (find key_of_loan loan_id books.loans) loan_not_found
  loan' ← pay_loan loan amount
  let repayment = new_repayment loan loan_id admin_id req amount new_id
  ledger ← journaled (
      create_financial_journal books.ledger
        (repayment_journal repayment loan.loan_type req.cash_coa_code journal_description)
        journal_id)
  ok (record books {
    loans = update key_of_loan loan_id (λ _. loan') books.loans;
    repayments = books.repayments ++ repayment ∷ [];
    audits = audited repayment audit_reason admin_id books.audits;
    ledger = ledger;
  })
