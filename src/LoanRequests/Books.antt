-- ===== src/LoanRequests/Books.antt =====
-- The books through a disbursement: internal/app/loans.go against internal/app/repayments.go.
use kopdes.Base.{◌≤◌, ◌≡◌, refl, List, [], ◌∷◌, ◌++◌, ok, arith, inl, inr, Result-cases, max_int64}
use kopdes.Base.Text.{Text}
use kopdes.Accounting.Journal.{create_financial_journal}
use kopdes.Accounting.Balance.{create_financial_journal-AllBalanced}
use kopdes.Repayments.Types.{Loan, Books}
use kopdes.Repayments.Posting.{record_repayment}
use kopdes.Repayments.Current.{IsCurrent}
use kopdes.Repayments.Kept.{IsKept, record_repayment-IsKept}
use kopdes.Repayments.Opened.{
  IsUnused, opened-IsKept, IsFresh-IsCurrent, build_loan_schedule_from_obligation-IsFresh,
}
use kopdes.LoanRequests.Types.{LoanRequest}
use kopdes.Schedule.Terms.{max_duration}
use kopdes.LoanRequests.Disbursement.{
  Payoff, payoff_input, pay_off, disburse_books, loan_journal, new_loan, DisbursableTerms,
}
use kopdes.Schedule.Checked.{validate_loan_fee_snapshot-IsChecked}
use kopdes.LoanRequests.Backed.{check_terms-parts}
use kopdes.LoanRequests.Disbursed.{IsDisbursable}

pub new_loan-IsCurrent :
    (r : LoanRequest) (t : DisbursableTerms) (date loan_id : Text)
    → IsDisbursable r date t
    → IsCurrent (new_loan r t date loan_id) []
new_loan-IsCurrent r t date loan_id d =
    let (valid, built) = check_terms-parts t.proposal date {s = t.calc} d.checked in
    let c = validate_loan_fee_snapshot-IsChecked _ _ _ _ _ _ valid in
    let fits : t.obligation ≤ max_int64 = ground (arith, c.fits, c.obligation_is, d.obligation) in
    IsFresh-IsCurrent (new_loan r t date loan_id)
      (build_loan_schedule_from_obligation-IsFresh t.obligation t.proposal.duration_months date
        (max_duration t.proposal.admin_fee_policy) (rw d.obligation at built) fits)
      refl refl

pub pay_off-IsKept :
    (books : Books) (by : Payoff) (chosen : List Loan) {books' : Books}
    → pay_off books by chosen ≡ ok books'
    → IsKept books
    → IsKept books'
unfolding pay_off
pay_off-IsKept books by [] {books'} h k = let same : books ≡ books' = ground arith in rw same at k
pay_off-IsKept books by (l ∷ rest) {books'} h k =
    elim (Result-cases (
      record_repayment books l.id by.officer_id (payoff_input by.request_id by.date by.note l) []
        by.description (by.fresh l.id).0 (by.fresh l.id).1)) [
          | inr (x, bad) ↦ absurd (ground arith)
          | inl (next, paid) ↦ pay_off-IsKept next by rest (ground arith) (
              record_repayment-IsKept books l.id by.officer_id
                (payoff_input by.request_id by.date by.note l) [] by.description (by.fresh l.id).0
                (by.fresh l.id).1 paid k)
        ]

pub disburse_books-IsKept :
    (books : Books) (loan : Loan) (journal_id description : Text) (by : Payoff) (chosen : List Loan)
    {books' : Books}
    → disburse_books books loan journal_id description by chosen ≡ ok books'
    → IsUnused books loan.id
    → IsCurrent loan []
    → IsKept books
    → IsKept books'
unfolding disburse_books
disburse_books-IsKept books loan journal_id description by chosen {books'} h unused current k =
    let journal = loan_journal loan by.request_id description by.officer_id in
    elim (Result-cases (create_financial_journal books.ledger journal journal_id)) [
      | inr (x, bad) ↦ absurd (ground arith)
      | inl (ledger, posted) ↦
          pay_off-IsKept (record books { loans = books.loans ++ loan ∷ []; ledger = ledger }) by
            chosen (ground arith)
            (opened-IsKept books loan ledger unused current
              (create_financial_journal-AllBalanced books.ledger journal journal_id posted
                k.balanced)
              k)
    ]
