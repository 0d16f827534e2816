-- ===== src/LoanRequests/PaidOut.antt =====
-- How a disbursement leaves the books: internal/app/loans.go.
use kopdes.Base.{
  ◌≡◌, refl, ◌∙◌, false, none, some, List, [], ◌∷◌, ◌++◌, ok, err, arith, inl, inr, Result-cases,
  Bool-cases, keep, All,
}
use kopdes.Base.Text.{Text, is_empty, trim_space}
use kopdes.Base.Table.{find, IsKeyed}
use kopdes.Base.Keyed.{
  find-keep-none, find-append_own, find-append, IsKeyed-found, IsKeyed-keep, All-keep, All-map,
}
use kopdes.Accounting.Types.{JournalError}
use kopdes.Accounting.Journal.{create_financial_journal}
use kopdes.Repayments.Types.{Loan, Books, journal_failed, key_of_loan}
use kopdes.Repayments.Current.{IsCurrent}
use kopdes.Repayments.Kept.{IsKept}
use kopdes.Accounting.Balance.{create_financial_journal-AllBalanced}
use kopdes.Repayments.Opened.{IsUnused, opened-IsKept}
use kopdes.LoanRequests.Types as OfRequest
use kopdes.LoanRequests.Types.{LoanRequest, Outcome, LoanRequestError, payoff_failed}
use kopdes.LoanRequests.Disbursement.{
  Payoff, loans_to_pay_off, is_settling, disburse_books, loan_journal,
}
use kopdes.LoanRequests.Decisions.{is_outstanding}
use kopdes.LoanRequests.Payoff.{IsOpen, IsSettled, pay_off-cases}

-- The outstanding loans of a member can all be paid off.
chosen-IsOpen :
    (r : LoanRequest) (loans more : List Loan)
    → IsKeyed key_of_loan loans
    → All (IsOpen (loans ++ more)) (loans_to_pay_off r loans)
chosen-IsOpen r loans more keyed = elim (Bool-cases (is_settling r)) [
  | inr keeps ↦ rw keeps tt
  | inl settles ↦ rw settles (
      All-map _ _ (keep (is_outstanding r.member_id) loans)
        (λ l h.
          (find-append key_of_loan l.id loans more h.0, ground (arith, h.1), ground (arith, h.1)))
        (All-keep _ (is_outstanding r.member_id) loans (IsKeyed-found key_of_loan loans keyed)))
]

chosen-IsKeyed :
    (r : LoanRequest) (loans : List Loan)
    → IsKeyed key_of_loan loans
    → IsKeyed key_of_loan (loans_to_pay_off r loans)
chosen-IsKeyed r loans keyed = elim (Bool-cases (is_settling r)) [
  | inr keeps ↦ rw keeps tt
  | inl settles ↦ rw settles (IsKeyed-keep key_of_loan (is_outstanding r.member_id) loans keyed)
]

chosen-other :
    (r : LoanRequest) (loans : List Loan) (id : Text)
    → find key_of_loan id loans ≡ none
    → find key_of_loan id (loans_to_pay_off r loans) ≡ none
chosen-other r loans id h = elim (Bool-cases (is_settling r)) [
  | inr keeps ↦ rw keeps (unfold find in refl)
  | inl settles ↦ rw settles (find-keep-none key_of_loan id (is_outstanding r.member_id) loans h)
]

-- How the books of a disbursement come out.
pub data PaidOut (loan : Loan) (chosen : List Loan) : Outcome Books → Type 0 where
  -- a journal was refused
  refused_journal : (j : JournalError) → PaidOut loan chosen (err (OfRequest.journal_failed j))
  refused_payoff : (j : JournalError) → PaidOut loan chosen (err (payoff_failed (journal_failed j)))
  -- every chosen loan is paid, and the new loan stands
  went_through :
      (books' : Books)
      → All (IsSettled books'.loans) chosen
      → find key_of_loan loan.id books'.loans ≡ some loan
      → PaidOut loan chosen (ok books')

-- On books that agree, and for a new loan under an unused identifier with a plan that nothing is
-- paid of, the books of a disbursement with a date fail only on a journal that the ledger refuses.
-- Otherwise every outstanding loan that the request settles is paid in full, with no balance left,
-- and the new loan stands as it was created.
pub disburse_books-PaidOut :
    (books : Books) (r : LoanRequest) (loan : Loan) (journal_id description : Text) (by : Payoff)
    → is_empty (trim_space by.date) ≡ false
    → IsKept books
    → IsUnused books loan.id
    → IsCurrent loan []
    → PaidOut loan
        (loans_to_pay_off r books.loans)
        (disburse_books books loan journal_id description by (loans_to_pay_off r books.loans))
unfolding disburse_books
disburse_books-PaidOut books r loan journal_id description by dated k unused current =
    let journal = loan_journal loan by.request_id description by.officer_id in
    let chosen = loans_to_pay_off r books.loans in
    elim (Result-cases (create_financial_journal books.ledger journal journal_id)) [
      | inr (j, bad) ↦ rw bad (refused_journal j)
      | inl (ledger, posted) ↦
          let start : Books = record books { loans = books.loans ++ loan ∷ []; ledger = ledger } in
          let kept : IsKept start =
            opened-IsKept books loan ledger unused current
              (create_financial_journal-AllBalanced books.ledger journal journal_id posted
                k.balanced)
              k in
          elim (pay_off-cases start by chosen dated kept
            (chosen-IsOpen r books.loans (loan ∷ []) k.keyed)
            (chosen-IsKeyed r books.loans k.keyed)) [
              | inl (j, bad) ↦ rw (posted, bad) (refused_payoff j)
              | inr (books', done, w) ↦
                  rw (posted, done)
                    (went_through books' w.settled (
                      w.frame loan.id (chosen-other r books.loans loan.id unused.0)
                      ∙ find-append_own key_of_loan books.loans loan unused.0))
            ]
    ]
