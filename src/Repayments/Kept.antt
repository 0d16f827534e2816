-- ===== src/Repayments/Kept.antt =====
-- When the books agree: every loan with the repayments recorded for it
-- (internal/app/repayments.go).
use kopdes.Base.{
  positive, positive_lem, ℕ, ◌+◌, ◌≤◌, ◌<◌, ◌≡◌, refl, sym, ap, ◌∙◌, true, false, Bool,
  if◌then◌else◌, some, List, [], ◌∷◌, ◌++◌, sum, map, keep, All, All-append_one, ok, arith, inl,
  inr, Option-cases, Result-cases,
}
use kopdes.Base.Text.{Text, text_eq, text_eq→eq, text_eq_sym-false, text_eq_refl}
use kopdes.Base.Table.{find, update, IsKeyed, IsKeyed-update, All-find, All-update_one, find-key}
use kopdes.Accounting.Journal.{create_financial_journal}
use kopdes.Accounting.Balance.{AllBalanced, create_financial_journal-AllBalanced}
use kopdes.Allocation.{post_payment, unpaid_rows}
use kopdes.Repayments.Types.{
  invalid_repayment, Loan, Repayment, Books, key_of_loan, is_running, next_due,
}
use kopdes.Repayments.Posting.{
  pay_loan, new_repayment, record_repayment, RepaymentInput, repayment_journal,
}
use kopdes.Repayments.Current.{IsCurrent, pay_loan-IsCurrent}

-- The amounts recorded for a loan.
abbrev pub belongs_to : Text → Repayment → Bool
belongs_to loan_id r = text_eq r.loan_id loan_id

abbrev pub amounts_of : Text → List Repayment → List ℕ
amounts_of loan_id rs = map (λ (r : Repayment). r.amount) (keep (belongs_to loan_id) rs)

-- Loan identifiers are unique, every loan holds exactly its repayments, and the ledger balances.
pub record IsKept (books : Books) : Type 0 where
  pub keyed : IsKeyed key_of_loan books.loans
  pub current : All (λ (l : Loan). IsCurrent l (amounts_of l.id books.repayments)) books.loans
  pub paid_in : All (λ (r : Repayment). 0 < r.amount) books.repayments
  pub balanced : AllBalanced books.ledger

-- Only the total of the payments matters.
pub IsCurrent-sum :
    (loan : Loan) (xs ys : List ℕ) → sum xs ≡ sum ys → IsCurrent loan xs → IsCurrent loan ys
IsCurrent-sum loan xs ys e c = record {
  settled = rw e at c.settled;
  whole = c.whole;
  numbered = c.numbered;
  owed = c.owed;
  fits = c.fits;
  balance = rw e at c.balance;
  standing = c.standing;
}

pub amounts_of-append :
    (loan_id : Text) (rs : List Repayment) (r : Repayment)
    → sum (amounts_of loan_id (rs ++ r ∷ []))
      ≡ sum (amounts_of loan_id rs) + (if belongs_to loan_id r then r.amount else 0)
amounts_of-append loan_id [] r = ground arith
amounts_of-append loan_id (q ∷ rs) r = ground (arith, amounts_of-append loan_id rs r)

-- A payment leaves a loan's identifier alone, and is within its balance.
pub pay_loan-guards :
    (loan : Loan) (n : ℕ) {loan' : Loan}
    → pay_loan loan n ≡ ok loan'
    → (is_running loan.status ≡ true) × (n ≤ loan.remaining_balance) × (loan'.id ≡ loan.id)
unfolding pay_loan
pay_loan-guards loan n {loan'} h =
    elim (Option-cases
      (next_due (post_payment n (unpaid_rows loan.installments) loan.installments).0)) [
        | inl missing ↦ (ground arith, ground arith, ground arith)
        | inr (d, e) ↦ (ground arith, ground arith, ground arith)
      ]

-- What `record_repayment` does to the books.
pub record Records (books books' : Books) (loan_id new_id journal_id : Text) (loan loan' : Loan)
    (r : Repayment) : Type 0 where
  pub row : find key_of_loan loan_id books.loans ≡ some loan
  pub paid : pay_loan loan r.amount ≡ ok loan'
  pub loans : books'.loans ≡ update key_of_loan loan_id (λ _. loan') books.loans
  pub repayments : books'.repayments ≡ books.repayments ++ r ∷ []
  pub of_loan : r.loan_id ≡ loan_id
  pub named : r.id ≡ new_id
  pub is_positive : 0 < r.amount
  pub cash_coa_code : Text
  pub description : Text
  pub posted :
      create_financial_journal books.ledger
        (repayment_journal r loan.loan_type cash_coa_code description)
        journal_id
      ≡ ok books'.ledger

pub record_repayment-Records :
    (books : Books) (loan_id admin_id : Text) (req : RepaymentInput)
    (audit_reason description new_id journal_id : Text) {books' : Books}
    → record_repayment books loan_id admin_id req audit_reason description new_id journal_id
      ≡ ok books'
    → (loan : Loan) × (loan' : Loan) × (r : Repayment) × Records books books' loan_id new_id
        journal_id loan loan' r
unfolding record_repayment
record_repayment-Records books loan_id admin_id req audit_reason description new_id journal_id
      {books'} h =
    elim (Result-cases (positive req.amount invalid_repayment)) [
      | inr (x, bad) ↦ absurd (ground arith)
      | inl (n, e) ↦ elim (Option-cases (find key_of_loan loan_id books.loans)) [
        | inl missing ↦ absurd (ground arith)
        | inr (loan, row) ↦ elim (Result-cases (pay_loan loan n)) [
          | inr (x, bad) ↦ absurd (ground arith)
          | inl (loan', done) ↦
              let r = new_repayment loan loan_id admin_id req n new_id in
              let journal = repayment_journal r loan.loan_type req.cash_coa_code description in
              elim (Result-cases (create_financial_journal books.ledger journal journal_id)) [
                | inr (x, bad) ↦ absurd (ground arith)
                | inl (ledger', posted) ↦ (
                  loan,
                  loan',
                  r,
                  record {
                    row = row;
                    paid = done;
                    loans = ground arith;
                    repayments = ground arith;
                    of_loan = refl;
                    named = refl;
                    is_positive = (positive_lem req.amount invalid_repayment e).0;
                    cash_coa_code = req.cash_coa_code;
                    description = description;
                    posted = ground arith;
                  },
                )
              ]
        ]
      ]
    ]

-- A payment adds its amount to those of its loan, and to no other's.
amounts_of-own :
    (loan_id : Text) (rs : List Repayment) (r : Repayment)
    → r.loan_id ≡ loan_id
    → r.amount + sum (amounts_of loan_id rs) ≡ sum (amounts_of loan_id (rs ++ r ∷ []))
amounts_of-own loan_id rs r e =
    let mine : belongs_to loan_id r ≡ true = rw e (text_eq_refl loan_id) in
    let whole = amounts_of-append loan_id rs r in
    let whole' = rw mine at whole in omega (arith, whole')

amounts_of-other :
    (loan_id : Text) (rs : List Repayment) (r : Repayment)
    → text_eq r.loan_id loan_id ≡ false
    → sum (amounts_of loan_id rs) ≡ sum (amounts_of loan_id (rs ++ r ∷ []))
amounts_of-other loan_id rs r e =
    let whole = amounts_of-append loan_id rs r in
    let whole' = rw e at whole in omega (arith, whole')

pub Records-IsKept :
    (books books' : Books) (loan_id new_id journal_id : Text) (loan loan' : Loan) (r : Repayment)
    → Records books books' loan_id new_id journal_id loan loan' r
    → IsKept books
    → IsKept books'
Records-IsKept books books' loan_id new_id journal_id loan loan' r w k =
    let before = All-find key_of_loan _ loan_id books.loans w.row k.current in
    let (run, le, id) = pay_loan-guards loan r.amount w.paid in
    let named : loan.id ≡ loan_id =
      text_eq→eq loan.id loan_id (find-key key_of_loan loan_id books.loans w.row) in
    let (next, paid, after) =
      pay_loan-IsCurrent loan (amounts_of loan.id books.repayments) r.amount before run
        w.is_positive le in
    let same : next ≡ loan' = ground (paid, w.paid, arith) in
    record {
      keyed = rw w.loans (
          IsKeyed-update key_of_loan loan_id (λ _. loan') books.loans
            (λ q at_id. id ∙ named ∙ sym (text_eq→eq q.id loan_id at_id)) k.keyed);
      current =
          rw (w.loans, w.repayments)
            (All-update_one key_of_loan (λ l. IsCurrent l (amounts_of l.id books.repayments))
              (λ l. IsCurrent l (amounts_of l.id (books.repayments ++ r ∷ []))) loan_id (λ _. loan')
              books.loans w.row k.keyed k.current
              (IsCurrent-sum loan' (r.amount ∷ amounts_of loan.id books.repayments) _
                (amounts_of-own loan.id books.repayments r (w.of_loan ∙ sym named)
                  ∙ ap (λ (t : Text). sum (amounts_of t (books.repayments ++ r ∷ []))) (sym id))
                (rw same at after))
              (λ b other c.
                IsCurrent-sum b _ _
                  (amounts_of-other b.id books.repayments r
                    (rw w.of_loan (text_eq_sym-false b.id loan_id other)))
                  c));
      paid_in = rw w.repayments (
          All-append_one (λ (q : Repayment). 0 < q.amount) books.repayments r k.paid_in
            w.is_positive);
      balanced =
          create_financial_journal-AllBalanced books.ledger
            (repayment_journal r loan.loan_type w.cash_coa_code w.description) journal_id w.posted
            k.balanced;
    }

-- Recording a repayment on books that agree leaves books that agree: loan identifiers stay unique,
-- every loan holds exactly the repayments recorded for it, and every journal balances.
pub record_repayment-IsKept :
    (books : Books) (loan_id admin_id : Text) (req : RepaymentInput)
    (audit_reason description new_id journal_id : Text) {books' : Books}
    → record_repayment books loan_id admin_id req audit_reason description new_id journal_id
      ≡ ok books'
    → IsKept books
    → IsKept books'
record_repayment-IsKept books loan_id admin_id req audit_reason description new_id journal_id
      {books'} h k =
    let (loan, loan', r, w) =
      record_repayment-Records books loan_id admin_id req audit_reason description new_id journal_id
        {books' = books'} h in
    Records-IsKept books books' loan_id new_id journal_id loan loan' r w k
