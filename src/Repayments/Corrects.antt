-- ===== src/Repayments/Corrects.antt =====
-- What a successful correction or removal of a repayment does to the tables
-- (internal/app/repayment_corrections.go).
use kopdes.Base.{
  ℕ, ◌<◌, ◌≡◌, Bool, true, false, not, some, List, keep, ok, positive, positive_lem, arith, inl,
  inr, Option-cases, Result-cases,
}
use kopdes.Base.Text.{Text, text_eq}
use kopdes.Base.Table.{find, update}
use kopdes.Approval.Requests.{User}
use kopdes.Repayments.Types.{Loan, Repayment, key_of_loan}
use kopdes.Repayments.Corrections.{
  CorrectionDesk, CorrectionInput, Fresh, key_of_repayment, corrected, correct_repayment,
  remove_repayment, refresh_loan, sync_repayment_journal, invalid_repayment_correction,
}

pub record Corrects (desk desk' : CorrectionDesk) (actor_id id : Text) (r after : Repayment)
    (loan : Loan) (rows : List Repayment) (removing : Bool) (fresh : Fresh) : Type 0 where
  pub row : find key_of_repayment id desk.books.repayments ≡ some r
  pub loan_row : find key_of_loan r.loan_id desk.books.loans ≡ some loan
  pub repayments : desk'.books.repayments ≡ rows
  pub loans : refresh_loan loan r.member_id desk.books.loans rows ≡ ok desk'.books.loans
  pub ledger :
      sync_repayment_journal desk.books.ledger desk.transaction_audits actor_id after loan.loan_type
        removing fresh
      ≡ ok (desk'.books.ledger, desk'.transaction_audits)

pub correct_repayment-Corrects :
    (desk : CorrectionDesk) (actor : User) (id : Text) (req : CorrectionInput) (fresh : Fresh)
    {desk' : CorrectionDesk}
    → correct_repayment desk actor id req fresh ≡ ok desk'
    → (r : Repayment) × (loan : Loan) × (n : ℕ) × (0 < n)
      × Corrects desk desk' actor.id id r
          (corrected req n r)
          loan
          (update key_of_repayment id (λ _. corrected req n r) desk.books.repayments)
          false
          fresh
unfolding correct_repayment
correct_repayment-Corrects desk actor id req fresh {desk'} h =
    elim (Result-cases (positive req.amount invalid_repayment_correction)) [
      | inr (x, bad) ↦ absurd (ground arith)
      | inl (n, e) ↦ elim (Option-cases (find key_of_repayment id desk.books.repayments)) [
        | inl missing ↦ absurd (ground arith)
        | inr (r, row) ↦ elim (Option-cases (find key_of_loan r.loan_id desk.books.loans)) [
          | inl missing ↦ absurd (ground arith)
          | inr (loan, loan_row) ↦
              let r' = corrected req n r in
              let rows = update key_of_repayment id (λ _. r') desk.books.repayments in
              elim (Result-cases (refresh_loan loan r.member_id desk.books.loans rows)) [
                | inr (x, bad) ↦ absurd (ground arith)
                | inl (loans, done) ↦
                    elim (Result-cases (
                      sync_repayment_journal desk.books.ledger desk.transaction_audits actor.id r'
                        loan.loan_type false fresh)) [
                          | inr (x, bad) ↦ absurd (ground arith)
                          | inl ((ledger, audits), synced) ↦ (
                            r,
                            loan,
                            n,
                            (positive_lem req.amount invalid_repayment_correction e).0,
                            record {
                              row = row;
                              loan_row = loan_row;
                              repayments = ground arith;
                              loans = ground arith;
                              ledger = ground arith;
                            },
                          )
                        ]
              ]
        ]
      ]
    ]

pub remove_repayment-Corrects :
    (desk : CorrectionDesk) (actor : User) (id text : Text) (fresh : Fresh) {desk' : CorrectionDesk}
    → remove_repayment desk actor id text fresh ≡ ok desk'
    → (r : Repayment) × (loan : Loan) × Corrects desk desk' actor.id id r r loan
        (keep (λ (q : Repayment). not (text_eq q.id id)) desk.books.repayments)
        true
        fresh
unfolding remove_repayment
remove_repayment-Corrects desk actor id text fresh {desk'} h =
    elim (Option-cases (find key_of_repayment id desk.books.repayments)) [
      | inl missing ↦ absurd (ground arith)
      | inr (r, row) ↦ elim (Option-cases (find key_of_loan r.loan_id desk.books.loans)) [
        | inl missing ↦ absurd (ground arith)
        | inr (loan, loan_row) ↦
            let rows = keep (λ (q : Repayment). not (text_eq q.id id)) desk.books.repayments in
            elim (Result-cases (refresh_loan loan r.member_id desk.books.loans rows)) [
              | inr (x, bad) ↦ absurd (ground arith)
              | inl (loans, done) ↦
                  elim (Result-cases (
                    sync_repayment_journal desk.books.ledger desk.transaction_audits actor.id r
                      loan.loan_type true fresh)) [
                        | inr (x, bad) ↦ absurd (ground arith)
                        | inl ((ledger, audits), synced) ↦ (
                          r,
                          loan,
                          record {
                            row = row;
                            loan_row = loan_row;
                            repayments = ground arith;
                            loans = ground arith;
                            ledger = ground arith;
                          },
                        )
                      ]
            ]
      ]
    ]
