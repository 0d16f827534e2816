-- ===== src/LoanRequests/Effects.antt =====
-- The effect of the operations on loan requests on the tables.
use kopdes.Base.{◌≡◌, refl, ◌∙◌, some, ok, arith, inl, inr, Option-cases}
use kopdes.Base.Text.{Text, trim_space}
use kopdes.Base.Table.{find, update, update-found}
use kopdes.Approval.Requests.{User}
use kopdes.LoanRequests.Types.{LoanRequest, Desk, key_of_loan_request}
use kopdes.LoanRequests.Requests.{
  cancel_loan_request, cancel_admin_loan_request, cancel_loan, cancel_loan_by,
}
use kopdes.LoanRequests.Decisions.{reject_loan_request, reject_loan}
use kopdes.LoanRequests.Overrides.{reject_loan_by_super_admin}
use kopdes.LoanRequests.Invariant.{
  IsFit, cancel_loan-IsFit, cancel_loan_by-IsFit, reject_loan-IsFit,
}

-- One request is replaced by a fit one; the books stay.
pub record Moves (desk desk' : Desk) (id : Text) (r r' : LoanRequest) : Type 0 where
  pub row : find key_of_loan_request id desk.requests ≡ some r
  pub requests : desk'.requests ≡ update key_of_loan_request id (λ _. r') desk.requests
  pub books : desk'.books ≡ desk.books
  pub same : r'.id ≡ r.id
  pub fit : IsFit r → IsFit r'

-- A row rewritten by a function, as a replaced one.
module _ (desk desk' : Desk) (id : Text) (r : LoanRequest) (f : LoanRequest → LoanRequest) where
  pub Moves-rewritten :
      find key_of_loan_request id desk.requests ≡ some r
      → desk'.requests ≡ update key_of_loan_request id f desk.requests
      → desk'.books ≡ desk.books
      → (f r).id ≡ r.id
      → (IsFit r → IsFit (f r))
      → Moves desk desk' id r (f r)
  Moves-rewritten row e books same fit = record {
    row = row;
    requests = e ∙ update-found key_of_loan_request id f desk.requests row;
    books = books;
    same = same;
    fit = fit;
  }

pub cancel_loan_request-Moves :
    (desk : Desk) (id member_id : Text) {desk' : Desk}
    → cancel_loan_request desk id member_id ≡ ok desk'
    → (r : LoanRequest) × (r' : LoanRequest) × Moves desk desk' id r r'
unfolding cancel_loan_request
cancel_loan_request-Moves desk id member_id {desk'} h =
    elim (Option-cases (find key_of_loan_request id desk.requests)) [
      | inl missing ↦ absurd (ground arith)
      | inr (r, e) ↦ (
        r,
        cancel_loan r,
        Moves-rewritten desk desk' id r cancel_loan e (ground arith) (ground arith) refl
            (cancel_loan-IsFit r (ground arith)),
      )
    ]

pub cancel_admin_loan_request-Moves :
    (desk : Desk) (id : Text) (actor : User) (reason : Text) {desk' : Desk}
    → cancel_admin_loan_request desk id actor reason ≡ ok desk'
    → (r : LoanRequest) × (r' : LoanRequest) × Moves desk desk' id r r'
unfolding cancel_admin_loan_request
cancel_admin_loan_request-Moves desk id actor reason {desk'} h =
    elim (Option-cases (find key_of_loan_request id desk.requests)) [
      | inl missing ↦ absurd (ground arith)
      | inr (r, e) ↦ (
        r,
        cancel_loan_by (trim_space reason) actor.id r,
        Moves-rewritten desk desk' id r (cancel_loan_by (trim_space reason) actor.id) e
            (ground arith) (ground arith) refl
            (cancel_loan_by-IsFit (trim_space reason) actor.id r (ground arith)),
      )
    ]

pub reject_loan_request-Moves :
    (desk : Desk) (id : Text) (officer : User) (reason : Text) {desk' : Desk}
    → reject_loan_request desk id officer reason ≡ ok desk'
    → (r : LoanRequest) × (r' : LoanRequest) × Moves desk desk' id r r'
unfolding reject_loan_request
reject_loan_request-Moves desk id officer reason {desk'} h =
    elim (Option-cases (find key_of_loan_request id desk.requests)) [
      | inl missing ↦ absurd (ground arith)
      | inr (r, e) ↦ (
        r,
        reject_loan officer.id (trim_space reason) r,
        Moves-rewritten desk desk' id r (reject_loan officer.id (trim_space reason)) e
            (ground arith) (ground arith) refl
            (reject_loan-IsFit officer.id (trim_space reason) r (ground arith)),
      )
    ]

pub reject_loan_by_super_admin-Moves :
    (desk : Desk) (id : Text) (actor : User) (reason : Text) {desk' : Desk}
    → reject_loan_by_super_admin desk id actor reason ≡ ok desk'
    → (r : LoanRequest) × (r' : LoanRequest) × Moves desk desk' id r r'
unfolding reject_loan_by_super_admin
reject_loan_by_super_admin-Moves desk id actor reason {desk'} h =
    elim (Option-cases (find key_of_loan_request id desk.requests)) [
      | inl missing ↦ absurd (ground arith)
      | inr (r, e) ↦ (
        r,
        reject_loan actor.id (trim_space reason) r,
        Moves-rewritten desk desk' id r (reject_loan actor.id (trim_space reason)) e (ground arith)
            (ground arith) refl (reject_loan-IsFit actor.id (trim_space reason) r (ground arith)),
      )
    ]
