-- ===== src/LoanRequests/Sound.antt =====
-- When the tables of the loan requests agree, operation by operation (internal/app/loan_requests.go,
-- internal/app/loans.go, internal/app/super_admin_overrides.go, internal/app/repayments.go).
use kopdes.Base.{
  Option-cases, Option, ℤ, ◌≡◌, refl, sym, ◌∙◌, true, none, [], ◌∷◌, ◌++◌, ok, arith, inl, inr, All,
  All-append_one, Result-cases,
}
use kopdes.Base.Text.{Text, codes, text_eq→eq}
use kopdes.Base.Table.{
  find, find-key, IsKeyed, IsKeyed-update, IsKeyed-append_one, All-update, All-find,
}
use kopdes.Approval.Requests.{User}
use kopdes.Repayments.Kept.{IsKept}
use kopdes.Repayments.Opened.{IsUnused}
use kopdes.LoanRequests.Types.{LoanRequest, Desk, key_of_loan_request, key_of_borrower}
use kopdes.LoanRequests.Requests.{
  LoanRequestInput, insert_loan_request, insert_admin_loan_request, validate_loan_request_input,
  new_loan_request, check_borrower,
}
use kopdes.LoanRequests.Disbursement.{disburse_loan, is_settling, new_loan}
use kopdes.LoanRequests.Invariant.{IsFit, disburse_loan-IsFit}
use kopdes.LoanRequests.Effects.{Moves}
use kopdes.LoanRequests.Disbursed.{Disburses}
use kopdes.LoanRequests.Books.{new_loan-IsCurrent, disburse_books-IsKept}

-- Request identifiers are unique, every request agrees with itself, and the books agree.
pub record IsSoundDesk (desk : Desk) : Type 0 where
  pub keyed : IsKeyed key_of_loan_request desk.requests
  pub fit : All IsFit desk.requests
  pub kept : IsKept desk.books

-- A row replaced alone.
pub Moves-IsSoundDesk :
    (desk desk' : Desk) (id : Text) (r r' : LoanRequest)
    → Moves desk desk' id r r'
    → IsSoundDesk desk
    → IsSoundDesk desk'
Moves-IsSoundDesk desk desk' id r r' w sound = record {
  keyed = rw w.requests (
      IsKeyed-update key_of_loan_request id (λ _. r') desk.requests
        (λ q at_id.
          w.same
          ∙ text_eq→eq r.id id (find-key key_of_loan_request id desk.requests w.row)
          ∙ sym (text_eq→eq q.id id at_id))
        sound.keyed);
  fit = rw w.requests (
      All-update key_of_loan_request IsFit id (λ _. r') desk.requests w.row sound.fit
        (w.fit (All-find key_of_loan_request IsFit id desk.requests w.row sound.fit)));
  kept = rw w.books sound.kept;
}

-- A fit row under a new identifier.
added-IsSoundDesk :
    (desk desk' : Desk) (r : LoanRequest)
    → find key_of_loan_request r.id desk.requests ≡ none
    → IsFit r
    → desk'.requests ≡ desk.requests ++ r ∷ []
    → desk'.books ≡ desk.books
    → IsSoundDesk desk
    → IsSoundDesk desk'
added-IsSoundDesk desk desk' r fresh fit rows books sound = record {
  keyed = rw rows (IsKeyed-append_one key_of_loan_request desk.requests r fresh sound.keyed);
  fit = rw rows (All-append_one IsFit desk.requests r sound.fit fit);
  kept = rw books sound.kept;
}

pub insert_loan_request-IsSoundDesk :
    (desk : Desk) (member_id : Text) (req : LoanRequestInput) (new_id : Text) {desk' : Desk}
    → find key_of_loan_request new_id desk.requests ≡ none
    → insert_loan_request desk member_id req new_id ≡ ok desk'
    → IsSoundDesk desk
    → IsSoundDesk desk'
unfolding insert_loan_request
insert_loan_request-IsSoundDesk desk member_id req new_id {desk'} fresh h sound =
    elim (Result-cases (validate_loan_request_input req)) [
      | inr (x, bad) ↦ absurd (ground arith)
      | inl (amount, ea) ↦ elim (Result-cases (check_borrower desk member_id true)) [
        | inr (x, bad) ↦ absurd (ground arith)
        | inl (member, em) ↦
            let r = new_loan_request member_id req none (codes "member") [] [] new_id in
            added-IsSoundDesk desk desk' r fresh
              (record { backed = tt; standing = (inl refl, refl) }) (ground arith) (ground arith)
              sound
      ]
    ]

pub insert_admin_loan_request-IsSoundDesk :
    (desk : Desk) (actor : User) (member_id : Text) (req : LoanRequestInput) (fee : Option ℤ)
    (batch_id new_id : Text) {desk' : Desk}
    → find key_of_loan_request new_id desk.requests ≡ none
    → insert_admin_loan_request desk actor member_id req fee batch_id new_id ≡ ok desk'
    → IsSoundDesk desk
    → IsSoundDesk desk'
unfolding insert_admin_loan_request
insert_admin_loan_request-IsSoundDesk desk actor member_id req fee batch_id new_id {desk'} fresh h
      sound =
    elim (Option-cases (find key_of_borrower member_id desk.members)) [
      | inl missing ↦ absurd (ground arith)
      | inr (member, em) ↦
          let r = new_loan_request member_id req fee (codes "admin") actor.id batch_id new_id in
          added-IsSoundDesk desk desk' r fresh (record { backed = tt; standing = (inl refl, refl) })
            (ground arith) (ground arith) sound
    ]

pub Disburses-IsSoundDesk :
    (desk desk' : Desk) (id loan_id journal_id : Text) (r : LoanRequest)
    → Disburses desk desk' id loan_id journal_id r
    → IsUnused desk.books loan_id
    → IsSoundDesk desk
    → IsSoundDesk desk'
Disburses-IsSoundDesk desk desk' id loan_id journal_id r w unused sound =
    let change = disburse_loan w.details (is_settling r) w.total in
    record {
      keyed =
          rw w.requests
            (IsKeyed-update key_of_loan_request id change desk.requests (λ q _. refl) sound.keyed);
      fit = rw w.requests (
          All-update key_of_loan_request IsFit id change desk.requests w.row sound.fit (
            disburse_loan-IsFit w.details (is_settling r) w.total r w.disbursable.status
              (All-find key_of_loan_request IsFit id desk.requests w.row sound.fit)));
      kept =
          disburse_books-IsKept desk.books (new_loan r w.terms w.details.date loan_id) journal_id
            w.description w.by _ w.paid unused
            (new_loan-IsCurrent r w.terms w.details.date loan_id w.disbursable) sound.kept;
    }
