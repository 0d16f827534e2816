-- ===== src/LoanRequests/Lifecycle.antt =====
-- Sequences of the operations on loan requests, loans and repayments.
use kopdes.Base.{Option, ℤ, ◌≡◌, none, ok}
use kopdes.Base.Text.{Text}
use kopdes.Base.Table.{find}
use kopdes.Approval.Requests.{User}
use kopdes.Repayments.Types.{Books}
use kopdes.Repayments.Posting.{RepaymentInput, record_repayment}
use kopdes.Repayments.Kept.{record_repayment-IsKept}
use kopdes.Repayments.Opened.{IsUnused}
use kopdes.LoanRequests.Types.{Desk, key_of_loan_request}
use kopdes.LoanRequests.Requests.{
  LoanRequestInput, insert_loan_request, insert_admin_loan_request, cancel_loan_request,
  cancel_admin_loan_request,
}
use kopdes.LoanRequests.Decisions.{ApproveLoanInput, approve_loan_request, reject_loan_request}
use kopdes.LoanRequests.Disbursement.{disburse_loan_request}
use kopdes.LoanRequests.Overrides.{override_loan_request, reject_loan_by_super_admin}
use kopdes.LoanRequests.Approvals.{approve_loan_request-Moves, override_loan_request-Moves}
use kopdes.LoanRequests.Effects.{
  cancel_loan_request-Moves, cancel_admin_loan_request-Moves, reject_loan_request-Moves,
  reject_loan_by_super_admin-Moves,
}
use kopdes.LoanRequests.Disbursed.{disburse_loan_request-Disburses}
use kopdes.LoanRequests.Sound.{
  IsSoundDesk, Moves-IsSoundDesk, insert_loan_request-IsSoundDesk,
  insert_admin_loan_request-IsSoundDesk, Disburses-IsSoundDesk,
}

-- One successful operation on the tables. New requests and loans have identifiers not in use.
pub data Step (desk desk' : Desk) : Type 0 where
  asked :
      (member_id : Text) (req : LoanRequestInput) (id : Text)
      → find key_of_loan_request id desk.requests ≡ none
      → insert_loan_request desk member_id req id ≡ ok desk'
      → Step desk desk'
  was_created :
      (actor : User) (member_id : Text) (req : LoanRequestInput) (fee : Option ℤ)
      (batch_id id : Text)
      → find key_of_loan_request id desk.requests ≡ none
      → insert_admin_loan_request desk actor member_id req fee batch_id id ≡ ok desk'
      → Step desk desk'
  was_cancelled :
      (id member_id : Text) → cancel_loan_request desk id member_id ≡ ok desk' → Step desk desk'
  was_withdrawn :
      (id : Text) (actor : User) (reason : Text)
      → cancel_admin_loan_request desk id actor reason ≡ ok desk'
      → Step desk desk'
  was_approved :
      (id : Text) (officer : User) (req : ApproveLoanInput) (today : Text)
      → approve_loan_request desk id officer req today ≡ ok desk'
      → Step desk desk'
  was_rejected :
      (id : Text) (officer : User) (reason : Text)
      → reject_loan_request desk id officer reason ≡ ok desk'
      → Step desk desk'
  was_forced :
      (id : Text) (actor : User) (req : ApproveLoanInput) (today : Text)
      → override_loan_request desk id actor req today ≡ ok desk'
      → Step desk desk'
  was_refused :
      (id : Text) (actor : User) (reason : Text)
      → reject_loan_by_super_admin desk id actor reason ≡ ok desk'
      → Step desk desk'
  was_disbursed :
      (id : Text) (officer : User)
      (date description note payoff_description loan_id journal_id : Text)
      (fresh : Text → Text × Text)
      → IsUnused desk.books loan_id
      → disburse_loan_request desk id officer date description note payoff_description loan_id
          journal_id fresh
        ≡ ok desk'
      → Step desk desk'
  was_repaid :
      (books : Books) (loan_id admin_id : Text) (req : RepaymentInput)
      (audit_reason description new_id journal_id : Text)
      → record_repayment desk.books loan_id admin_id req audit_reason description new_id journal_id
        ≡ ok books
      → desk' ≡ record desk { books = books }
      → Step desk desk'

pub data Steps (desk : Desk) : Desk → Type 0 where
  none_yet : Steps desk desk
  and_then : {desk' desk'' : Desk} → Steps desk desk' → Step desk' desk'' → Steps desk desk''

Step-IsSoundDesk : (desk desk' : Desk) → Step desk desk' → IsSoundDesk desk → IsSoundDesk desk'
Step-IsSoundDesk desk desk' (asked member_id req id fresh h) sound =
    insert_loan_request-IsSoundDesk desk member_id req id fresh h sound
Step-IsSoundDesk desk desk' (was_created actor member_id req fee batch_id id fresh h) sound =
    insert_admin_loan_request-IsSoundDesk desk actor member_id req fee batch_id id fresh h sound
Step-IsSoundDesk desk desk' (was_cancelled id member_id h) sound =
    let (r, r', w) = cancel_loan_request-Moves desk id member_id {desk' = desk'} h in
    Moves-IsSoundDesk desk desk' id r r' w sound
Step-IsSoundDesk desk desk' (was_withdrawn id actor reason h) sound =
    let (r, r', w) = cancel_admin_loan_request-Moves desk id actor reason {desk' = desk'} h in
    Moves-IsSoundDesk desk desk' id r r' w sound
Step-IsSoundDesk desk desk' (was_approved id officer req today h) sound =
    let (r, r', w) = approve_loan_request-Moves desk id officer req today {desk' = desk'} h in
    Moves-IsSoundDesk desk desk' id r r' w sound
Step-IsSoundDesk desk desk' (was_rejected id officer reason h) sound =
    let (r, r', w) = reject_loan_request-Moves desk id officer reason {desk' = desk'} h in
    Moves-IsSoundDesk desk desk' id r r' w sound
Step-IsSoundDesk desk desk' (was_forced id actor req today h) sound =
    let (r, r', w) = override_loan_request-Moves desk id actor req today {desk' = desk'} h in
    Moves-IsSoundDesk desk desk' id r r' w sound
Step-IsSoundDesk desk desk' (was_refused id actor reason h) sound =
    let (r, r', w) = reject_loan_by_super_admin-Moves desk id actor reason {desk' = desk'} h in
    Moves-IsSoundDesk desk desk' id r r' w sound
Step-IsSoundDesk desk desk'
      (was_disbursed id officer date description note payoff loan_id journal_id fresh unused h)
      sound =
    let (r, w) =
      disburse_loan_request-Disburses desk id officer date description note payoff loan_id
        journal_id fresh {desk' = desk'} h in
    Disburses-IsSoundDesk desk desk' id loan_id journal_id r w unused sound
Step-IsSoundDesk desk desk'
      (was_repaid books loan_id admin_id req audit_reason description new_id journal_id h e) sound =
    rw e (record {
      keyed = sound.keyed;
      fit = sound.fit;
      kept =
          record_repayment-IsKept desk.books loan_id admin_id req audit_reason description new_id
            journal_id h sound.kept;
    })

-- Any sequence of successful operations on loan requests, disbursements and repayments keeps the
-- tables sound: request identifiers stay unique, every request's status agrees with its stage,
-- reviewer, proposed terms and disbursement, proposed terms pass the checks of the code, every loan
-- holds exactly its repayments, and every journal balances. New requests and loans take
-- identifiers that are not in use.
pub Steps-IsSoundDesk :
    {desk desk' : Desk} → Steps desk desk' → IsSoundDesk desk → IsSoundDesk desk'
Steps-IsSoundDesk none_yet sound = sound
Steps-IsSoundDesk {desk} (and_then {desk' = between} {desk'' = after} steps step) sound =
    Step-IsSoundDesk between after step (Steps-IsSoundDesk steps sound)
