-- ===== src/LoanRequests/Invariant.antt =====
-- When a row of `loan_requests` agrees with itself: its status with its stage, its reviewer, its
-- proposed terms and its disbursement.
use kopdes.Base.{◌≡◌, refl, ◌⊎◌, inr, Bool, true, false, Option, none, some, arith, ℕ}
use kopdes.Base.Text.{Text}
use kopdes.Approval.{
  Stage, manager_stage, ketua_i_stage, ketua_ii_stage, ketua_utama_stage,
  next_loan_approval_stage_for_amount, next_loan_approval_stage,
}
use kopdes.Approval.Requests.{
  RequestStatus, pending, approved, rejected, cancelled, is_some, is_pending, is_pending→eq,
}
use kopdes.LoanRequests.Types.{LoanRequest, Proposal, LoanDisbursement}
use kopdes.LoanRequests.Requests.{cancel_loan, cancel_loan_by}
use kopdes.LoanRequests.Decisions.{reject_loan, approve_loan, advance_loan}
use kopdes.LoanRequests.Disbursement.{disburse_loan}
use kopdes.LoanRequests.Backed.{IsBacked}

-- Proposed terms pass the checks of the code.
abbrev pub AllBacked : Option Proposal → Type 0
AllBacked none = Unit
AllBacked (some p) = IsBacked p

-- A stage after the manager's.
abbrev pub is_late : Stage → Bool
is_late ketua_i_stage = true
is_late ketua_ii_stage = true
is_late ketua_utama_stage = true
is_late _ = false

-- At the manager's stage, or with terms at a later one.
abbrev pub IsWaiting : LoanRequest → Type 0
IsWaiting r =
    (r.stage ≡ some manager_stage)
    ⊎ ((s : Stage) × (r.stage ≡ some s) × (is_late s ≡ true) × (is_some r.proposal ≡ true))

-- A pending request waits for the manager, or has terms and waits at a later stage; an approved one
-- has a reviewer and terms; only an approved one is disbursed.
abbrev pub Standing : RequestStatus → LoanRequest → Type 0
Standing pending r = IsWaiting r × (is_some r.disbursement ≡ false)
Standing approved r =
    (is_some r.stage ≡ false) × (is_some r.reviewed_by ≡ true) × (is_some r.proposal ≡ true)
Standing rejected r = (is_some r.stage ≡ false) × (is_some r.disbursement ≡ false)
Standing cancelled r = (is_some r.stage ≡ false) × (is_some r.disbursement ≡ false)

pub record IsFit (r : LoanRequest) : Type 0 where
  pub backed : AllBacked r.proposal
  pub standing : Standing r.status r

pub is_late-next :
    (stage : Stage) (amount : ℕ) {next : Stage}
    → next_loan_approval_stage_for_amount stage amount ≡ some next
    → is_late next ≡ true
unfolding next_loan_approval_stage_for_amount next_loan_approval_stage
is_late-next stage amount {next} h = ground arith

-- The row as it is while it is pending.
pub was_pending : (r : LoanRequest) → is_pending r.status ≡ true → IsFit r → Standing pending r
was_pending r e h = rw (is_pending→eq r.status e) at h.standing

pub cancel_loan-IsFit :
    (r : LoanRequest) → is_pending r.status ≡ true → IsFit r → IsFit (cancel_loan r)
cancel_loan-IsFit r e h = record { backed = h.backed; standing = (refl, (was_pending r e h).1) }

pub cancel_loan_by-IsFit :
    (reason by : Text) (r : LoanRequest)
    → is_pending r.status ≡ true
    → IsFit r
    → IsFit (cancel_loan_by reason by r)
cancel_loan_by-IsFit reason by r e h = record {
  backed = h.backed;
  standing = (refl, (was_pending r e h).1);
}

pub reject_loan-IsFit :
    (by reason : Text) (r : LoanRequest)
    → is_pending r.status ≡ true
    → IsFit r
    → IsFit (reject_loan by reason r)
reject_loan-IsFit by reason r e h = record {
  backed = h.backed;
  standing = (refl, (was_pending r e h).1);
}

-- A row with terms, moved on.
pub advance_loan-IsFit :
    (next : Stage) (r : LoanRequest)
    → is_late next ≡ true
    → is_pending r.status ≡ true
    → is_some r.proposal ≡ true
    → IsFit r
    → IsFit (advance_loan next r)
advance_loan-IsFit next r late e some_terms h = record {
  backed = h.backed;
  standing =
      rw (is_pending→eq r.status e) (inr (next, refl, late, some_terms), (was_pending r e h).1);
}

pub approve_loan-IsFit :
    (by : Text) (r : LoanRequest)
    → is_some r.proposal ≡ true
    → AllBacked r.proposal
    → IsFit (approve_loan by r)
approve_loan-IsFit by r some_terms b = record { backed = b; standing = (refl, refl, some_terms) }

pub disburse_loan-IsFit :
    (d : LoanDisbursement) (settle : Bool) (total : ℕ) (r : LoanRequest)
    → r.status ≡ approved
    → IsFit r
    → IsFit (disburse_loan d settle total r)
disburse_loan-IsFit d settle total r e h = record {
  backed = h.backed;
  standing = let before = h.standing in let now = rw e at before in rw e now;
}
