-- ===== src/Withdrawals/Effects.antt =====
-- The effect of the operations of internal/app/withdrawals.go and
-- internal/app/super_admin_overrides.go on the tables.
use kopdes.Base.{
  zero, ℕ, suc, ◌+◌, ◌<◌, ◌≤◌, ◌≡◌, refl, true, false, ℤ, pos, negsuc, Option, none, some, [], ◌∷◌,
  ◌++◌, keep, ok, arith, inl, inr, Option-cases,
}
use kopdes.Base.Text.{Text, trim_space}
use kopdes.Base.Table.{find, update}
use kopdes.Approval.{
  Stage, ketua_i_stage, next_withdrawal_approval_stage, approval_stage_for_officer, at_stage,
}
use kopdes.Savings.{saving_summary, max_withdrawal_amount_for_sukarela_balance}
use kopdes.Savings.Limits.{available-fits}
use kopdes.Approval.Requests.{User, is_pending}
use kopdes.Withdrawals.Types.{
  Db, Request, Member, WithdrawalError, withdrawal_request_not_pending, key_of_request,
  key_of_member, reserved, is_held,
}
use kopdes.Withdrawals.Requests.{
  insert_withdrawal_request, update_officer_withdrawal_request, cancel_withdrawal_request, amend,
  cancel, new_request, other_than,
}
use kopdes.Withdrawals.Decisions.{
  approve_withdrawal_request, reject_withdrawal_request, after_approval, check_funds, advance,
  approve, reject, decided,
}
use kopdes.Withdrawals.Overrides.{approve_by_super_admin, reject_by_super_admin, propose}

-- One request is rewritten by `f`; savings and ledger stay.
pub record Rewrites (db db' : Db) (id : Text) (f : Request → Request) (r : Request) : Type 0 where
  pub row : find key_of_request id db.requests ≡ some r
  pub requests : db'.requests ≡ update key_of_request id f db.requests
  pub savings : db'.savings ≡ db.savings
  pub ledger : db'.ledger ≡ db.ledger

-- The limit that `check_funds` tests.
abbrev pub IsWithinLimit : Db → Request → Type 0
IsWithinLimit db r =
    r.amount
    ≤ max_withdrawal_amount_for_sukarela_balance
        (saving_summary r.member_id db.savings).sukarela_balance

pub check_funds-IsWithinLimit :
    (db : Db) (r : Request) (e : WithdrawalError) → check_funds db r e ≡ ok tt → IsWithinLimit db r
unfolding check_funds
check_funds-IsWithinLimit db r e h =
    elim (Option-cases (find key_of_member r.member_id db.members)) [
      | inl missing ↦ absurd (ground arith)
      | inr (m, f) ↦ ground arith
    ]

pub check_funds-held :
    (db : Db) (r : Request) (e : WithdrawalError)
    → check_funds db r e ≡ ok tt
    → (is_held r.reservation.status ≡ true) × (r.reservation.amount ≡ r.amount)
unfolding check_funds
check_funds-held db r e h = elim (Option-cases (find key_of_member r.member_id db.members)) [
  | inl missing ↦ absurd (ground arith)
  | inr (m, f) ↦ (ground arith, ground arith)
]

pub cancel-Rewrites :
    (db : Db) (id m : Text) {db' : Db}
    → cancel_withdrawal_request db id m ≡ ok db'
    → (r : Request) × Rewrites db db' id cancel r × (is_pending r.status ≡ true)
unfolding cancel_withdrawal_request
cancel-Rewrites db id m {db'} h = elim (Option-cases (find key_of_request id db.requests)) [
  | inl missing ↦ absurd (ground arith)
  | inr (r, e) ↦ (
    r,
    record { row = e; requests = ground arith; savings = ground arith; ledger = ground arith },
    ground arith,
  )
]

pub reject-Rewrites :
    (db : Db) (id : Text) (officer : User) (reason : Text) {db' : Db}
    → reject_withdrawal_request db id officer reason ≡ ok db'
    → (r : Request) × Rewrites db db' id (reject officer.id (trim_space reason)) r
      × (is_pending r.status ≡ true)
unfolding reject_withdrawal_request
reject-Rewrites db id officer reason {db'} h =
    elim (Option-cases (find key_of_request id db.requests)) [
      | inl missing ↦ absurd (ground arith)
      | inr (r, e) ↦ (
        r,
        record { row = e; requests = ground arith; savings = ground arith; ledger = ground arith },
        ground arith,
      )
    ]

pub reject_by_super_admin-Rewrites :
    (db : Db) (id : Text) (actor : User) (reason : Text) {db' : Db}
    → reject_by_super_admin db id actor reason ≡ ok db'
    → (r : Request) × Rewrites db db' id (reject actor.id (trim_space reason)) r
      × (is_pending r.status ≡ true)
unfolding reject_by_super_admin
reject_by_super_admin-Rewrites db id actor reason {db'} h =
    elim (Option-cases (find key_of_request id db.requests)) [
      | inl missing ↦ absurd (ground arith)
      | inr (r, e) ↦ (
        r,
        record { row = e; requests = ground arith; savings = ground arith; ledger = ground arith },
        ground arith,
      )
    ]

pub approve_by_super_admin-Rewrites :
    (db : Db) (id : Text) (actor : User) (coa cash : Text) {db' : Db}
    → approve_by_super_admin db id actor coa cash ≡ ok db'
    → (r : Request) × Rewrites db db' id
        (λ (q : Request). approve actor.id (propose (trim_space cash) (trim_space coa) q))
        r
      × (is_pending r.status ≡ true)
      × IsWithinLimit db r
unfolding approve_by_super_admin
approve_by_super_admin-Rewrites db id actor coa cash {db'} h =
    elim (Option-cases (find key_of_request id db.requests)) [
      | inl missing ↦ absurd (ground arith)
      | inr (r, e) ↦ (
        r,
        record { row = e; requests = ground arith; savings = ground arith; ledger = ground arith },
        ground arith,
        check_funds-IsWithinLimit db r withdrawal_request_not_pending (ground arith),
      )
    ]

-- An approval moves the request to the next stage of the chain, or completes it at the last one,
-- within the limit.
pub data Approves (db db' : Db) (id : Text) (officer : User) (cash savings : Text) (r : Request)
    : Type 0 where
  moved :
      (next : Stage)
      → next_withdrawal_approval_stage (approval_stage_for_officer officer.role) ≡ some next
      → Rewrites db db' id (advance (approval_stage_for_officer officer.role) next cash savings) r
      → Approves db db' id officer cash savings r
  completed :
      at_stage r.stage ketua_i_stage ≡ true
      → Rewrites db db' id (approve officer.id) r
      → IsWithinLimit db r
      → (is_held r.reservation.status ≡ true) × (r.reservation.amount ≡ r.amount)
      → Approves db db' id officer cash savings r

after_approval-Approves :
    (db base : Db) (id : Text) (officer : User) (r : Request) (cash savings : Text)
    (next : Option Stage) {db' : Db}
    → find key_of_request id base.requests ≡ some r
    → db.requests ≡ base.requests
    → db.savings ≡ base.savings
    → db.ledger ≡ base.ledger
    → next_withdrawal_approval_stage (approval_stage_for_officer officer.role) ≡ next
    → after_approval db id r officer (approval_stage_for_officer officer.role) cash savings next
      ≡ ok db'
    → Approves base db' id officer cash savings r
unfolding after_approval
after_approval-Approves db base id officer r cash savings (some next) e q s l n h =
    moved next n
      (record { row = e; requests = ground arith; savings = ground arith; ledger = ground arith })
after_approval-Approves db base id officer r cash savings none e q s l n h =
    completed (ground arith)
      (record { row = e; requests = ground arith; savings = ground arith; ledger = ground arith })
      (rw s at (check_funds-IsWithinLimit db r withdrawal_request_not_pending (ground arith)))
      (check_funds-held db r withdrawal_request_not_pending (ground arith))

pub approve_withdrawal_request-Approves :
    (db : Db) (id : Text) (officer : User) (coa cash : Text) {db' : Db}
    → approve_withdrawal_request db id officer coa cash ≡ ok db'
    → (r : Request) × Approves db db' id officer (trim_space cash) (trim_space coa) r
      × (is_pending r.status ≡ true)
      × (at_stage r.stage (approval_stage_for_officer officer.role) ≡ true)
unfolding approve_withdrawal_request
approve_withdrawal_request-Approves db id officer coa cash {db'} h =
    elim (Option-cases (find key_of_request id db.requests)) [
      | inl missing ↦ absurd (ground arith)
      | inr (r, e) ↦ (
        r,
        after_approval-Approves (decided db id r.stage officer.id true false) db id officer r
            (trim_space cash) (trim_space coa) _ e refl refl refl refl (ground arith),
        ground arith,
        ground arith,
      )
    ]

-- The amount fits what is available beside the other requests of the member.
pub amend-Rewrites :
    (db : Db) (id : Text) (amount : ℤ) (note : Text) {db' : Db}
    → update_officer_withdrawal_request db id amount note ≡ ok db'
    → (r : Request) × (n : ℕ) × Rewrites db db' id (amend n (trim_space note)) r
      × (is_pending r.status ≡ true)
      × (0 < n)
      × (reserved r.member_id (keep (other_than id) db.requests) + n
          ≤ max_withdrawal_amount_for_sukarela_balance
              (saving_summary r.member_id db.savings).sukarela_balance)
unfolding update_officer_withdrawal_request
amend-Rewrites db id (pos (suc n)) note {db'} h =
    elim (Option-cases (find key_of_request id db.requests)) [
      | inl missing ↦ absurd (ground arith)
      | inr (r, e) ↦ elim (Option-cases (find key_of_member r.member_id db.members)) [
        | inl lost ↦ absurd (ground arith)
        | inr (m, f) ↦ (
          r,
          suc n,
          record {
            row = e;
            requests = ground arith;
            savings = ground arith;
            ledger = ground arith;
          },
          ground arith,
          omega arith,
          available-fits (saving_summary r.member_id db.savings).sukarela_balance
              (reserved r.member_id (keep (other_than id) db.requests)) (suc n) (ground arith)
              (omega arith),
        )
      ]
    ]
amend-Rewrites db id (pos zero) note h = cc
amend-Rewrites db id (negsuc n) note h = cc

-- A new request is appended, and its amount fits what is available.
pub record Inserts (db db' : Db) (member : Member) (note source id : Text) (n : ℕ) : Type 0 where
  pub requests : db'.requests ≡ db.requests ++ new_request member.id n note source id ∷ []
  pub savings : db'.savings ≡ db.savings
  pub ledger : db'.ledger ≡ db.ledger
  pub is_positive : 0 < n
  pub fits :
      reserved member.id db.requests + n
      ≤ max_withdrawal_amount_for_sukarela_balance
          (saving_summary member.id db.savings).sukarela_balance

pub insert_withdrawal_request-Inserts :
    (db : Db) (member : Member) (amount : ℤ) (note source id : Text) {db' : Db}
    → insert_withdrawal_request db member amount note source id ≡ ok db'
    → (n : ℕ) × Inserts db db' member (trim_space note) source id n
unfolding insert_withdrawal_request
insert_withdrawal_request-Inserts db member (pos (suc n)) note source id {db'} h =
    elim (Option-cases (find key_of_member member.id db.members)) [
      | inl missing ↦ absurd (ground arith)
      | inr (locked, f) ↦ (
        suc n,
        record {
          requests = ground arith;
          savings = ground arith;
          ledger = ground arith;
          is_positive = omega arith;
          fits =
              available-fits (saving_summary member.id db.savings).sukarela_balance
                (reserved member.id db.requests) (suc n) (ground arith) (omega arith);
        },
      )
    ]
insert_withdrawal_request-Inserts db member (pos zero) note source id h = cc
insert_withdrawal_request-Inserts db member (negsuc n) note source id h = cc
