-- ===== src/Withdrawals/Invariant.antt =====
-- When a request agrees with its reservation (internal/app/withdrawals.go).
use kopdes.Base.{ℕ, ◌<◌, ◌≡◌, refl, true, Option, none, some, All, arith, ◌⊎◌, inl, inr}
use kopdes.Base.Text.{Text}
use kopdes.Approval.{
  Stage, manager_stage, ketua_i_stage, ketua_ii_stage, next_withdrawal_approval_stage,
}
use kopdes.Approval.Requests.{
  RequestStatus, pending, approved, rejected, cancelled, is_pending, is_pending→eq, is_approved,
  is_some,
}
use kopdes.Withdrawals.Types.{Db, Request, active, released, consumed}
use kopdes.Withdrawals.Requests.{amend, cancel}
use kopdes.Withdrawals.Decisions.{advance, approve, reject}
use kopdes.Withdrawals.Disbursement.{disburse}
use kopdes.Withdrawals.Overrides.{propose}

-- A stage of the withdrawals' chain.
abbrev pub IsOnChain : Option Stage → Type 0
IsOnChain s = (s ≡ some manager_stage) ⊎ (s ≡ some ketua_ii_stage) ⊎ (s ≡ some ketua_i_stage)

-- The money is held until it is paid out, and not longer.
abbrev pub IsHeldOrPaid : Request → Type 0
IsHeldOrPaid r =
    ((r.reservation.status ≡ active) × (r.disbursement ≡ none))
    ⊎ ((r.reservation.status ≡ consumed) × (is_some r.disbursement ≡ true))

abbrev pub IsConsistentAt : RequestStatus → Request → Type 0
IsConsistentAt pending r =
    IsOnChain r.stage
    × (r.reservation.status ≡ active)
    × (r.reservation.amount ≡ r.amount)
    × (r.disbursement ≡ none)
IsConsistentAt approved r =
    (r.stage ≡ none)
    × (is_some r.reviewed_by ≡ true)
    × (r.reservation.amount ≡ r.amount)
    × IsHeldOrPaid r
IsConsistentAt rejected r =
    (r.stage ≡ none) × (r.reservation.status ≡ released) × (r.disbursement ≡ none)
IsConsistentAt cancelled r =
    (r.stage ≡ none) × (r.reservation.status ≡ released) × (r.disbursement ≡ none)

-- A pending request stands at a stage of the chain and holds its amount; an approved one holds it
-- until it is disbursed; a rejected or cancelled one holds nothing.
abbrev pub IsConsistent : Request → Type 0
IsConsistent r = (0 < r.amount) × IsConsistentAt r.status r

pub was_pending :
    (r : Request) → is_pending r.status ≡ true → IsConsistent r → IsConsistentAt pending r
was_pending r p c = rw (is_pending→eq r.status p) at c.1

pub advance-IsConsistent :
    (stage next : Stage) (cash savings : Text) (r : Request)
    → next_withdrawal_approval_stage stage ≡ some next
    → is_pending r.status ≡ true
    → IsConsistent r
    → IsConsistent (advance stage next cash savings r)
unfolding next_withdrawal_approval_stage
advance-IsConsistent stage next cash savings r n p c =
    let q = was_pending r p c in (c.0, rw (is_pending→eq r.status p) (ground arith, q.1, q.2, q.3))

pub approve-IsConsistent :
    (id : Text) (r : Request)
    → is_pending r.status ≡ true
    → IsConsistent r
    → IsConsistent (approve id r)
approve-IsConsistent id r p c =
    let q = was_pending r p c in (c.0, (refl, refl, q.2, inl (q.1, q.3)))

pub approve-propose-IsConsistent :
    (id cash savings : Text) (r : Request)
    → is_pending r.status ≡ true
    → IsConsistent r
    → IsConsistent (approve id (propose cash savings r))
approve-propose-IsConsistent id cash savings r p c =
    let q = was_pending r p c in (c.0, (refl, refl, q.2, inl (q.1, q.3)))

pub reject-IsConsistent :
    (id reason : Text) (r : Request)
    → is_pending r.status ≡ true
    → IsConsistent r
    → IsConsistent (reject id reason r)
reject-IsConsistent id reason r p c = let q = was_pending r p c in (c.0, (refl, rw q.1, q.3))

pub cancel-IsConsistent :
    (r : Request) → is_pending r.status ≡ true → IsConsistent r → IsConsistent (cancel r)
cancel-IsConsistent r p c = let q = was_pending r p c in (c.0, (refl, rw q.1, q.3))

pub amend-IsConsistent :
    (amount : ℕ) (note : Text) (r : Request)
    → 0 < amount
    → is_pending r.status ≡ true
    → IsConsistent r
    → IsConsistent (amend amount note r)
amend-IsConsistent amount note r a p c =
    let q = was_pending r p c in (a, rw (is_pending→eq r.status p) (q.0, rw q.1, rw q.1, q.3))

is_approved→eq : (s : RequestStatus) → is_approved s ≡ true → s ≡ approved
is_approved→eq approved h = refl
is_approved→eq _ h = cc

pub disburse-IsConsistent :
    (date id record_id : Text) (r : Request)
    → is_approved r.status ≡ true
    → IsConsistent r
    → IsConsistent (disburse date id record_id r)
disburse-IsConsistent date id record_id r p c =
    let e : r.status ≡ approved = is_approved→eq r.status p in
    let q : IsConsistentAt approved r = rw e at c.1 in (c.0, rw e (q.0, q.1, q.2, inr (refl, refl)))

abbrev pub AllConsistent : Db → Type 0
AllConsistent db = All IsConsistent db.requests
