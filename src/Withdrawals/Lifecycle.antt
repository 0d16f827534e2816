-- ===== src/Withdrawals/Lifecycle.antt =====
-- Sequences of the operations of internal/app/withdrawals.go and
-- internal/app/super_admin_overrides.go.
use kopdes.Base.{◌≡◌, refl, none, arith, ok, ℤ}
use kopdes.Base.Text.{Text, trim_space}
use kopdes.Base.Table.{find}
use kopdes.Approval.Requests.{User}
use kopdes.Withdrawals.Types.{Db, Member, key_of_request}
use kopdes.Withdrawals.Requests.{
  insert_withdrawal_request, update_officer_withdrawal_request, cancel_withdrawal_request,
}
use kopdes.Withdrawals.Decisions.{approve_withdrawal_request, reject_withdrawal_request}
use kopdes.Withdrawals.Disbursement.{disburse_withdrawal_request}
use kopdes.Withdrawals.Overrides.{approve_by_super_admin, reject_by_super_admin}
use kopdes.Withdrawals.Invariant.{
  approve-propose-IsConsistent, reject-IsConsistent, cancel-IsConsistent,
}
use kopdes.Withdrawals.Effects.{
  cancel-Rewrites, reject-Rewrites, reject_by_super_admin-Rewrites, approve_by_super_admin-Rewrites,
}
use kopdes.Withdrawals.Sound.{
  IsSound, Rewrites-IsSound_less, approve_withdrawal_request-IsSound,
  update_officer_withdrawal_request-IsSound, insert_withdrawal_request-IsSound,
  disburse_withdrawal_request-IsSound,
}

-- One successful operation on the tables. A new request has an identifier that is not in use.
pub data Step (db db' : Db) : Type 0 where
  inserted :
      (member : Member) (amount : ℤ) (note creation_source id : Text)
      → find key_of_request id db.requests ≡ none
      → insert_withdrawal_request db member amount note creation_source id ≡ ok db'
      → Step db db'
  amended :
      (id : Text) (amount : ℤ) (note : Text)
      → update_officer_withdrawal_request db id amount note ≡ ok db'
      → Step db db'
  was_cancelled :
      (id member_id : Text) → cancel_withdrawal_request db id member_id ≡ ok db' → Step db db'
  was_approved :
      (id : Text) (officer : User) (coa cash : Text)
      → approve_withdrawal_request db id officer coa cash ≡ ok db'
      → Step db db'
  was_rejected :
      (id : Text) (officer : User) (reason : Text)
      → reject_withdrawal_request db id officer reason ≡ ok db'
      → Step db db'
  was_disbursed :
      (id : Text) (officer : User) (date description record_id journal_id : Text)
      → disburse_withdrawal_request db id officer date description record_id journal_id ≡ ok db'
      → Step db db'
  was_forced :
      (id : Text) (actor : User) (coa cash : Text)
      → approve_by_super_admin db id actor coa cash ≡ ok db'
      → Step db db'
  was_refused :
      (id : Text) (actor : User) (reason : Text)
      → reject_by_super_admin db id actor reason ≡ ok db'
      → Step db db'

pub data Steps (db : Db) : Db → Type 0 where
  none_yet : Steps db db
  and_then : {db' db'' : Db} → Steps db db' → Step db' db'' → Steps db db''

Step-IsSound : (db db' : Db) → Step db db' → IsSound db → IsSound db'
Step-IsSound db db' (inserted member amount note source id fresh h) sound =
    insert_withdrawal_request-IsSound db member amount note source id fresh h sound
Step-IsSound db db' (amended id amount note h) sound =
    update_officer_withdrawal_request-IsSound db id amount note h sound
Step-IsSound db db' (was_cancelled id member_id h) sound =
    let (r, w, p) = cancel-Rewrites db id member_id {db' = db'} h in
    Rewrites-IsSound_less db db' id _ r w (λ q. refl) (cancel-IsConsistent r p) (λ m. ground arith)
      sound
Step-IsSound db db' (was_approved id officer coa cash h) sound =
    approve_withdrawal_request-IsSound db id officer coa cash h sound
Step-IsSound db db' (was_rejected id officer reason h) sound =
    let (r, w, p) = reject-Rewrites db id officer reason {db' = db'} h in
    Rewrites-IsSound_less db db' id _ r w (λ q. refl)
      (reject-IsConsistent officer.id (trim_space reason) r p) (λ m. ground arith) sound
Step-IsSound db db' (was_disbursed id officer date description record_id journal_id h) sound =
    disburse_withdrawal_request-IsSound db id officer date description record_id journal_id h sound
Step-IsSound db db' (was_forced id actor coa cash h) sound =
    let (r, w, p, _) = approve_by_super_admin-Rewrites db id actor coa cash {db' = db'} h in
    Rewrites-IsSound_less db db' id _ r w (λ q. refl)
      (approve-propose-IsConsistent actor.id (trim_space cash) (trim_space coa) r p)
      (λ m. omega arith) sound
Step-IsSound db db' (was_refused id actor reason h) sound =
    let (r, w, p) = reject_by_super_admin-Rewrites db id actor reason {db' = db'} h in
    Rewrites-IsSound_less db db' id _ r w (λ q. refl)
      (reject-IsConsistent actor.id (trim_space reason) r p) (λ m. ground arith) sound

-- From sound tables, any sequence of the eight operations, each successful and each new request
-- under a new identifier, leads to sound tables: every request agrees with its reservation, the
-- active reservations of each member stay within the member's limit, and the ledger balances.
pub Steps-IsSound : (db db' : Db) → Steps db db' → IsSound db → IsSound db'
Steps-IsSound db _ none_yet sound = sound
Steps-IsSound db db' (and_then steps step) sound =
    Step-IsSound _ _ step (Steps-IsSound db _ steps sound)
