-- ===== src/Withdrawals/Sound.antt =====
-- When the tables agree with one another, operation by operation (internal/app/withdrawals.go).
use kopdes.Base.{
  All-append_one, ℕ, ◌+◌, ◌≤◌, ◌<◌, ◌≡◌, refl, sym, true, false, if◌then◌else◌, none, some, List,
  [], ◌∷◌, ◌++◌, keep, sum_of, sum_of-append, arith, inl, inr, ok, ℤ, Bool-cases,
}
use kopdes.Base.Text.{Text, text_eq, text_eq→eq, trim_space}
use kopdes.Base.Table.{
  find, update, IsKeyed, IsKeyed-update, IsKeyed-append_one, All-update, All-find, sum_of-update,
  sum_of-keep,
}
use kopdes.Accounting.Balance.{AllBalanced, create_financial_journal-AllBalanced}
use kopdes.Savings.{
  SavingRecord, withdrawal, of_category, max_withdrawal_amount_for_sukarela_balance, saving_summary,
  sukarela,
}
use kopdes.Approval.Requests.{User, is_pending}
use kopdes.Withdrawals.Types.{
  Db, Request, Member, is_held, key_of_request, held_for, reserved, active,
}
use kopdes.Withdrawals.Requests.{
  insert_withdrawal_request, update_officer_withdrawal_request, amend, new_request, other_than,
}
use kopdes.Withdrawals.Decisions.{approve_withdrawal_request}
use kopdes.Withdrawals.Disbursement.{disburse_withdrawal_request, withdrawal_journal}
use kopdes.Withdrawals.Invariant.{
  IsConsistent, was_pending, AllConsistent, advance-IsConsistent, approve-IsConsistent,
  amend-IsConsistent, disburse-IsConsistent,
}
use kopdes.Withdrawals.Effects.{
  Rewrites, moved, completed, approve_withdrawal_request-Approves, amend-Rewrites,
  insert_withdrawal_request-Inserts,
}
use kopdes.Withdrawals.Payout.{disburse_withdrawal_request-Disburses}
use kopdes.Withdrawals.Cover.{
  IsCovered, limit_of, limit_of-append, Rewrites-IsCovered, Rewrites-IsCovered_less,
}

-- The tables agree: each request is consistent with its reservation, request identifiers are unique,
-- what is held fits the members' limits, and every journal balances.
pub record IsSound (db : Db) : Type 0 where
  pub consistent : AllConsistent db
  pub keyed : IsKeyed key_of_request db.requests
  pub covered : IsCovered db
  pub balanced : AllBalanced db.ledger

module _ (db db' : Db) (id : Text) (f : Request → Request) (r : Request) where
  -- A row rewritten alone.
  Rewrites-IsSound :
      Rewrites db db' id f r
      → ((q : Request) → (f q).id ≡ q.id)
      → (IsConsistent r → IsConsistent (f r))
      → IsCovered db'
      → IsSound db
      → IsSound db'
  Rewrites-IsSound w same keeps covers sound = record {
    consistent = rw w.requests (
        All-update key_of_request IsConsistent id f db.requests w.row sound.consistent
          (keeps (All-find key_of_request IsConsistent id db.requests w.row sound.consistent)));
    keyed =
        rw w.requests (IsKeyed-update key_of_request id f db.requests (λ q _. same q) sound.keyed);
    covered = covers;
    balanced = rw w.ledger sound.balanced;
  }

  -- A row rewritten to hold no more than before.
  pub Rewrites-IsSound_less :
      Rewrites db db' id f r
      → ((q : Request) → (f q).id ≡ q.id)
      → (IsConsistent r → IsConsistent (f r))
      → ((m : Text) → held_for m (f r) ≤ held_for m r)
      → IsSound db
      → IsSound db'
  Rewrites-IsSound_less w same keeps less sound =
      Rewrites-IsSound w same keeps (Rewrites-IsCovered_less db db' id f r w less sound.covered)
        sound

pub approve_withdrawal_request-IsSound :
    (db : Db) (id : Text) (officer : User) (coa cash : Text) {db' : Db}
    → approve_withdrawal_request db id officer coa cash ≡ ok db'
    → IsSound db
    → IsSound db'
approve_withdrawal_request-IsSound db id officer coa cash {db'} h sound =
    let (r, approves, p, _) =
      approve_withdrawal_request-Approves db id officer coa cash {db' = db'} h in
    elim approves [
      | moved next n w ↦
          Rewrites-IsSound_less db db' id _ r w (λ q. refl)
            (advance-IsConsistent _ next (trim_space cash) (trim_space coa) r n p)
            (λ m. omega arith) sound
      | completed _ w _ _ ↦
          Rewrites-IsSound_less db db' id _ r w (λ q. refl) (approve-IsConsistent officer.id r p)
            (λ m. omega arith) sound
    ]

-- Of one request: the amount it amends to fits beside the others.
amend-fits :
    (db : Db) (id note : Text) (n : ℕ) (r : Request) (m : Text)
    → 0 < n
    → IsCovered db
    → find key_of_request id db.requests ≡ some r
    → IsKeyed key_of_request db.requests
    → is_pending r.status ≡ true
    → IsConsistent r
    → reserved r.member_id (keep (other_than id) db.requests) + n
      ≤ max_withdrawal_amount_for_sukarela_balance
          (saving_summary r.member_id db.savings).sukarela_balance
    → sum_of (held_for m) (keep (other_than id) db.requests) + held_for m (amend n note r)
      ≤ limit_of m db.savings
amend-fits db id note n r m z covered row keyed p c fits =
    elim (Bool-cases (text_eq r.member_id m)) [
      | inl mine ↦
          let same : r.member_id ≡ m = text_eq→eq r.member_id m mine in
          let pend = was_pending r p c in rw (mine, pend.1, sym same) fits
      | inr other ↦ rw other (
          omega
            (arith, covered m, sum_of-keep key_of_request (held_for m) id db.requests row keyed))
    ]

pub update_officer_withdrawal_request-IsSound :
    (db : Db) (id : Text) (amount : ℤ) (note : Text) {db' : Db}
    → update_officer_withdrawal_request db id amount note ≡ ok db'
    → IsSound db
    → IsSound db'
update_officer_withdrawal_request-IsSound db id amount note {db'} h sound =
    let (r, n, w, p, z, fits) = amend-Rewrites db id amount note {db' = db'} h in
    let c = All-find key_of_request IsConsistent id db.requests w.row sound.consistent in
    Rewrites-IsSound db db' id _ r w (λ q. refl) (amend-IsConsistent n (trim_space note) r z p)
      (Rewrites-IsCovered db db' id _ r w sound.keyed
        (λ m. amend-fits db id (trim_space note) n r m z sound.covered w.row sound.keyed p c fits))
      sound

insert-covers :
    (rows : List Request) (savings : List SavingRecord) (q : Request) (m : Text)
    → 0 < q.amount
    → q.reservation ≡ record { amount = q.amount; status = active }
    → reserved m rows ≤ limit_of m savings
    → reserved q.member_id rows + q.amount
      ≤ max_withdrawal_amount_for_sukarela_balance
          (saving_summary q.member_id savings).sukarela_balance
    → reserved m (rows ++ q ∷ []) ≤ limit_of m savings
insert-covers rows savings q m z v covered fits = elim (Bool-cases (text_eq q.member_id m)) [
  | inl mine ↦
      let same : q.member_id ≡ m = text_eq→eq q.member_id m mine in
      rw (sum_of-append (held_for m) rows (q ∷ []), v, mine) (omega (arith, rw same at fits))
  | inr other ↦ rw (sum_of-append (held_for m) rows (q ∷ []), other) (omega arith)
]

pub insert_withdrawal_request-IsSound :
    (db : Db) (member : Member) (amount : ℤ) (note source id : Text) {db' : Db}
    → find key_of_request id db.requests ≡ none
    → insert_withdrawal_request db member amount note source id ≡ ok db'
    → IsSound db
    → IsSound db'
insert_withdrawal_request-IsSound db member amount note source id {db'} fresh h sound =
    let (n, i) = insert_withdrawal_request-Inserts db member amount note source id {db' = db'} h in
    let q = new_request member.id n (trim_space note) source id in
    record {
      consistent = rw i.requests (
          All-append_one IsConsistent db.requests q sound.consistent
            (i.is_positive, (inl refl, refl, refl, refl)));
      keyed = rw i.requests (IsKeyed-append_one key_of_request db.requests q fresh sound.keyed);
      covered = λ m.
          rw (i.requests, i.savings)
            (insert-covers db.requests db.savings q m i.is_positive refl (sound.covered m) i.fits);
      balanced = rw i.ledger sound.balanced;
    }

-- What a payment takes from the reservations it takes from the limit at most.
disburse-covers :
    (db : Db) (id : Text) (f : Request → Request) (r : Request) (v : SavingRecord) (m : Text)
    → find key_of_request id db.requests ≡ some r
    → v.saving_type ≡ withdrawal
    → v.member_id ≡ r.member_id
    → v.amount ≡ r.reservation.amount
    → is_held r.reservation.status ≡ true
    → is_held (f r).reservation.status ≡ false
    → reserved m db.requests ≤ limit_of m db.savings
    → reserved m (update key_of_request id f db.requests) ≤ limit_of m (db.savings ++ v ∷ [])
disburse-covers db id f r v m row w own same held gone covered =
    let more = limit_of-append m db.savings v w in
    let less = sum_of-update key_of_request (held_for m) id f db.requests row in
    let sides : (if of_category m sukarela v then v.amount else 0) ≤ held_for m r =
      rw (own, same, held) (ground arith) in
    let nothing : held_for m (f r) ≡ 0 = ground arith in omega (arith, more, less, sides, nothing)

pub disburse_withdrawal_request-IsSound :
    (db : Db) (id : Text) (officer : User) (date description record_id journal_id : Text) {db' : Db}
    → disburse_withdrawal_request db id officer date description record_id journal_id ≡ ok db'
    → IsSound db
    → IsSound db'
disburse_withdrawal_request-IsSound db id officer date description record_id journal_id {db'} h
      sound =
    let (r, d) =
      disburse_withdrawal_request-Disburses db id officer date description record_id journal_id
        {db' = db'} h in
    let c = All-find key_of_request IsConsistent id db.requests d.row sound.consistent in
    record {
      consistent = rw d.requests (
          All-update key_of_request IsConsistent id _ db.requests d.row sound.consistent
            (disburse-IsConsistent (trim_space date) officer.id record_id r d.ready c));
      keyed =
          rw d.requests (IsKeyed-update key_of_request id _ db.requests (λ q _. refl) sound.keyed);
      covered = λ m.
          rw (d.requests, d.debited)
            (disburse-covers db id _ r _ m d.row refl refl (sym d.exact) d.held refl
              (sound.covered m));
      balanced =
          create_financial_journal-AllBalanced db.ledger
            (withdrawal_journal r record_id (trim_space date) description officer.id) journal_id
            d.posted sound.balanced;
    }
