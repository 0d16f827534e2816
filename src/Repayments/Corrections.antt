-- ===== src/Repayments/Corrections.antt =====
-- Correction and removal of a repayment by the super admin: `correctRepaymentByID`,
-- `removeRepaymentByID` and `syncRepaymentJournalTx` of internal/app/repayment_corrections.go. The
-- identifiers of new rows and today's day are arguments; an audit's own identifier is left out.
use kopdes.Base.{
  ℕ, ℤ, pos, ◌==◌, leb, not, Bool, true, false, ◌&&◌, ◌||◌, if◌then◌else◌, Option, none, some, List,
  [], ◌∷◌, ◌++◌, map, keep, all_of, Result, ok, err, ◌>>=◌, ◌>>◌, reject_if, found, positive,
}
use kopdes.Base.Text.{Text, codes, text_eq, text_ltb, is_empty, trim_space, byte_length}
use kopdes.Base.Table.{find, update}
use kopdes.Calendar.Text.{parse_loan_date}
use kopdes.Approval.Requests.{User, is_super_admin, is_some}
use kopdes.Accounting.Types.{
  Line, Entry, posted, pending_mapping, Ledger, JournalInput, JournalError,
  invalid_journal_reversal,
}
use kopdes.Accounting.Journal.{create_financial_journal}
use kopdes.Accounting.Reversal.{
  key_of_entry, TransactionAudit, is_live, last_of, belongs, has_entry, reverse_entry, set_amounts,
}
use kopdes.Repayments.Types.{
  Loan, LoanStatus, active, cancelled, Repayment, Books, RepaymentError, key_of_loan,
}
use kopdes.Repayments.Posting.{repayment_journal}
use kopdes.Repayments.Refresh.{refresh_schedule}

pub data CorrectionError : Type 0 where
  invalid_repayment_correction repayment_not_found : CorrectionError
  loan_not_active journal_already_reversed : CorrectionError
  refresh_failed : RepaymentError → CorrectionError
  journal_failed : JournalError → CorrectionError

abbrev pub Outcome : Type 0 → Type 0
Outcome A = Result CorrectionError A

-- `repaymentCorrectionInput`
pub record CorrectionInput : Type 0 where
  pub amount : ℤ
  pub record_date : Text
  pub reference_no : Text
  pub note : Text
  pub reason : Text

-- A row of `loan_repayment_audits`: an edit has the repayment after it, a removal has none.
pub record CorrectionAudit : Type 0 where
  pub before_state : Repayment
  pub after_state : Option Repayment
  pub reason : Text
  pub actor_id : Text

pub record CorrectionDesk : Type 0 where
  pub books : Books
  pub corrections : List CorrectionAudit
  pub transaction_audits : List TransactionAudit

-- What a call reads of the clock, and the identifiers it makes.
pub record Fresh : Type 0 where
  pub today : Text
  pub journal_id : Text
  pub reversal_id : Text

abbrev pub key_of_repayment : Repayment → Text
key_of_repayment r = r.id

-- `validRepaymentCorrectionReason` of a trimmed reason
abbrev pub is_valid_reason : Text → Bool
is_valid_reason reason = not (is_empty reason) && leb (byte_length reason) 500

-- `repaymentSnapshot(before) == repaymentSnapshot(after)`
abbrev pub same_snapshot : Repayment → Repayment → Bool
same_snapshot b a =
    (b.amount == a.amount)
    && (text_eq b.record_date a.record_date
        && (text_eq b.reference_no a.reference_no
            && (text_eq b.note a.note
                && (text_eq b.source a.source && text_eq b.coa_code a.coa_code))))

-- `loan.Status != "active" && … "paid" && … "adjustment_due"`
abbrev pub is_cancelled : LoanStatus → Bool
is_cancelled cancelled = true
is_cancelled _ = false

abbrev is_active : LoanStatus → Bool
is_active active = true
is_active _ = false

-- `SELECT COUNT(*) FROM loans WHERE member_id=$1 AND id<>$2 AND status='active'`, above zero
abbrev pub has_other_active : Text → Text → List Loan → Bool
has_other_active member_id loan_id [] = false
has_other_active member_id loan_id (l ∷ rest) =
    (text_eq l.member_id member_id && (not (text_eq l.id loan_id) && is_active l.status))
    || has_other_active member_id loan_id rest

-- `ORDER BY record_date,created_at,id`, of rows in the order of their creation.
abbrev pub insert_by_date : Repayment → List Repayment → List Repayment
insert_by_date r [] = r ∷ []
insert_by_date r (q ∷ rest) =
    let later = insert_by_date r rest in
    if text_ltb q.record_date r.record_date then q ∷ later else r ∷ q ∷ rest

abbrev pub by_date : List Repayment → List Repayment
by_date [] = []
by_date (r ∷ rest) = insert_by_date r (by_date rest)

-- The amounts of a loan's repayments as the recomputation reads them.
abbrev pub payments_of : Text → List Repayment → List ℤ
payments_of loan_id rs =
    map (λ (r : Repayment). pos r.amount)
      (by_date (keep (λ (r : Repayment). text_eq r.loan_id loan_id) rs))

abbrev pub refreshed {ℓ} : {A : Type ℓ} → Result RepaymentError A → Result CorrectionError A
refreshed (ok a) = ok a
refreshed (err e) = err (refresh_failed e)

abbrev pub journaled {ℓ} : {A : Type ℓ} → Result JournalError A → Result CorrectionError A
journaled (ok a) = ok a
journaled (err e) = err (journal_failed e)

-- The call of `refreshLoanRepaymentScheduleTx` on the tables.
unfoldable pub refresh_loan : Loan → Text → List Loan → List Repayment → Outcome (List Loan)
refresh_loan loan member_id loans repayments = do
  loan' ← refreshed (
      refresh_schedule loan (payments_of loan.id repayments)
        (has_other_active member_id loan.id loans))
  ok (update key_of_loan loan.id (λ _. loan') loans)

-- The journal of a repayment that has none.
abbrev pub late_journal : Repayment → Text → JournalInput
late_journal r loan_type = record (repayment_journal r loan_type [] (codes "Angsuran pinjaman")) {
  coa_overrides = (codes "loan_receivable", r.coa_code) ∷ [];
}

-- The entry that replaces a reversed one.
abbrev pub corrected_entry : Entry → Repayment → Text → Text → Entry
corrected_entry e r actor_id new_id = record e {
  id = new_id;
  reference_no = r.reference_no;
  transaction_id = r.id;
  transaction_date = r.record_date;
  source = r.source;
  amount = r.amount;
  status = posted;
  batch_id = [];
  description = if is_empty e.description then codes "Angsuran pinjaman" else e.description;
  recorded_by = actor_id;
  reversal_of = none;
  lines = set_amounts r.amount e.lines;
}

-- A pending entry takes over the new values.
abbrev pub amended_entry : Repayment → Entry → Entry
amended_entry r e = record e {
  reference_no = r.reference_no;
  transaction_date = r.record_date;
  source = r.source;
  amount = r.amount;
  lines = set_amounts r.amount e.lines;
}

abbrev pub audit_reversal : Entry → Text → Text → TransactionAudit
audit_reversal e actor_id reversal_id = record {
  transaction_id = e.id;
  transaction_type = codes "repayment";
  actor_id = actor_id;
  field_name = codes "reversed_by";
  old_value = [];
  new_value = reversal_id;
}

-- What follows the choice of an entry that is pending: the removal or the new amounts.
abbrev pub sync_pending : Ledger → Repayment → Entry → Bool → Ledger
sync_pending ledger r e true = record ledger {
  entries = keep (λ (q : Entry). not (text_eq q.id e.id)) ledger.entries;
}
sync_pending ledger r e false = record ledger {
  entries = update key_of_entry e.id (amended_entry r) ledger.entries;
}

-- The entry of a removed repayment is reversed, that of a corrected one is also entered anew, if each
-- of its lines has the entry's amount; the totals that the code then sums again are those that the
-- reversal has tested.
unfoldable pub sync_posted : Ledger → Text → Repayment → Entry → Bool → Fresh → Outcome Ledger
sync_posted ledger actor_id r e removing fresh = do
  reversal ← journaled (reverse_entry e fresh.today (codes "Reversal: ") actor_id fresh.reversal_id)
  let reversed = record ledger { entries = ledger.entries ++ reversal ∷ [] }
  let replaced = record ledger {
    entries =
        (ledger.entries ++ reversal ∷ []) ++ corrected_entry e r actor_id fresh.journal_id ∷ [];
  }
  let onward = do
    reject_if (not (all_of (λ (l : Line). l.amount == e.amount) e.lines))
        (journal_failed invalid_journal_reversal)
    ok replaced
  if removing then ok reversed else onward

-- `syncRepaymentJournalTx`
unfoldable pub sync_repayment_journal :
    Ledger
    → List TransactionAudit
    → Text
    → Repayment
    → Text
    → Bool
    → Fresh
    → Outcome (Ledger × List TransactionAudit)
sync_repayment_journal ledger audits actor_id r loan_type removing fresh =
    let created : Outcome (Ledger × List TransactionAudit) = (do
      ledger' ←
          journaled (create_financial_journal ledger (late_journal r loan_type) fresh.journal_id)
      ok (ledger', audits)) in
    let missing : Outcome (Ledger × List TransactionAudit) = (do
      reject_if (has_entry (belongs r.id (codes "repayment")) ledger.entries)
          journal_already_reversed
      if removing then ok (ledger, audits) else created) in
    elim (last_of (is_live r.id (codes "repayment") ledger.entries) ledger.entries) [
      | none ↦ missing
      | some e ↦ elim e.status [
        | pending_mapping ↦ ok (sync_pending ledger r e removing, audits)
        | posted ↦ do
          ledger' ← sync_posted ledger actor_id r e removing fresh
          ok (ledger', audits ++ audit_reversal e actor_id fresh.reversal_id ∷ [])
      ]
    ]

-- The repayment with what the super admin may change.
abbrev pub corrected : CorrectionInput → ℕ → Repayment → Repayment
corrected req amount r = record r {
  amount = amount;
  record_date = trim_space req.record_date;
  reference_no = trim_space req.reference_no;
  note = trim_space req.note;
}

-- `correctRepaymentByID`
unfoldable pub correct_repayment :
    CorrectionDesk → User → Text → CorrectionInput → Fresh → Outcome CorrectionDesk
unfolding sync_repayment_journal
correct_repayment desk actor repayment_id req fresh = do
  let reason = trim_space req.reason
  let repayments = desk.books.repayments
  reject_if (not (is_super_admin actor)) invalid_repayment_correction
  amount ← positive req.amount invalid_repayment_correction
  reject_if
      (not (is_some (parse_loan_date (trim_space req.record_date))) || not (is_valid_reason reason))
      invalid_repayment_correction
  r ← found (find key_of_repayment repayment_id repayments) repayment_not_found
  loan ← found (find key_of_loan r.loan_id desk.books.loans) repayment_not_found
  reject_if (is_cancelled loan.status) loan_not_active
  reject_if (same_snapshot r (corrected req amount r)) invalid_repayment_correction
  let r' = corrected req amount r
  let repayments' = update key_of_repayment repayment_id (λ _. r') repayments
  loans ← refresh_loan loan r.member_id desk.books.loans repayments'
  (ledger, audits) ←
      sync_repayment_journal desk.books.ledger desk.transaction_audits actor.id r' loan.loan_type
        false fresh
  let audit : CorrectionAudit = record {
    before_state = r;
    after_state = some r';
    reason = reason;
    actor_id = actor.id;
  }
  ok (record desk {
    books = record desk.books { loans = loans; repayments = repayments'; ledger = ledger };
    corrections = desk.corrections ++ audit ∷ [];
    transaction_audits = audits;
  })

-- `removeRepaymentByID`
unfoldable pub remove_repayment :
    CorrectionDesk → User → Text → Text → Fresh → Outcome CorrectionDesk
unfolding sync_repayment_journal
remove_repayment desk actor repayment_id text fresh = do
  let reason = trim_space text
  let repayments = desk.books.repayments
  reject_if (not (is_super_admin actor) || not (is_valid_reason reason))
      invalid_repayment_correction
  r ← found (find key_of_repayment repayment_id repayments) repayment_not_found
  loan ← found (find key_of_loan r.loan_id desk.books.loans) repayment_not_found
  reject_if (is_cancelled loan.status) loan_not_active
  (ledger, audits) ←
      sync_repayment_journal desk.books.ledger desk.transaction_audits actor.id r loan.loan_type
        true fresh
  let repayments' = keep (λ (q : Repayment). not (text_eq q.id repayment_id)) repayments
  loans ← refresh_loan loan r.member_id desk.books.loans repayments'
  let audit : CorrectionAudit = record {
    before_state = r;
    after_state = none;
    reason = reason;
    actor_id = actor.id;
  }
  ok (record desk {
    books = record desk.books { loans = loans; repayments = repayments'; ledger = ledger };
    corrections = desk.corrections ++ audit ∷ [];
    transaction_audits = audits;
  })
