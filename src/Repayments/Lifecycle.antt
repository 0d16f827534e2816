-- ===== src/Repayments/Lifecycle.antt =====
-- Sequences of repayments, corrections and removals: internal/app/repayments.go with
-- internal/app/repayment_corrections.go.
use kopdes.Base.{◌≡◌, if◌then◌else◌, none, [], ◌∷◌, sum_of-append, All-append_one, ok, arith}
use kopdes.Base.Text.{Text, text_eq}
use kopdes.Base.Table.{find, IsKeyed-append_one}
use kopdes.Approval.Requests.{User}
use kopdes.Accounting.Reversal.{key_of_entry}
use kopdes.Accounting.Journal.{entry_of}
use kopdes.Accounting.Standing.{IsNew}
use kopdes.Accounting.Exchanged.{live_sum-entered}
use kopdes.Repayments.Types.{Loan, Repayment, Books}
use kopdes.Repayments.Posting.{RepaymentInput, record_repayment}
use kopdes.Repayments.Kept.{IsKept, Records, record_repayment-Records, Records-IsKept}
use kopdes.Repayments.Corrections.{
  CorrectionDesk, CorrectionInput, Fresh, key_of_repayment, correct_repayment, remove_repayment,
}
use kopdes.Repayments.Synced.{repayment_type, IsUnused}
use kopdes.Repayments.Mirrored.{IsMirrored}
use kopdes.Repayments.Entered.{repayment_journal-Enters}
use kopdes.Repayments.Reconciled.{
  IsReconciled, correct_repayment-IsReconciled, remove_repayment-IsReconciled,
}

-- Identifiers of a new repayment and its journal that no row has.
pub record IsUntaken (books : Books) (new_id journal_id : Text) : Type 0 where
  pub repayment : find key_of_repayment new_id books.repayments ≡ none
  pub transaction : entry_of new_id repayment_type books.ledger.entries ≡ none
  pub journal : IsNew journal_id books.ledger.entries

entered-IsMirrored :
    (books books' : Books) (loan_id new_id journal_id : Text) (loan loan' : Loan) (r : Repayment)
    → Records books books' loan_id new_id journal_id loan loan' r
    → IsUntaken books new_id journal_id
    → IsKept books'
    → IsMirrored books
    → IsMirrored books'
entered-IsMirrored books books' loan_id new_id journal_id loan loan' r w u k' v =
    let (c, enters) =
      repayment_journal-Enters books.ledger r loan.loan_type w.cash_coa_code w.description
        journal_id {ledger' = books'.ledger} w.posted (rw w.named u.transaction) w.is_positive in
    let es = books.ledger.entries in
    let fresh : IsNew c.id es = rw enters.id u.journal in
    record {
      named =
          rw w.repayments (
            IsKeyed-append_one key_of_repayment books.repayments r (rw w.named u.repayment)
              v.named);
      ordered = record {
        entered =
            rw enters.rows
              (IsKeyed-append_one key_of_entry es c fresh.not_entered v.ordered.entered);
        paired = rw enters.rows (All-append_one _ es c v.ordered.paired (λ _. enters.paired));
        balanced = k'.balanced;
      };
      mirrored = λ m t.
          let stands =
            live_sum-entered m repayment_type es c t fresh enters.original enters.of_type in
          let stands' = rw (enters.of_transaction, enters.of_amount) at stands in
          let rows =
            sum_of-append (λ (q : Repayment). if text_eq q.id t then m q.amount else 0)
              books.repayments (r ∷ []) in
          rw (enters.rows, w.repayments) (omega (arith, stands', rows, v.mirrored m t));
    }

-- Recording a repayment under identifiers not in use keeps the ledger a mirror.
pub record_repayment-IsReconciled :
    (books : Books) (loan_id admin_id : Text) (req : RepaymentInput)
    (audit_reason description new_id journal_id : Text) {books' : Books}
    → record_repayment books loan_id admin_id req audit_reason description new_id journal_id
      ≡ ok books'
    → IsUntaken books new_id journal_id
    → IsReconciled books
    → IsReconciled books'
record_repayment-IsReconciled books loan_id admin_id req audit_reason description new_id journal_id
      {books'} h u (k, v) =
    let (loan, loan', r, w) =
      record_repayment-Records books loan_id admin_id req audit_reason description new_id journal_id
        {books' = books'} h in
    let k' = Records-IsKept books books' loan_id new_id journal_id loan loan' r w k in
    (k', entered-IsMirrored books books' loan_id new_id journal_id loan loan' r w u k' v)

-- One successful operation on a repayment, under new identifiers.
pub data Step (desk desk' : CorrectionDesk) : Type 0 where
  was_recorded :
      (books : Books) (loan_id admin_id : Text) (req : RepaymentInput)
      (audit_reason description new_id journal_id : Text)
      → record_repayment desk.books loan_id admin_id req audit_reason description new_id journal_id
        ≡ ok books
      → IsUntaken desk.books new_id journal_id
      → desk' ≡ record desk { books = books }
      → Step desk desk'
  was_corrected :
      (actor : User) (id : Text) (req : CorrectionInput) (fresh : Fresh)
      → correct_repayment desk actor id req fresh ≡ ok desk'
      → IsUnused fresh desk.books.ledger.entries
      → Step desk desk'
  was_removed :
      (actor : User) (id reason : Text) (fresh : Fresh)
      → remove_repayment desk actor id reason fresh ≡ ok desk'
      → IsUnused fresh desk.books.ledger.entries
      → Step desk desk'

pub data Steps (desk : CorrectionDesk) : CorrectionDesk → Type 0 where
  none_yet : Steps desk desk
  and_then :
      {desk' desk'' : CorrectionDesk} → Steps desk desk' → Step desk' desk'' → Steps desk desk''

Step-IsReconciled :
    (desk desk' : CorrectionDesk)
    → Step desk desk'
    → IsReconciled desk.books
    → IsReconciled desk'.books
Step-IsReconciled desk desk'
      (was_recorded books loan_id admin_id req audit_reason description new_id journal_id h u e)
      sound =
    rw e (
      record_repayment-IsReconciled desk.books loan_id admin_id req audit_reason description new_id
        journal_id h u sound)
Step-IsReconciled desk desk' (was_corrected actor id req fresh h u) sound =
    correct_repayment-IsReconciled desk actor id req fresh h u sound
Step-IsReconciled desk desk' (was_removed actor id reason fresh h u) sound =
    remove_repayment-IsReconciled desk actor id reason fresh h u sound

-- Through any sequence of recorded, corrected and removed repayments, each successful and under
-- identifiers not in use, books that agree keep agreeing: every loan holds exactly the repayments
-- recorded for it, every journal balances, and the repayment entries that stand in the ledger,
-- which reverse none and are not reversed, are one for each repayment and of its amount.
pub Steps-IsReconciled :
    {desk desk' : CorrectionDesk}
    → Steps desk desk'
    → IsReconciled desk.books
    → IsReconciled desk'.books
Steps-IsReconciled none_yet sound = sound
Steps-IsReconciled {desk} (and_then {desk' = between} {desk'' = after} steps step) sound =
    Step-IsReconciled between after step (Steps-IsReconciled steps sound)
