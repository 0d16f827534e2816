-- ===== src/Savings/Removal.antt =====
-- Removal of a deposit by the super admin: `removeSavingByID` and
-- `prepareSavingJournalForRemovalTx` of internal/app/saving_corrections.go.
use kopdes.Base.{
  not, Bool, false, ◌||◌, none, some, List, [], ◌∷◌, ◌++◌, keep, ok, ◌>>=◌, ◌>>◌, reject_if, found,
}
use kopdes.Base.Text.{Text, codes, text_eq, trim_space}
use kopdes.Base.Table.{find}
use kopdes.Approval.Requests.{User, is_super_admin}
use kopdes.Accounting.Types.{Entry, posted, pending_mapping, Ledger}
use kopdes.Accounting.Journal.{create_financial_journal}
use kopdes.Accounting.Reversal.{TransactionAudit, reverses, is_source, last_of, belongs, has_entry}
use kopdes.Savings.{SavingRecord}
use kopdes.Savings.Records.{
  Outcome, SavingRemoval, SavingDesk, journaled, invalid_saving_removal, correction_not_found,
  correction_deposit_only, removal_withdrawal_link, invalid_saving_journal, source_journal_missing,
}
use kopdes.Repayments.Corrections.{Fresh, is_valid_reason}
use kopdes.Withdrawals.Types.{Request}
use kopdes.Savings.Corrections.{
  key_of_saving, is_deposit, saving_audit, missing_journal, reverse_saving_journal,
}

-- `EXISTS(SELECT 1 FROM withdrawal_requests WHERE saving_record_id=$1)`
abbrev pub is_linked : Text → List Request → Bool
is_linked saving_id [] = false
is_linked saving_id (q ∷ rest) =
    let here : Bool = elim q.disbursement [
      | none ↦ false
      | some d ↦ text_eq d.saving_record_id saving_id
    ] in
    here || is_linked saving_id rest

-- What the removal has done with the journal: the ledger, the audits, and the identifiers of the
-- source and of its reversal.
pub record Prepared : Type 0 where
  pub ledger : Ledger
  pub audits : List TransactionAudit
  pub source_journal_id : Text
  pub reversal_journal_id : Text

-- The source is removed if it is pending, and reversed if it is posted and was not.
unfoldable pub undo_journal :
    Ledger
    → List TransactionAudit
    → User
    → SavingRecord
    → (Text → Text)
    → Fresh
    → Entry
    → Outcome Prepared
unfolding reverse_saving_journal
undo_journal ledger audits actor r texts fresh e =
    elim (last_of (λ (x : Entry). reverses e.id x.reversal_of) ledger.entries) [
      | some reversal ↦ ok (record {
        ledger = ledger;
        audits = audits;
        source_journal_id = e.id;
        reversal_journal_id = reversal.id;
      })
      | none ↦ elim e.status [
        | pending_mapping ↦ ok (record {
          ledger = record ledger {
            entries = keep (λ (x : Entry). not (text_eq x.id e.id)) ledger.entries;
          };
          audits =
              audits ++ saving_audit r.id actor.id (codes "unposted_journal_removed") e.id [] ∷ [];
          source_journal_id = [];
          reversal_journal_id = [];
        })
        | posted ↦ do
          reversal ← reverse_saving_journal e fresh.today texts actor.id fresh.reversal_id
          ok (record {
            ledger = record ledger { entries = ledger.entries ++ reversal ∷ [] };
            audits =
                audits
                ++ saving_audit r.id actor.id (codes "reversed_by") [] fresh.reversal_id ∷ [];
            source_journal_id = e.id;
            reversal_journal_id = fresh.reversal_id;
          })
      ]
    ]

-- `prepareSavingJournalForRemovalTx`
unfoldable pub prepare_removal :
    Ledger → List TransactionAudit → User → SavingRecord → (Text → Text) → Fresh → Outcome Prepared
unfolding undo_journal
prepare_removal ledger audits actor r texts fresh =
    let entered : Outcome Prepared = (do
      reject_if (has_entry (belongs r.id (codes "savings")) ledger.entries) invalid_saving_journal
      ledger' ←
          journaled
            (create_financial_journal ledger (missing_journal texts r actor.id) fresh.journal_id)
      e ← found (last_of (is_source r.id (codes "savings")) ledger'.entries) source_journal_missing
      undo_journal ledger' audits actor r texts fresh e) in
    elim (last_of (is_source r.id (codes "savings")) ledger.entries) [
      | none ↦ entered
      | some e ↦ undo_journal ledger audits actor r texts fresh e
    ]

-- `removeSavingByID`
unfoldable pub remove_saving :
    SavingDesk → User → Text → Text → (Text → Text) → Fresh → Outcome SavingDesk
unfolding prepare_removal
remove_saving desk actor saving_id text texts fresh = do
  let reason = trim_space text
  reject_if (not (is_super_admin actor) || not (is_valid_reason reason)) invalid_saving_removal
  r ← found (find key_of_saving saving_id desk.db.savings) correction_not_found
  reject_if (not (is_deposit r.saving_type)) correction_deposit_only
  reject_if (is_linked r.id desk.db.requests) removal_withdrawal_link
  p ← prepare_removal desk.db.ledger desk.transaction_audits actor r texts fresh
  let removal : SavingRemoval = record {
    saving = r;
    removed_by = actor.id;
    removal_reason = reason;
    source_journal_id = p.source_journal_id;
    reversal_journal_id = p.reversal_journal_id;
  }
  ok (record desk {
    db = record desk.db {
      savings = keep (λ (q : SavingRecord). not (text_eq q.id saving_id)) desk.db.savings;
      ledger = p.ledger;
    };
    removals = desk.removals ++ removal ∷ [];
    transaction_audits =
        p.audits
        ++ saving_audit r.id actor.id (codes "removed") (codes "false") (codes "true")
          ∷ saving_audit r.id actor.id (codes "removal_reason") [] reason
          ∷ [];
  })
