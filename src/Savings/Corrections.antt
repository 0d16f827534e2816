-- ===== src/Savings/Corrections.antt =====
-- Correction of a deposit by the super admin: `correctSavingByID` and what it calls, of
-- internal/app/saving_corrections.go. The texts of a language, which `translate`
-- gives, are a function from their keys.
use kopdes.Base.{
  ℕ, ℤ, ◌==◌, not, Bool, true, false, ◌&&◌, ◌||◌, if◌then◌else◌, none, some, List, [], ◌∷◌, ◌++◌,
  ok, err, ◌>>=◌, ◌>>◌, reject_if, found, positive,
}
use kopdes.Base.Text.{Text, codes, text_eq, is_empty, trim_space}
use kopdes.Base.Table.{find, update}
use kopdes.Calendar.Text.{parse_loan_date}
use kopdes.Rupiah.Decimal.{format_int}
use kopdes.Approval.Requests.{User, is_super_admin, is_some}
use kopdes.Accounting.Types.{Entry, posted, pending_mapping, Ledger, JournalInput}
use kopdes.Accounting.Journal.{create_financial_journal}
use kopdes.Accounting.Reversal.{
  key_of_entry, TransactionAudit, is_live, last_of, belongs, has_entry, reverse_entry, set_amounts,
}
use kopdes.Savings.{SavingRecord, SavingType, deposit, withdrawal}
use kopdes.Savings.Records.{
  Outcome, SavingDesk, saving_journal, category_text, journaled, invalid_saving_correction,
  correction_not_found, correction_deposit_only, saving_journal_already_reversed,
  invalid_saving_journal,
}
use kopdes.Repayments.Corrections.{Fresh, is_valid_reason}

-- `savingCorrectionInput`
pub record SavingCorrection : Type 0 where
  pub amount : ℤ
  pub record_date : Text
  pub reference_no : Text
  pub note : Text
  pub reason : Text

abbrev pub key_of_saving : SavingRecord → Text
key_of_saving r = r.id

abbrev pub is_deposit : SavingType → Bool
is_deposit deposit = true
is_deposit withdrawal = false

abbrev pub saving_audit : Text → Text → Text → Text → Text → TransactionAudit
saving_audit id actor_id field before after = record {
  transaction_id = id;
  transaction_type = codes "savings";
  actor_id = actor_id;
  field_name = field;
  old_value = before;
  new_value = after;
}

-- The journal of a deposit that has none.
abbrev pub missing_journal : (Text → Text) → SavingRecord → Text → JournalInput
missing_journal texts r actor_id =
    saving_journal r ((codes "savings_liability", r.coa_code) ∷ [])
      (texts (codes "simpanan_" ++ category_text r.category)) actor_id

-- `insertSavingJournalReversalTx`, which differs in its error from that of repayments.
unfoldable pub reverse_saving_journal : Entry → Text → (Text → Text) → Text → Text → Outcome Entry
reverse_saving_journal e today texts actor_id new_id =
    elim (reverse_entry e today (texts (codes "journal_reversal_prefix") ++ codes ": ") actor_id
      new_id) [ ok reversal ↦ ok reversal | err _ ↦ err invalid_saving_journal ]

-- A pending entry takes over the new values; its source stays.
abbrev pub amended_saving_entry : SavingRecord → Entry → Entry
amended_saving_entry r e = record e {
  reference_no = r.reference_no;
  transaction_date = r.record_date;
  amount = r.amount;
  lines = set_amounts r.amount e.lines;
}

-- The entry that replaces a reversed one.
abbrev pub replacing_entry : (Text → Text) → Entry → SavingRecord → Text → Text → Entry
replacing_entry texts e r actor_id new_id = record e {
  id = new_id;
  reference_no = r.reference_no;
  transaction_id = r.id;
  transaction_date = r.record_date;
  source = r.source;
  amount = r.amount;
  status = posted;
  description =
      if is_empty e.description
      then texts (codes "simpanan_" ++ category_text r.category)
      else e.description;
  recorded_by = actor_id;
  category = category_text r.category;
  reversal_of = none;
  lines = set_amounts r.amount e.lines;
}

-- `syncSavingCorrectionJournalTx`
unfoldable pub sync_saving_journal :
    Ledger
    → List TransactionAudit
    → Text
    → SavingRecord
    → (Text → Text)
    → Fresh
    → Outcome (Ledger × List TransactionAudit)
sync_saving_journal ledger audits actor_id r texts fresh =
    let created : Outcome (Ledger × List TransactionAudit) = (do
      reject_if (has_entry (belongs r.id (codes "savings")) ledger.entries)
          saving_journal_already_reversed
      ledger' ←
          journaled
            (create_financial_journal ledger (missing_journal texts r actor_id) fresh.journal_id)
      ok (ledger', audits)) in
    elim (last_of (is_live r.id (codes "savings") ledger.entries) ledger.entries) [
      | none ↦ created
      | some e ↦ elim e.status [
        | pending_mapping ↦ ok (
          record ledger {
            entries = update key_of_entry e.id (amended_saving_entry r) ledger.entries;
          },
          audits,
        )
        | posted ↦ do
          reversal ← reverse_saving_journal e fresh.today texts actor_id fresh.reversal_id
          ok (
            record ledger {
              entries =
                  (ledger.entries ++ reversal ∷ [])
                  ++ replacing_entry texts e r actor_id fresh.journal_id ∷ [];
            },
            audits ++ saving_audit r.id actor_id (codes "reversed_by") [] fresh.reversal_id ∷ [],
          )
      ]
    ]

-- The record with what the super admin may change.
abbrev pub corrected_saving : SavingCorrection → ℕ → SavingRecord → SavingRecord
corrected_saving req amount r = record r {
  amount = amount;
  record_date = trim_space req.record_date;
  reference_no = trim_space req.reference_no;
  note = trim_space req.note;
}

-- Whether the amount, the date and the reference number are the same.
abbrev pub same_financials : SavingRecord → SavingRecord → Bool
same_financials b a =
    (b.amount == a.amount)
    && (text_eq b.record_date a.record_date && text_eq b.reference_no a.reference_no)

abbrev audit_change : Text → Text → Text → Text → Text → List TransactionAudit
audit_change id actor_id field before after =
    if text_eq before after then [] else saving_audit id actor_id field before after ∷ []

-- The loop over the changes, and the reason.
abbrev pub correction_audits : SavingRecord → SavingRecord → Text → Text → List TransactionAudit
correction_audits b a actor_id reason =
    audit_change b.id actor_id (codes "amount") (format_int b.amount) (format_int a.amount)
    ++ (audit_change b.id actor_id (codes "record_date") b.record_date a.record_date
        ++ (audit_change b.id actor_id (codes "reference_no") b.reference_no a.reference_no
            ++ (audit_change b.id actor_id (codes "note") b.note a.note
                ++ saving_audit b.id actor_id (codes "correction_reason") [] reason ∷ [])))

-- `correctSavingByID`
unfoldable pub correct_saving :
    SavingDesk → User → Text → SavingCorrection → (Text → Text) → Fresh → Outcome SavingDesk
unfolding sync_saving_journal
correct_saving desk actor saving_id req texts fresh = do
  let reason = trim_space req.reason
  reject_if (not (is_super_admin actor)) invalid_saving_correction
  amount ← positive req.amount invalid_saving_correction
  reject_if
      (not (is_some (parse_loan_date (trim_space req.record_date))) || not (is_valid_reason reason))
      invalid_saving_correction
  r ← found (find key_of_saving saving_id desk.db.savings) correction_not_found
  reject_if (not (is_deposit r.saving_type)) correction_deposit_only
  let r' = corrected_saving req amount r
  reject_if (same_financials r r' && text_eq r.note r'.note) invalid_saving_correction
  let audits = desk.transaction_audits ++ correction_audits r r' actor.id reason
  let synced = sync_saving_journal desk.db.ledger audits actor.id r' texts fresh
  (ledger, audits') ← (if same_financials r r' then ok (desk.db.ledger, audits) else synced)
  ok (record desk {
    db = record desk.db {
      savings = update key_of_saving saving_id (λ _. r') desk.db.savings;
      ledger = ledger;
    };
    transaction_audits = audits';
  })
