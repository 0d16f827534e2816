-- ===== src/Savings/Records.antt =====
-- Deposits: `insertSaving` of internal/app/savings.go. The identifiers of new rows are arguments.
use kopdes.Base.{
  ℕ, not, ◌&&◌, ◌||◌, if◌then◌else◌, Option, none, some, ℤ, pos, List, [], ◌∷◌, ◌++◌, Result, ok,
  err, ◌>>=◌, ◌>>◌, reject_if, found, positive,
}
use kopdes.Base.Text.{Text, codes, text_eq, is_empty, trim_space}
use kopdes.Base.Table.{find}
use kopdes.Approval.{Role}
use kopdes.Authorization.Permissions.{has_permission, accounting_coa_override}
use kopdes.Accounting.Types.{JournalInput, JournalError}
use kopdes.Accounting.Journal.{create_financial_journal}
use kopdes.Accounting.Reversal.{TransactionAudit}
use kopdes.Savings.{
  SavingRecord, SavingType, deposit, SavingCategory, pokok, wajib, sukarela, shu, khusus,
}
use kopdes.Withdrawals.Types.{Db, key_of_member}

pub data SavingError : Type 0 where
  invalid_saving inactive_saving_member direct_withdrawal_not_allowed : SavingError
  coa_override_forbidden member_not_found member_deactivation_pending : SavingError
  invalid_saving_correction invalid_saving_removal correction_not_found : SavingError
  correction_deposit_only removal_withdrawal_link : SavingError
  saving_journal_already_reversed invalid_saving_journal source_journal_missing : SavingError
  journal_failed : JournalError → SavingError

abbrev pub Outcome : Type 0 → Type 0
Outcome A = Result SavingError A

-- A row of `saving_record_removals`; the journals are missing where an entry without accounts was
-- removed.
pub record SavingRemoval : Type 0 where
  pub saving : SavingRecord
  pub removed_by : Text
  pub removal_reason : Text
  pub source_journal_id : Text
  pub reversal_journal_id : Text

-- The tables of the withdrawals, with those that corrections write.
pub record SavingDesk : Type 0 where
  pub db : Db
  pub removals : List SavingRemoval
  pub transaction_audits : List TransactionAudit

-- `savingRequest`; the source is not read.
pub record SavingRequest : Type 0 where
  pub member_id : Text
  pub record_type : Text
  pub category : Text
  pub coa_code : Text
  pub cash_coa_code : Text
  pub amount : ℤ
  pub record_date : Text
  pub reference_no : Text
  pub note : Text
  pub role : Role

-- `validSavingCategory`
abbrev pub category_of : Text → Option SavingCategory
category_of t =
    if text_eq t (codes "pokok")
    then some pokok
    else if text_eq t (codes "wajib")
    then some wajib
    else if text_eq t (codes "sukarela")
    then some sukarela
    else if text_eq t (codes "shu")
    then some shu
    else if text_eq t (codes "khusus")
    then some khusus
    else none

abbrev pub category_text : SavingCategory → Text
category_text pokok = codes "pokok"
category_text wajib = codes "wajib"
category_text sukarela = codes "sukarela"
category_text shu = codes "shu"
category_text khusus = codes "khusus"

-- The journal of a deposit: cash or bank against the savings liability.
abbrev pub saving_journal : SavingRecord → List (Text × Text) → Text → Text → JournalInput
saving_journal r overrides description recorded_by = record {
  reference_no = r.reference_no;
  transaction_id = r.id;
  transaction_type = codes "savings";
  transaction_date = r.record_date;
  source = r.source;
  amount = pos r.amount;
  direction = [];
  coa_code = [];
  category = category_text r.category;
  loan_type = [];
  components =
      record { component = codes "cash_bank"; side = codes "debit"; amount = pos r.amount }
      ∷ record {
        component = codes "savings_liability";
        side = codes "credit";
        amount = pos r.amount;
      }
      ∷ [];
  lines = [];
  coa_overrides = overrides;
  description = description;
  recorded_by = recorded_by;
  batch_id = [];
}

abbrev pub journaled {ℓ} : {A : Type ℓ} → Result JournalError A → Result SavingError A
journaled (ok a) = ok a
journaled (err e) = err (journal_failed e)

-- A type left blank is a deposit, and a withdrawal is refused.
abbrev pub deposit_type : Text → Outcome SavingType
deposit_type t =
    if is_empty t || text_eq t (codes "deposit")
    then ok deposit
    else if text_eq t (codes "withdrawal")
    then err direct_withdrawal_not_allowed
    else err invalid_saving

-- The row of a deposit.
abbrev pub new_saving :
    SavingRequest → Text → SavingType → SavingCategory → ℕ → Text → Text → SavingRecord
new_saving req member_id saving_type category amount recorded_by record_id = record {
  id = record_id;
  member_id = member_id;
  saving_type = saving_type;
  category = category;
  source = codes "bank";
  coa_code = trim_space req.coa_code;
  amount = amount;
  record_date = trim_space req.record_date;
  reference_no = trim_space req.reference_no;
  note = trim_space req.note;
  recorded_by = recorded_by;
}

abbrev pub overrides_of : SavingRequest → List (Text × Text)
overrides_of req =
    (codes "cash_bank", trim_space req.cash_coa_code)
    ∷ (codes "savings_liability", trim_space req.coa_code)
    ∷ []

-- `insertSaving`, with the identifiers of the record and of its journal.
unfoldable pub insert_saving : SavingDesk → SavingRequest → Text → Text → Text → Outcome SavingDesk
insert_saving desk req recorded_by record_id journal_id = do
  reject_if
      ((not (is_empty (trim_space req.coa_code)) || not (is_empty (trim_space req.cash_coa_code)))
        && not (has_permission req.role accounting_coa_override))
      coa_override_forbidden
  saving_type ← deposit_type (trim_space req.record_type)
  category ← found (category_of (trim_space req.category)) invalid_saving
  amount ← positive req.amount invalid_saving
  reject_if (is_empty (trim_space req.member_id) || is_empty (trim_space req.record_date))
      invalid_saving
  member ← found (find key_of_member (trim_space req.member_id) desk.db.members) member_not_found
  reject_if (not member.is_active) inactive_saving_member
  reject_if member.deactivation_pending member_deactivation_pending
  let row = new_saving req member.id saving_type category amount recorded_by record_id
  ledger ← journaled (
      create_financial_journal desk.db.ledger
        (saving_journal row (overrides_of req) (codes "Simpanan " ++ category_text category)
          recorded_by)
        journal_id)
  ok (record desk {
    db = record desk.db { savings = desk.db.savings ++ row ∷ []; ledger = ledger };
  })
