-- ===== src/Examples/Waiting.antt =====
-- A journal that waits for a mapping, through two calls.
use kopdes.Base.{◌≡◌, refl, ok, none, false, true, [], ◌∷◌, arith}
use kopdes.Base.Text.{codes, text_eq}
use kopdes.Accounting.Types.{
  Line, Side, debit, credit, Entry, JournalStatus, posted, pending_mapping, Ledger,
}
use kopdes.Accounting.Balance.{AllBalanced}
use kopdes.Accounting.Mapping.{
  coa_account_for_posting, accounting_mapping_coa_code, best_mapping, applies, prefers,
}
use kopdes.Accounting.Pending.{
  resolve_line, resolve_lines, resolve_entry, resolve_entries, resolve_pending_journals,
}
use kopdes.Accounting.Resolved.{
  Leaves, resolve_pending_journals_twice, resolve_pending_journals-Leaves,
}
use kopdes.Base.Text.{Text}

abbrev line : Side → Text → Text → Line
line side code component = record {
  side = side;
  coa_code = code;
  amount = 10;
  component = component;
  mapping_override = false;
}

abbrev entry : Text → JournalStatus → Entry
entry code status = record {
  id = codes "j";
  reference_no = codes "TXN-p";
  transaction_id = codes "p";
  transaction_type = codes "repayment";
  transaction_date = codes "2024-01-20";
  source = codes "bank";
  amount = 10;
  status = status;
  batch_id = [];
  description = [];
  recorded_by = codes "b";
  category = [];
  loan_type = codes "regular";
  reversal_of = none;
  lines =
      line debit (codes "1") (codes "cash_bank") ∷ line credit code (codes "loan_receivable") ∷ [];
}

abbrev ledger : Ledger
ledger = record {
  accounts =
      record {
        code = codes "2";
        account_type = codes "asset";
        subtype = [];
        system_key = [];
        is_group = false;
        active = true;
      }
      ∷ [];
  mappings =
      record {
        id = codes "a";
        transaction_type = codes "repayment";
        component = codes "loan_receivable";
        category = [];
        loan_type = codes "regular";
        coa_code = codes "2";
        effective_from = none;
        effective_to = none;
        active = true;
      }
      ∷ [];
  entries = entry [] pending_mapping ∷ [];
}

-- The first call finds the account, and the entry stays pending.
first_run :
    resolve_pending_journals ledger
    ≡ ok (record ledger { entries = entry (codes "2") pending_mapping ∷ [] })
unfolding resolve_pending_journals resolve_entries resolve_entry resolve_lines resolve_line
    accounting_mapping_coa_code best_mapping applies prefers coa_account_for_posting text_eq
first_run = refl

second_run :
    resolve_pending_journals (record ledger { entries = entry (codes "2") pending_mapping ∷ [] })
    ≡ ok (record ledger { entries = entry (codes "2") posted ∷ [] })
unfolding resolve_pending_journals resolve_entries resolve_entry resolve_lines resolve_line
    accounting_mapping_coa_code best_mapping applies prefers coa_account_for_posting text_eq
second_run = refl

resolve_pending_journals_twice_example :
    AllBalanced (record ledger { entries = entry (codes "2") posted ∷ [] })
resolve_pending_journals_twice_example =
    resolve_pending_journals_twice ledger first_run second_run
      ((record { debited = refl; credited = refl; is_positive = omega arith }, refl), tt)

resolve_pending_journals-Leaves_example :
    Leaves (entry [] pending_mapping ∷ []) (entry (codes "2") pending_mapping ∷ [])
resolve_pending_journals-Leaves_example = resolve_pending_journals-Leaves ledger first_run
