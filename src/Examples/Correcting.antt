-- ===== src/Examples/Correcting.antt =====
-- A repayment recorded too low, corrected, and another removed.
use kopdes.Base.{ℕ, ◌≡◌, refl, false, ok, none, some, pos, [], ◌∷◌, ◌++◌, arith}
use kopdes.Base.Text.{
  Text, codes, trim_space, trim_left, trim_right, is_space, text_eq, text_eq_refl, text_ltb,
}
use kopdes.Base.Table.{find, update}
use kopdes.Approval.{super_admin}
use kopdes.Approval.Requests.{User}
use kopdes.Allocation.{allocate_one}
use kopdes.Calendar.Text.{parse_loan_date, parse_fields}
use kopdes.Calendar.{is_valid, days_in_month}
use kopdes.Accounting.Types.{Entry, Line, Side, debit, credit, posted}
use kopdes.Accounting.Reversal.{reverse_entry, reversal_totals, reversal_entry}
use kopdes.Accounting.Reversed.{debited_on, credited_on, reverse_entry-cancels}
use kopdes.Accounting.Balance.{IsBalanced}
use kopdes.Accounting.Live.{live_sum}
use kopdes.Repayments.Types.{Loan, Repayment}
use kopdes.Repayments.Refresh.{refresh_schedule, refresh_rows}
use kopdes.Repayments.Corrections.{
  CorrectionDesk, CorrectionInput, Fresh, corrected, corrected_entry, audit_reversal,
  correct_repayment, refresh_loan, sync_repayment_journal, sync_posted,
}
use kopdes.Repayments.Synced.{IsUnused, repayment_type}
use kopdes.Repayments.Mirrored.{recorded}
use kopdes.Repayments.Reconciled.{IsReconciled}
use kopdes.Repayments.Lifecycle.{none_yet, and_then, was_corrected, Steps-IsReconciled}
use kopdes.Examples.Repaid.{loan, row, loan-IsCurrent}
use kopdes.Examples.Payoffs.{received}

abbrev line : Side → Text → Text → ℕ → Line
line side code component n = record {
  side = side;
  coa_code = code;
  amount = n;
  component = component;
  mapping_override = false;
}

abbrev entry : Entry
entry = record {
  id = codes "j";
  reference_no = codes "TXN-p";
  transaction_id = codes "p";
  transaction_type = codes "repayment";
  transaction_date = codes "2024-01-20";
  source = codes "bank";
  amount = 40;
  status = posted;
  batch_id = [];
  description = [];
  recorded_by = codes "b";
  category = [];
  loan_type = codes "regular";
  reversal_of = none;
  lines =
      line debit (codes "1") (codes "cash_bank") 40
      ∷ line credit (codes "2") (codes "loan_receivable") 40
      ∷ [];
}

abbrev desk : CorrectionDesk
desk = record {
  books = record {
    loans = loan ∷ [];
    repayments = received ∷ [];
    audits = [];
    ledger = record { accounts = []; mappings = []; entries = entry ∷ [] };
  };
  corrections = [];
  transaction_audits = [];
}

entry-IsBalanced : IsBalanced entry
entry-IsBalanced = record { debited = refl; credited = refl; is_positive = omega arith }

desk-mirrored :
    (m : ℕ → ℕ) (t : Text)
    → live_sum m t repayment_type desk.books.ledger.entries ≡ recorded m t desk.books.repayments
unfolding live_sum
desk-mirrored m t = ground (arith, text_eq_refl (codes "repayment"))

desk-IsReconciled : IsReconciled desk.books
unfolding find text_eq
desk-IsReconciled = (
  record {
    keyed = (refl, tt);
    current = (loan-IsCurrent, tt);
    paid_in = (omega arith, tt);
    balanced = ((entry-IsBalanced, refl), tt);
  },
  record {
    named = (refl, tt);
    ordered = record {
      entered = (refl, tt);
      paired = (λ _. record { debits_once = refl; credits_once = refl }, tt);
      balanced = ((entry-IsBalanced, refl), tt);
    };
    mirrored = desk-mirrored;
  },
)

reverse_entry_run :
    reverse_entry entry (codes "2024-03-01") (codes "Reversal: ") (codes "s") (codes "r")
    ≡ ok (reversal_entry entry (codes "2024-03-01") (codes "Reversal: ") (codes "s") (codes "r") 40)
unfolding reverse_entry reversal_totals
reverse_entry_run = refl

abbrev actor : User
actor = record { id = codes "s"; role = super_admin; has_member = false }

abbrev input : CorrectionInput
input = record {
  amount = pos 50;
  record_date = codes "2024-01-21";
  reference_no = codes "TXN-p";
  note = [];
  reason = codes "typing";
}

abbrev fresh : Fresh
fresh = record { today = codes "2024-03-01"; journal_id = codes "k"; reversal_id = codes "r" }

abbrev after : Repayment
after = corrected input 50 received

abbrev loan_after : Loan
loan_after = record loan {
  remaining_balance = 50;
  installments =
      record (row 1 33) { paid_amount = 33 }
      ∷ record (row 2 33) { paid_amount = 17 }
      ∷ row 3 34
      ∷ [];
}

abbrev desk_after : CorrectionDesk
desk_after = record {
  books = record {
    loans = loan_after ∷ [];
    repayments = after ∷ [];
    audits = [];
    ledger = record {
      accounts = [];
      mappings = [];
      entries =
          entry
          ∷ reversal_entry entry (codes "2024-03-01") (codes "Reversal: ") (codes "s") (codes "r")
              40
          ∷ corrected_entry entry after (codes "s") (codes "k")
          ∷ [];
    };
  };
  corrections =
      record {
        before_state = received;
        after_state = some after;
        reason = codes "typing";
        actor_id = codes "s";
      }
      ∷ [];
  transaction_audits = audit_reversal entry (codes "s") (codes "r") ∷ [];
}

correction_run : correct_repayment desk actor (codes "p") input fresh ≡ ok desk_after
unfolding correct_repayment trim_space trim_left trim_right is_space find update text_eq
    parse_loan_date parse_fields refresh_loan refresh_schedule refresh_rows allocate_one text_ltb
    sync_repayment_journal sync_posted reverse_entry reversal_totals is_valid days_in_month
correction_run = refl

fresh-IsUnused : IsUnused fresh desk.books.ledger.entries
unfolding find text_eq
fresh-IsUnused = record {
  reversal = record { not_entered = refl; not_reversed = refl };
  journal = record { not_entered = refl; not_reversed = refl };
  apart = refl;
}

Steps-IsReconciled_example : IsReconciled desk_after.books
Steps-IsReconciled_example =
    Steps-IsReconciled
      (and_then none_yet
        (was_corrected actor (codes "p") input fresh correction_run fresh-IsUnused))
      desk-IsReconciled

reverse_entry-cancels_example :
    let r =
      reversal_entry entry (codes "2024-03-01") (codes "Reversal: ") (codes "s") (codes "r") 40 in
    (debited_on (codes "1") (entry.lines ++ r.lines)
      ≡ credited_on (codes "1") (entry.lines ++ r.lines))
    × (r.reversal_of ≡ some (codes "j"))
    × IsBalanced r
reverse_entry-cancels_example =
    reverse_entry-cancels entry (codes "2024-03-01") (codes "Reversal: ") (codes "s") (codes "r")
      (codes "1") reverse_entry_run
