-- ===== src/ManualCash/Lifecycle.antt =====
-- Manual journals and their reversals in any sequence (internal/app/manual_cash_transactions.go,
-- internal/app/accounting_reports.go).
use kopdes.Base.{
  ℕ, ◌≤◌, ◌≡◌, refl, sym, ◌∙◌, false, if◌then◌else◌, none, List, [], ◌∷◌, sum_of, sum_of-append, ok,
  arith, inl, inr, Bool-cases,
}
use kopdes.Base.Text.{Text, text_eq, text_eq→eq}
use kopdes.Base.Table.{find-key}
use kopdes.Calendar.{Date}
use kopdes.Accounting.Types.{Entry}
use kopdes.Accounting.Journal.{entry_of}
use kopdes.Accounting.Reversal.{key_of_entry, reverses, is_reversed}
use kopdes.ManualCash.{CashDesk}
use kopdes.ManualCash.Posting.{ManualRequest, EntryType, insert_manual_cash_transaction}
use kopdes.ManualCash.Reversal.{ReversalIds, ReversalRequest, reverse_financial_journal}
use kopdes.ManualCash.Counted.{manual_type, insert_manual_cash_transaction-Inserts}
use kopdes.ManualCash.Reversed.{reverse_financial_journal-Reverses}

-- How many entries reverse the journal `id`.
abbrev pub reversals : Text → List Entry → ℕ
reversals id = sum_of (λ (r : Entry). if reverses id r.reversal_of then 1 else 0)

pub record IsReversedOnce (desk : CashDesk) : Type 0 where
  pub at_most_one : (id : Text) → reversals id desk.ledger.entries ≤ 1

pub data Step : CashDesk → CashDesk → Type 0 where
  inserted :
      (desk : CashDesk) (req : ManualRequest) (recorded_by : Text) (entry_type : EntryType)
      (today : Date) (id journal_id : Text) (desk' : CashDesk)
      → insert_manual_cash_transaction desk req recorded_by entry_type today id journal_id
        ≡ ok desk'
      → entry_of id manual_type desk.ledger.entries ≡ none
      → Step desk desk'
  was_reversed :
      (desk : CashDesk) (journal_id actor_id : Text) (req : ReversalRequest) (today : Text)
      (ids : ReversalIds) (desk' : CashDesk)
      → reverse_financial_journal desk journal_id actor_id req today ids ≡ ok desk'
      → Step desk desk'

pub data Steps : CashDesk → CashDesk → Type 0 where
  done : (desk : CashDesk) → Steps desk desk
  next :
      (desk between desk' : CashDesk) → Step desk between → Steps between desk' → Steps desk desk'

no_reversals : (id : Text) (es : List Entry) → is_reversed id es ≡ false → reversals id es ≡ 0
no_reversals id [] h = refl
no_reversals id (e ∷ es) h = ground (arith, no_reversals id es)

Step-IsReversedOnce :
    (desk desk' : CashDesk) → Step desk desk' → IsReversedOnce desk → IsReversedOnce desk'
Step-IsReversedOnce desk desk'
      (inserted _ req recorded_by entry_type today id journal_id _ h unused) once =
    record {
      at_most_one = λ other.
          let w =
            insert_manual_cash_transaction-Inserts desk req recorded_by entry_type today id
              journal_id {desk' = desk'} h unused in
          let counted =
            sum_of-append (λ (r : Entry). if reverses other r.reversal_of then 1 else 0)
              desk.ledger.entries (w.entry ∷ []) in
          rw w.entries (omega (arith, rw w.original at counted, once.at_most_one other));
    }
Step-IsReversedOnce desk desk' (was_reversed _ journal_id actor_id req today ids _ h) once =
    record {
      at_most_one = λ other.
          let w =
            reverse_financial_journal-Reverses desk journal_id actor_id req today ids
              {desk' = desk'} h in
          let same : w.entry.id ≡ journal_id =
            text_eq→eq w.entry.id journal_id
              (find-key key_of_entry journal_id desk.ledger.entries w.row) in
          let counted =
            sum_of-append (λ (r : Entry). if reverses other r.reversal_of then 1 else 0)
              desk.ledger.entries (w.reversal ∷ []) in
          let counted' = rw w.of_entry at counted in
          elim (Bool-cases (text_eq w.entry.id other)) [
            | inl this ↦
                let it : journal_id ≡ other = sym same ∙ text_eq→eq w.entry.id other this in
                let none_yet = no_reversals other desk.ledger.entries (rw it at w.was_standing) in
                rw w.entries (omega (arith, rw this at counted', none_yet))
            | inr not_this ↦
                rw w.entries (omega (arith, rw not_this at counted', once.at_most_one other))
          ];
    }

-- If no journal is reversed by more than one entry, none is after any sequence of insertions of
-- manual cash transactions and of reversals, provided that each insertion is under an identifier
-- that no manual journal has. A reversal may be reversed like any other journal.
pub Steps-IsReversedOnce :
    (desk desk' : CashDesk) → Steps desk desk' → IsReversedOnce desk → IsReversedOnce desk'
Steps-IsReversedOnce desk desk' (done _) once = once
Steps-IsReversedOnce desk desk' (next _ between _ s rest) once =
    Steps-IsReversedOnce between desk' rest (Step-IsReversedOnce desk between s once)
