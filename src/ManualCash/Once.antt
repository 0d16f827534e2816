-- ===== src/ManualCash/Once.antt =====
-- About the reversal of a journal (internal/app/accounting_reports.go): that it balances, and
-- what its row of the cash transactions counts.
use kopdes.Base.{
  ◌+◌, ◌≡◌, refl, sym, ◌∙◌, true, not, [], ◌∷◌, ◌++◌, All-append_one, all_of, ok, arith,
}
use kopdes.Base.Text.{Text, is_empty}
use kopdes.Base.Table.{All-find}
use kopdes.Accounting.Types.{Line, Entry}
use kopdes.Accounting.Balance.{AllBalanced, IsBalanced, HasStatus}
use kopdes.Accounting.Reversal.{key_of_entry}
use kopdes.Accounting.Reversed.{debits-reversed, credits-reversed, all_coded-reversed}
use kopdes.ManualCash.{CashDesk}
use kopdes.ManualCash.Reversal.{ReversalIds, ReversalRequest, reverse_financial_journal, joined}
use kopdes.ManualCash.Reversed.{
  Reverses, reverse_financial_journal-Reverses, joined_coded, cash_debits, cash_credits, total_in,
  total_out, cash_debits-reversed, cash_credits-reversed,
}

module _ (desk desk' : CashDesk) (journal_id : Text) (ids : ReversalIds)
    (w : Reverses desk desk' journal_id ids) where
  reversal-IsBalanced : AllBalanced desk.ledger → IsBalanced w.reversal × HasStatus w.reversal
  reversal-IsBalanced all =
      let lines = joined desk.ledger.accounts w.entry.lines in
      let (_, status) = All-find key_of_entry _ journal_id desk.ledger.entries w.row all in
      let coded : all_of (λ (l : Line). not (is_empty l.coa_code)) w.entry.lines ≡ true =
        ground (arith, status, w.was_posted) in
      let coded' =
        all_coded-reversed lines (joined_coded desk.ledger.accounts w.entry.lines coded) in
      (
        record {
          debited = rw w.lines (debits-reversed lines ∙ sym w.credited);
          credited = rw w.lines (credits-reversed lines ∙ sym w.debited);
          is_positive = w.is_positive;
        },
        w.status ∙ rw w.lines (rw coded' refl),
      )

-- A reversal leaves every entry balanced, and posted exactly when each of its lines has an account,
-- if it was so before.
pub reverse_financial_journal-AllBalanced :
    (desk : CashDesk) (journal_id actor_id : Text) (req : ReversalRequest) (today : Text)
    (ids : ReversalIds) {desk' : CashDesk}
    → reverse_financial_journal desk journal_id actor_id req today ids ≡ ok desk'
    → AllBalanced desk.ledger
    → AllBalanced desk'.ledger
reverse_financial_journal-AllBalanced desk journal_id actor_id req today ids {desk'} h all =
    let w =
      reverse_financial_journal-Reverses desk journal_id actor_id req today ids {desk' = desk'} h in
    rw w.entries (
      All-append_one _ desk.ledger.entries w.reversal all
        (reversal-IsBalanced desk desk' journal_id ids w all))

-- The cash that the reversal's own lines move is the opposite of what its row of the manual cash
-- transactions counts: that row has the direction of the journal that is reversed.
pub reverse_financial_journal-moves :
    (desk : CashDesk) (journal_id actor_id : Text) (req : ReversalRequest) (today : Text)
    (ids : ReversalIds) {desk' : CashDesk}
    → reverse_financial_journal desk journal_id actor_id req today ids ≡ ok desk'
    → (r : Entry) × (desk'.ledger.entries ≡ desk.ledger.entries ++ r ∷ [])
      × (total_in desk'.transactions
            + total_out desk.transactions
            + cash_debits desk.ledger.accounts r.lines
          ≡ total_in desk.transactions
            + total_out desk'.transactions
            + cash_credits desk.ledger.accounts r.lines)
reverse_financial_journal-moves desk journal_id actor_id req today ids {desk'} h =
    let w =
      reverse_financial_journal-Reverses desk journal_id actor_id req today ids {desk' = desk'} h in
    let lines = joined desk.ledger.accounts w.entry.lines in
    (
      w.reversal,
      w.entries,
      rw w.lines (
          omega (
            arith,
            w.moved,
            cash_debits-reversed desk.ledger.accounts lines,
            cash_credits-reversed desk.ledger.accounts lines,
          )),
    )
