-- ===== src/ManualCash/Reversed.antt =====
-- What the reversal of a journal does to the ledger and to the manual cash transactions
-- (internal/app/accounting_reports.go).
use kopdes.Base.{
  ℕ, ◌+◌, ◌<◌, ◌≡◌, refl, sym, true, false, not, pos, sub_ℕ, equal_ℤ, some, List, [], ◌∷◌, ◌++◌,
  map, sum_of, sum_of-append, all_of, ok, arith, inl, inr, Bool-cases, Option-cases, Result-cases,
}
use kopdes.Base.Text.{Text, is_empty, trim_space}
use kopdes.Base.Table.{find}
use kopdes.Accounting.Types.{CoaAccount, Line, Entry, posted}
use kopdes.Accounting.Lines.{debit_of, credit_of}
use kopdes.Accounting.Balance.{debits, credits}
use kopdes.Accounting.Reversal.{key_of_entry, is_reversed, reversed_line}
use kopdes.ManualCash.{CashTransaction, CashDesk, moved_in, moved_out, next_manual_cash_reference}
use kopdes.ManualCash.Reversal.{
  Totals, line_totals, cash_debited, cash_credited, joined, has_account, ReversalIds,
  ReversalRequest, record_movement, reverse_financial_journal, manual_reversal, reversal_date,
  reversal_transaction,
}

-- What lines move on the accounts of cash and banks.
abbrev pub cash_debits : List CoaAccount → List Line → ℕ
cash_debits accounts = sum_of (cash_debited accounts)

abbrev pub cash_credits : List CoaAccount → List Line → ℕ
cash_credits accounts = sum_of (cash_credited accounts)

-- The sums of the manual cash transactions of either direction.
abbrev pub total_in : List CashTransaction → ℕ
total_in = sum_of moved_in

abbrev pub total_out : List CashTransaction → ℕ
total_out = sum_of moved_out

line_totals_lem :
    (accounts : List CoaAccount) (t : Totals) (ls : List Line) {t' : Totals}
    → line_totals accounts t ls ≡ ok t'
    → (t'.debits ≡ t.debits + debits ls)
      × (t'.credits ≡ t.credits + credits ls)
      × (t'.cash_debits ≡ t.cash_debits + cash_debits accounts ls)
      × (t'.cash_credits ≡ t.cash_credits + cash_credits accounts ls)
unfolding line_totals
line_totals_lem accounts t [] {t'} h =
    let same : t ≡ t' = ground arith in rw (sym same) (ground arith)
line_totals_lem accounts t (l ∷ ls) {t'} h =
    let next : Totals = record {
      debits = t.debits + debit_of l.side l.amount;
      credits = t.credits + credit_of l.side l.amount;
      cash_debits = t.cash_debits + cash_debited accounts l;
      cash_credits = t.cash_credits + cash_credited accounts l;
    } in
    let rest : line_totals accounts next ls ≡ ok t' = ground arith in
    let (d, k, cd, ck) = line_totals_lem accounts next ls {t' = t'} rest in
    (omega (arith, d), omega (arith, k), omega (arith, cd), omega (arith, ck))

pub cash_debits-reversed :
    (accounts : List CoaAccount) (ls : List Line)
    → cash_debits accounts (map reversed_line ls) ≡ cash_credits accounts ls
cash_debits-reversed accounts [] = refl
cash_debits-reversed accounts (l ∷ ls) = ground (arith, cash_debits-reversed accounts ls)

pub cash_credits-reversed :
    (accounts : List CoaAccount) (ls : List Line)
    → cash_credits accounts (map reversed_line ls) ≡ cash_debits accounts ls
cash_credits-reversed accounts [] = refl
cash_credits-reversed accounts (l ∷ ls) = ground (arith, cash_credits-reversed accounts ls)

pub joined_coded :
    (accounts : List CoaAccount) (ls : List Line)
    → all_of (λ (l : Line). not (is_empty l.coa_code)) ls ≡ true
    → all_of (λ (l : Line). not (is_empty l.coa_code)) (joined accounts ls) ≡ true
joined_coded accounts [] h = refl
joined_coded accounts (l ∷ ls) h = elim (Bool-cases (has_account accounts l)) [
  | inl kept ↦ rw kept (ground (arith, joined_coded accounts ls))
  | inr dropped ↦ rw dropped (ground (arith, joined_coded accounts ls))
]

-- The movement that is recorded has the direction and the amount of the net.
record_movement_lem :
    (desk : CashDesk) (e : Entry) (d k : ℕ) (id date reason actor_id : Text) {desk' : CashDesk}
    {reference : Text}
    → record_movement desk e (sub_ℕ d k) id date reason actor_id ≡ ok (desk', reference)
    → (desk'.ledger ≡ desk.ledger)
      × (total_in desk'.transactions + total_out desk.transactions + k
          ≡ total_in desk.transactions + total_out desk'.transactions + d)
unfolding record_movement
record_movement_lem desk e d k id date reason actor_id {desk'} {reference} h =
    elim (Bool-cases (equal_ℤ (sub_ℕ d k) (pos 0))) [
      | inl nothing ↦
          let rows : desk'.transactions ≡ desk.transactions = ground arith in
          let level : d ≡ k = ground arith in (ground arith, rw rows (omega (arith, level)))
      | inr moved ↦ elim (Result-cases (next_manual_cash_reference desk date)) [
        | inr (x, bad) ↦ absurd (ground arith)
        | inl ((free, sequences), e') ↦
            let row = reversal_transaction e (sub_ℕ d k) id date free reason actor_id in
            let rows : desk'.transactions ≡ desk.transactions ++ row ∷ [] = ground arith in
            let ins = sum_of-append moved_in desk.transactions (row ∷ []) in
            let outs = sum_of-append moved_out desk.transactions (row ∷ []) in
            let net : moved_in row + k ≡ moved_out row + d = ground arith in
            (ground arith, rw rows (omega (arith, ins, outs, net)))
      ]
    ]

-- What a successful reversal does to the tables.
pub record Reverses (desk desk' : CashDesk) (journal_id : Text) (ids : ReversalIds) : Type 0 where
  pub entry : Entry
  pub row : find key_of_entry journal_id desk.ledger.entries ≡ some entry
  pub was_posted : entry.status ≡ posted
  pub was_standing : is_reversed journal_id desk.ledger.entries ≡ false
  pub reversal : Entry
  pub entries : desk'.ledger.entries ≡ desk.ledger.entries ++ reversal ∷ []
  pub accounts : desk'.ledger.accounts ≡ desk.ledger.accounts
  pub lines : reversal.lines ≡ map reversed_line (joined desk.ledger.accounts entry.lines)
  pub of_entry : reversal.reversal_of ≡ some entry.id
  pub status : reversal.status ≡ posted
  pub debited : reversal.amount ≡ debits (joined desk.ledger.accounts entry.lines)
  pub credited : reversal.amount ≡ credits (joined desk.ledger.accounts entry.lines)
  pub is_positive : 0 < reversal.amount
  pub moved :
      total_in desk'.transactions
        + total_out desk.transactions
        + cash_credits desk.ledger.accounts (joined desk.ledger.accounts entry.lines)
      ≡ total_in desk.transactions
        + total_out desk'.transactions
        + cash_debits desk.ledger.accounts (joined desk.ledger.accounts entry.lines)

pub reverse_financial_journal-Reverses :
    (desk : CashDesk) (journal_id actor_id : Text) (req : ReversalRequest) (today : Text)
    (ids : ReversalIds) {desk' : CashDesk}
    → reverse_financial_journal desk journal_id actor_id req today ids ≡ ok desk'
    → Reverses desk desk' journal_id ids
unfolding reverse_financial_journal
reverse_financial_journal-Reverses desk journal_id actor_id req today ids {desk'} h =
    let zeros : Totals = record { debits = 0; credits = 0; cash_debits = 0; cash_credits = 0 } in
    elim (Option-cases (find key_of_entry journal_id desk.ledger.entries)) [
      | inl missing ↦ absurd (ground arith)
      | inr (e, row) ↦
          let lines = joined desk.ledger.accounts e.lines in
          elim (Result-cases (line_totals desk.ledger.accounts zeros lines)) [
            | inr (x, bad) ↦ absurd (ground arith)
            | inl (t, sums) ↦
                let (ds, ks, cds, cks) =
                  line_totals_lem desk.ledger.accounts zeros lines {t' = t} sums in
                let date = reversal_date req.date today in
                let reason = trim_space req.reason in
                elim (Result-cases (
                  record_movement desk e (sub_ℕ t.cash_debits t.cash_credits) ids.transaction_id
                    date reason actor_id)) [
                      | inr (x, bad) ↦ absurd (ground arith)
                      | inl ((between, reference), recorded) ↦
                          let (ledger, moved) =
                            record_movement_lem desk e t.cash_debits t.cash_credits
                              ids.transaction_id date reason actor_id {desk' = between}
                              {reference = reference} recorded in
                          let rows : desk'.transactions ≡ between.transactions = ground arith in
                          let reversal =
                            manual_reversal e ids date reference actor_id t.debits lines in
                          record {
                            entry = e;
                            row = row;
                            was_posted = ground arith;
                            was_standing = ground arith;
                            reversal = reversal;
                            entries = ground (arith, ledger);
                            accounts = ground (arith, ledger);
                            lines = refl;
                            of_entry = refl;
                            status = refl;
                            debited = omega (arith, ds);
                            credited = ground (arith, ks);
                            is_positive = ground arith;
                            moved = rw rows (omega (arith, moved, cds, cks));
                          }
                    ]
          ]
    ]
