-- ===== src/ManualCash/Counted.antt =====
-- Manual cash transactions against the ledger (internal/app/manual_cash_transactions.go).
use kopdes.Base.{
  ℕ, ◌+◌, ◌≡◌, refl, true, if◌then◌else◌, pos, sub_ℕ, equal_ℤ, none, List, [], ◌∷◌, ◌++◌, sum_of,
  sum_of-append, ok, arith, inl, inr, Bool-cases, Result-cases,
}
use kopdes.Base.Text.{
  Text, codes, text_eq, text_eq_refl, to_lower, trim_space, trim_left, trim_right, is_space,
}
use kopdes.Calendar.{Date}
use kopdes.Accounting.Types.{CoaAccount, Ledger, LineInput, Entry}
use kopdes.Accounting.Lines.{CheckedLine, read_side, check_lines, balanced_lines, journal_lines}
use kopdes.Accounting.Journal.{
  create_financial_journal, write_entry, entry_of, entry_row, post_lines,
}
use kopdes.Accounting.Balance.{AllBalanced, create_financial_journal-AllBalanced}
use kopdes.ManualCash.{CashTransaction, CashDesk, moved_in, moved_out}
use kopdes.ManualCash.Reversed.{cash_debits, cash_credits, total_in, total_out}
use kopdes.ManualCash.Posting.{
  ManualRequest, EntryType, Sums, manual_entries, manual_journal, insert_row, manual_row,
  choose_reference, insert_manual_cash_transaction,
}
use kopdes.ManualCash.Moved.{manual_lines-moved}

abbrev pub manual_type : Text
manual_type = codes "manual"

-- The cash that the manual journals debit and credit.
abbrev pub journals_in : List CoaAccount → List Entry → ℕ
journals_in accounts = sum_of (λ (e : Entry).
    if text_eq e.transaction_type manual_type then cash_debits accounts e.lines else 0)

abbrev pub journals_out : List CoaAccount → List Entry → ℕ
journals_out accounts = sum_of (λ (e : Entry).
    if text_eq e.transaction_type manual_type then cash_credits accounts e.lines else 0)

-- The manual cash transactions count, net, the cash that the manual journals move.
pub record IsCounted (desk : CashDesk) : Type 0 where
  pub counted :
      total_in desk.transactions + journals_out desk.ledger.accounts desk.ledger.entries
      ≡ total_out desk.transactions + journals_in desk.ledger.accounts desk.ledger.entries

insert_row_lem :
    (desk : CashDesk) (req : ManualRequest) (d k : ℕ) (id reference recorded_by : Text)
    {rows : List CashTransaction}
    → insert_row desk req (sub_ℕ d k) id reference recorded_by ≡ ok rows
    → total_in rows + total_out desk.transactions + k
      ≡ total_in desk.transactions + total_out rows + d
unfolding insert_row
insert_row_lem desk req d k id reference recorded_by {rows} h =
    elim (Bool-cases (equal_ℤ (sub_ℕ d k) (pos 0))) [
      | inl nothing ↦
          let same : rows ≡ desk.transactions = ground arith in
          let level : d ≡ k = ground arith in rw same (omega (arith, level))
      | inr moved ↦
          let row = manual_row req (sub_ℕ d k) id reference recorded_by in
          let same : rows ≡ desk.transactions ++ row ∷ [] = ground arith in
          let ins = sum_of-append moved_in desk.transactions (row ∷ []) in
          let outs = sum_of-append moved_out desk.transactions (row ∷ []) in
          let net : moved_in row + k ≡ moved_out row + d = ground arith in
          rw same (omega (arith, ins, outs, net))
    ]

manual_type_as_is : to_lower (trim_space manual_type) ≡ manual_type
unfolding to_lower trim_space trim_left trim_right is_space
manual_type_as_is = refl

no_side : read_side (to_lower (trim_space [])) ≡ none
unfolding read_side to_lower trim_space trim_left trim_right text_eq
no_side = refl

manual_checked_lines :
    (req : ManualRequest) (id reference recorded_by : Text) (n : ℕ) (ins : List LineInput)
    {cs : List CheckedLine} {total : ℕ}
    → balanced_lines (manual_journal req id reference recorded_by n ins) ≡ ok (cs, total)
    → (d : ℕ) × (k : ℕ) × (check_lines 0 0 ins ≡ ok (cs, d, k))
unfolding balanced_lines journal_lines
manual_checked_lines req id reference recorded_by n [] h = absurd (ground (arith, no_side))
manual_checked_lines req id reference recorded_by n (i ∷ ins) h =
    elim (Result-cases (check_lines 0 0 (i ∷ ins))) [
      | inr (x, bad) ↦ absurd (ground arith)
      | inl ((cs', d, k), e) ↦ (d, k, ground (arith, e))
    ]

-- The entry of a manual journal.
manual_journal-entry :
    (ledger : Ledger) (req : ManualRequest) (id reference recorded_by journal_id : Text) (t : Sums)
    (ins : List LineInput) {ledger' : Ledger}
    → manual_entries ledger
        (record { debits = 0; credits = 0; cash_debits = 0; cash_credits = 0 })
        req.lines
      ≡ ok (t, ins)
    → create_financial_journal ledger
        (manual_journal req id reference recorded_by t.debits ins)
        journal_id
      ≡ ok ledger'
    → entry_of id manual_type ledger.entries ≡ none
    → (c : Entry) × (ledger'.entries ≡ ledger.entries ++ c ∷ [])
      × (ledger'.accounts ≡ ledger.accounts)
      × (c.transaction_type ≡ manual_type)
      × (c.reversal_of ≡ none)
      × (cash_debits ledger.accounts c.lines ≡ t.cash_debits)
      × (cash_credits ledger.accounts c.lines ≡ t.cash_credits)
unfolding create_financial_journal write_entry entry_row
manual_journal-entry ledger req id reference recorded_by journal_id t ins {ledger'} h created
      unused =
    let input = manual_journal req id reference recorded_by t.debits ins in
    let unused' : entry_of id (to_lower (trim_space manual_type)) ledger.entries ≡ none =
      rw manual_type_as_is unused in
    elim (Result-cases (balanced_lines input)) [
      | inr (x, bad) ↦ absurd (ground arith)
      | inl ((cs, total), balanced) ↦ elim (Result-cases (post_lines ledger input cs)) [
        | inr (x, bad) ↦ absurd (ground (arith, unused'))
        | inl (ls, lined) ↦
            let (d, k, checked) =
              manual_checked_lines req id reference recorded_by t.debits ins {cs = cs}
                {total = total} balanced in
            let (into, out) =
              manual_lines-moved ledger input req.lines 0 0 {t = t} {ins = ins} {d' = d} {k' = k}
                {cs = cs} {posted_lines = ls} h checked lined in
            (
              entry_row input journal_id none total ls,
              ground (arith, unused'),
              ground (arith, unused'),
              manual_type_as_is,
              refl,
              into,
              out,
            )
      ]
    ]

-- What a successful insertion does to the tables.
pub record Inserts (desk desk' : CashDesk) : Type 0 where
  pub entry : Entry
  pub entries : desk'.ledger.entries ≡ desk.ledger.entries ++ entry ∷ []
  accounts : desk'.ledger.accounts ≡ desk.ledger.accounts
  of_type : entry.transaction_type ≡ manual_type
  pub original : entry.reversal_of ≡ none
  moved :
      total_in desk'.transactions
        + total_out desk.transactions
        + cash_credits desk.ledger.accounts entry.lines
      ≡ total_in desk.transactions
        + total_out desk'.transactions
        + cash_debits desk.ledger.accounts entry.lines
  balanced : AllBalanced desk.ledger → AllBalanced desk'.ledger

pub insert_manual_cash_transaction-Inserts :
    (desk : CashDesk) (req : ManualRequest) (recorded_by : Text) (entry_type : EntryType)
    (today : Date) (id journal_id : Text) {desk' : CashDesk}
    → insert_manual_cash_transaction desk req recorded_by entry_type today id journal_id ≡ ok desk'
    → entry_of id manual_type desk.ledger.entries ≡ none
    → Inserts desk desk'
unfolding insert_manual_cash_transaction
insert_manual_cash_transaction-Inserts desk req recorded_by entry_type today id journal_id {desk'} h
      unused =
    let zeros : Sums = record { debits = 0; credits = 0; cash_debits = 0; cash_credits = 0 } in
    elim (Result-cases (manual_entries desk.ledger zeros req.lines)) [
      | inr (x, bad) ↦ absurd (ground arith)
      | inl ((t, ins), summed) ↦ elim (Result-cases (choose_reference desk req)) [
        | inr (x, bad) ↦ absurd (ground arith)
        | inl ((reference, sequences), chosen) ↦
            let net = sub_ℕ t.cash_debits t.cash_credits in
            elim (Result-cases (insert_row desk req net id reference recorded_by)) [
              | inr (x, bad) ↦ absurd (ground arith)
              | inl (rows, inserted) ↦
                  let journal = manual_journal req id reference recorded_by t.debits ins in
                  elim (Result-cases (create_financial_journal desk.ledger journal journal_id)) [
                    | inr (x, bad) ↦ absurd (ground arith)
                    | inl (ledger', created) ↦
                        let (c, entries, accounts, kind, original, into, out) =
                          manual_journal-entry desk.ledger req id reference recorded_by journal_id t
                            ins {ledger' = ledger'} summed created unused in
                        let moved =
                          insert_row_lem desk req t.cash_debits t.cash_credits id reference
                            recorded_by {rows = rows} inserted in
                        let ledger_is : desk'.ledger ≡ ledger' = ground arith in
                        let rows_are : desk'.transactions ≡ rows = ground arith in
                        record {
                          entry = c;
                          entries = rw ledger_is entries;
                          accounts = rw ledger_is accounts;
                          of_type = kind;
                          original = original;
                          moved = rw rows_are (omega (arith, moved, into, out));
                          balanced = λ all. rw ledger_is (
                              create_financial_journal-AllBalanced desk.ledger journal journal_id
                                created all);
                        }
                  ]
            ]
      ]
    ]

-- If the manual cash transactions count, net of in and out, exactly the cash that the manual
-- journals debit, net of what they credit, then so they do after one is inserted, under an
-- identifier that no manual journal has; and if every journal balances, so it does after it.
pub insert_manual_cash_transaction-IsCounted :
    (desk : CashDesk) (req : ManualRequest) (recorded_by : Text) (entry_type : EntryType)
    (today : Date) (id journal_id : Text) {desk' : CashDesk}
    → insert_manual_cash_transaction desk req recorded_by entry_type today id journal_id ≡ ok desk'
    → entry_of id manual_type desk.ledger.entries ≡ none
    → IsCounted desk × AllBalanced desk.ledger
    → IsCounted desk' × AllBalanced desk'.ledger
insert_manual_cash_transaction-IsCounted desk req recorded_by entry_type today id journal_id {desk'}
      h unused (c, all) =
    let w =
      insert_manual_cash_transaction-Inserts desk req recorded_by entry_type today id journal_id
        {desk' = desk'} h unused in
    let accounts = desk.ledger.accounts in
    let into =
      sum_of-append
        (λ (e : Entry).
          if text_eq e.transaction_type manual_type then cash_debits accounts e.lines else 0)
        desk.ledger.entries (w.entry ∷ []) in
    let out =
      sum_of-append
        (λ (e : Entry).
          if text_eq e.transaction_type manual_type then cash_credits accounts e.lines else 0)
        desk.ledger.entries (w.entry ∷ []) in
    let manual : text_eq w.entry.transaction_type manual_type ≡ true =
      rw w.of_type (text_eq_refl manual_type) in
    let into' = rw manual at into in
    let out' = rw manual at out in
    (
      record {
        counted = rw (w.accounts, w.entries) (omega (arith, into', out', w.moved, c.counted));
      },
      w.balanced all,
    )
