-- ===== src/Accounting/Lines.antt =====
-- The lines that a journal's input stands for, and the check that they balance: the first half of
-- `createFinancialJournalTx` of internal/app/accounting.go.
use kopdes.Base.{
  ℕ, ◌+◌, ◌-◌, not, ◌||◌, ltb, ◌==◌, if◌then◌else◌, Option, none, some, List, [], ◌∷◌, map,
  max_int64, ok, ◌>>=◌, ◌>>◌, reject_if, found, positive,
}
use kopdes.Base.Text.{Text, codes, text_eq, trim_space, to_lower, is_empty}
use kopdes.Accounting.Types.{
  Side, debit, credit, JournalComponent, LineInput, JournalInput, Journaled,
  invalid_manual_cash_transaction, invalid_accounting_direction, unbalanced_financial_journal,
}

-- A line after the loop's normalisation and guards.
pub record CheckedLine : Type 0 where
  pub component : Text
  pub side : Side
  pub coa_code : Text
  pub amount : ℕ

-- `validAccountingDirection` with the side that it admits.
unfoldable pub read_side : Text → Option Side
read_side t =
    if text_eq t (codes "debit")
    then some debit
    else (if text_eq t (codes "credit") then some credit else none)

-- `normalizeTransactionSource` and the fall-back to the bank of a source that is not valid.
unfoldable pub normal_source : Text → Text
normal_source source =
    let value = to_lower (trim_space source) in
    if text_eq value (codes "cash") then codes "cash" else codes "bank"

-- `sourceCOACode`
unfoldable pub source_coa_code : Text → Text
source_coa_code source = if text_eq source (codes "cash") then codes "CASH" else codes "BANK"

-- The two lines of an input that names a direction and an account only.
unfoldable pub direction_lines : JournalInput → Text → Side → List LineInput
direction_lines input source side =
    let code = trim_space input.coa_code in
    let bank = source_coa_code source in
    let debit_code : Text = elim side [ debit ↦ bank | credit ↦ code ] in
    let credit_code : Text = elim side [ debit ↦ code | credit ↦ bank ] in
    record {
      component = codes "source";
      side = codes "debit";
      coa_code = debit_code;
      amount = input.amount;
    }
    ∷ record {
      component = codes "counterpart";
      side = codes "credit";
      coa_code = credit_code;
      amount = input.amount;
    }
    ∷ []

abbrev line_of_component : JournalComponent → LineInput
line_of_component c = record {
  component = c.component;
  side = c.side;
  coa_code = [];
  amount = c.amount;
}

-- The lines given, else those of the components, else those of the direction.
abbrev pub choose_lines :
    JournalInput → List LineInput → List JournalComponent → Journaled (List LineInput)
choose_lines input (l ∷ ls) components = ok (l ∷ ls)
choose_lines input [] (c ∷ cs) = ok (map line_of_component (c ∷ cs))
choose_lines input [] [] = do
  side ← found (read_side (to_lower (trim_space input.direction))) invalid_accounting_direction
  ok (direction_lines input (normal_source input.source) side)

unfoldable pub journal_lines : JournalInput → Journaled (List LineInput)
unfolding read_side direction_lines
journal_lines input = choose_lines input input.lines input.components

unfoldable pub check_line : LineInput → Journaled CheckedLine
unfolding read_side
check_line l = do
  let component = to_lower (trim_space l.component)
  reject_if (is_empty component) invalid_manual_cash_transaction
  side ← found (read_side (to_lower (trim_space l.side))) invalid_manual_cash_transaction
  amount ← positive l.amount invalid_manual_cash_transaction
  ok (record {
    component = component;
    side = side;
    coa_code = trim_space l.coa_code;
    amount = amount;
  })

abbrev pub debit_of : Side → ℕ → ℕ
debit_of debit amount = amount
debit_of credit amount = 0

abbrev pub credit_of : Side → ℕ → ℕ
credit_of debit amount = 0
credit_of credit amount = amount

-- The loop: the checked lines and both totals, each kept within int64.
unfoldable pub check_lines : ℕ → ℕ → List LineInput → Journaled (List CheckedLine × ℕ × ℕ)
check_lines debits credits [] = ok ([], debits, credits)
check_lines debits credits (l ∷ ls) =
    let onward = λ (c : CheckedLine).
      let total : ℕ = elim c.side [ debit ↦ debits | credit ↦ credits ] in
      let rest : Journaled (List CheckedLine × ℕ × ℕ) =
        check_lines (debits + debit_of c.side c.amount) (credits + credit_of c.side c.amount) ls in
      reject_if (ltb (max_int64 - total) c.amount) unbalanced_financial_journal
      >> (rest >>= λ (cs, d, k). ok (c ∷ cs, d, k)) in
    check_line l >>= onward

-- The checked lines with the total of the debits, which is that of the credits.
unfoldable pub balanced_lines : JournalInput → Journaled (List CheckedLine × ℕ)
unfolding journal_lines check_lines
balanced_lines input = do
  lines ← journal_lines input
  (checked, debits, credits) ← check_lines 0 0 lines
  reject_if (debits == 0 || not (debits == credits)) unbalanced_financial_journal
  ok (checked, debits)
