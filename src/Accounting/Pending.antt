-- ===== src/Accounting/Pending.antt =====
-- Journals that wait for a mapping: `resolvePendingFinancialJournalsTx` of
-- internal/app/accounting.go. The code goes through them by date, which tells only the error that is
-- met first; here they stand in the order of their creation.
use kopdes.Base.{not, Bool, ◌&&◌, if◌then◌else◌, List, [], ◌∷◌, all_of, ok, ◌>>=◌}
use kopdes.Base.Text.{is_empty}
use kopdes.Accounting.Types.{Line, Entry, posted, pending_mapping, Ledger, Journaled}
use kopdes.Accounting.Mapping.{MappingKey, coa_account_for_posting, accounting_mapping_coa_code}
use kopdes.Accounting.Reversal.{has_no_lines}

abbrev pub key_of_line : Entry → Line → MappingKey
key_of_line e l = record {
  transaction_type = e.transaction_type;
  component = l.component;
  category = e.category;
  loan_type = e.loan_type;
  date = e.transaction_date;
}

-- A line without an account gets that of the mapping, if there is one.
unfoldable pub resolve_line : Ledger → Entry → Line → Journaled Line
resolve_line ledger e l =
    let code = accounting_mapping_coa_code ledger (key_of_line e l) in
    let mapped = coa_account_for_posting ledger code >>= λ _. ok (record l { coa_code = code }) in
    if is_empty l.coa_code then (if is_empty code then ok l else mapped) else ok l

unfoldable pub resolve_lines : Ledger → Entry → List Line → Journaled (List Line)
resolve_lines ledger e [] = ok []
resolve_lines ledger e (l ∷ ls) = do
  l' ← resolve_line ledger e l
  ls' ← resolve_lines ledger e ls
  ok (l' ∷ ls')

abbrev pub all_coded : List Line → Bool
all_coded = all_of (λ (l : Line). not (is_empty l.coa_code))

-- An entry is posted if it had an account on every line before the call: `allMapped` is false from
-- the start where a line is to be resolved.
unfoldable pub resolve_entry : Ledger → Entry → Journaled Entry
resolve_entry ledger e =
    let resolved : Journaled Entry = (do
      lines ← resolve_lines ledger e e.lines
      ok (record e {
        lines = lines;
        status =
            if not (has_no_lines e.lines) && all_coded e.lines then posted else pending_mapping;
      })) in
    elim e.status [ posted ↦ ok e | pending_mapping ↦ resolved ]

unfoldable pub resolve_entries : Ledger → List Entry → Journaled (List Entry)
resolve_entries ledger [] = ok []
resolve_entries ledger (e ∷ es) = do
  e' ← resolve_entry ledger e
  es' ← resolve_entries ledger es
  ok (e' ∷ es')

-- `resolvePendingFinancialJournalsTx`
unfoldable pub resolve_pending_journals : Ledger → Journaled Ledger
resolve_pending_journals ledger = do
  entries ← resolve_entries ledger ledger.entries
  ok (record ledger { entries = entries })
