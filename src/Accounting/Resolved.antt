-- ===== src/Accounting/Resolved.antt =====
-- What `resolvePendingFinancialJournalsTx` of internal/app/accounting.go makes of a ledger.
use kopdes.Base.{
  ◌≡◌, refl, ◌∙◌, true, false, List, [], ◌∷◌, All, ok, arith, inl, inr, Bool-cases, Result-cases,
}
use kopdes.Base.Text.{is_empty}
use kopdes.Accounting.Types.{Line, Entry, JournalStatus, posted, pending_mapping, Ledger}
use kopdes.Accounting.Mapping.{accounting_mapping_coa_code, coa_account_for_posting}
use kopdes.Accounting.Reversal.{has_no_lines}
use kopdes.Accounting.Balance.{debits, credits, IsBalanced, HasStatus, AllBalanced}
use kopdes.Accounting.Pending.{
  key_of_line, resolve_line, resolve_lines, resolve_entry, resolve_entries,
  resolve_pending_journals, all_coded,
}

-- Lines whose missing accounts no mapping has.
abbrev Settled : Ledger → Entry → List Line → Type 0
Settled ledger e = All (λ (l : Line).
    is_empty l.coa_code ≡ true
    → is_empty (accounting_mapping_coa_code ledger (key_of_line e l)) ≡ true)

resolve_line_lem :
    (ledger : Ledger) (e : Entry) (l : Line) {l' : Line}
    → resolve_line ledger e l ≡ ok l'
    → (l'.side ≡ l.side)
      × (l'.amount ≡ l.amount)
      × (is_empty l'.coa_code ≡ true
          → is_empty (accounting_mapping_coa_code ledger (key_of_line e l')) ≡ true)
unfolding resolve_line
resolve_line_lem ledger e l {l'} h = elim (Bool-cases (is_empty l.coa_code)) [
  | inr own ↦ let same : l' ≡ l = ground arith in rw same (refl, refl, λ blank. ground arith)
  | inl blank ↦
      let code = accounting_mapping_coa_code ledger (key_of_line e l) in
      elim (Bool-cases (is_empty code)) [
        | inl unmapped ↦ let same : l' ≡ l = ground arith in rw same (refl, refl, λ _. unmapped)
        | inr mapped ↦ elim (Result-cases (coa_account_for_posting ledger code)) [
          | inr (x, bad) ↦ absurd (ground arith)
          | inl (a, found) ↦
              let same : l' ≡ record l { coa_code = code } = ground arith in
              rw same (refl, refl, λ empty. ground (arith, empty, mapped))
        ]
      ]
]

resolve_lines_lem :
    (ledger : Ledger) (e : Entry) (ls : List Line) {ls' : List Line}
    → resolve_lines ledger e ls ≡ ok ls'
    → (debits ls' ≡ debits ls) × (credits ls' ≡ credits ls) × Settled ledger e ls'
unfolding resolve_lines
resolve_lines_lem ledger e [] {ls'} h =
    let nothing : ls' ≡ [] = ground arith in rw nothing (refl, refl, tt)
resolve_lines_lem ledger e (l ∷ ls) {ls'} h = elim (Result-cases (resolve_line ledger e l)) [
  | inr (x, bad) ↦ absurd (ground arith)
  | inl (l', first) ↦ elim (Result-cases (resolve_lines ledger e ls)) [
    | inr (x, bad) ↦ absurd (ground arith)
    | inl (ls'', rest) ↦
        let whole : ls' ≡ l' ∷ ls'' = ground arith in
        let (side, amount, settled) = resolve_line_lem ledger e l {l' = l'} first in
        let (d, k, all) = resolve_lines_lem ledger e ls {ls' = ls''} rest in
        rw whole (ground (arith, side, amount, d), ground (arith, side, amount, k), (settled, all))
  ]
]

-- Settled lines stay as they are.
resolve_lines-Settled :
    (ledger : Ledger) (e : Entry) (ls : List Line) {ls' : List Line}
    → resolve_lines ledger e ls ≡ ok ls'
    → Settled ledger e ls
    → ls' ≡ ls
unfolding resolve_lines resolve_line
resolve_lines-Settled ledger e [] {ls'} h s = ground arith
resolve_lines-Settled ledger e (l ∷ ls) {ls'} h s =
    let first : resolve_line ledger e l ≡ ok l = elim (Bool-cases (is_empty l.coa_code)) [
      | inl blank ↦ ground (arith, s.0 blank)
      | inr own ↦ ground arith
    ] in
    elim (Result-cases (resolve_lines ledger e ls)) [
      | inr (x, bad) ↦ absurd (ground (arith, first))
      | inl (ls'', rest) ↦
          let same = resolve_lines-Settled ledger e ls {ls' = ls''} rest s.1 in
          ground (arith, first, same)
    ]

-- One entry through two calls.
module _ (ledger : Ledger) (between : List Entry) where
  abbrev after : Ledger
  after = record ledger { entries = between }

  twice_as :
      (e : Entry) {e' e'' : Entry} (status : JournalStatus)
      → e.status ≡ status
      → resolve_entry ledger e ≡ ok e'
      → resolve_entry after e' ≡ ok e''
      → IsBalanced e × HasStatus e
      → IsBalanced e'' × HasStatus e''
  unfolding resolve_entry accounting_mapping_coa_code
  twice_as e {e'} {e''} posted is h k v =
      let same : e' ≡ e = ground arith in let same' : e'' ≡ e = ground (arith, same) in rw same' v
  twice_as e {e'} {e''} pending_mapping is h k v =
      elim (Result-cases (resolve_lines ledger e e.lines)) [
        | inr (x, bad) ↦ absurd (ground arith)
        | inl (ls, first) ↦
            let missing : all_coded e.lines ≡ false = ground (arith, v.1) in
            let once : e' ≡ record e { lines = ls; status = pending_mapping } = ground arith in
            let (d, c, settled) = resolve_lines_lem ledger e e.lines {ls' = ls} first in
            elim (Result-cases (resolve_lines after e' e'.lines)) [
              | inr (x, bad) ↦ absurd (ground (arith, once))
              | inl (ls', second) ↦
                  let second' : resolve_lines after
                        (record e { lines = ls; status = pending_mapping }) ls
                      ≡ ok ls' =
                    rw once at second in
                  let same =
                    resolve_lines-Settled after (record e { lines = ls; status = pending_mapping })
                      ls {ls' = ls'} second' settled in
                  let is_there : has_no_lines ls ≡ false = some_lines ls v.0 d in
                  let lines' : e''.lines ≡ ls = ground (arith, once, second', same) in
                  let amount' : e''.amount ≡ e.amount = ground (arith, once, second') in
                  (
                    record {
                      debited = rw (lines', amount') (d ∙ v.0.debited);
                      credited = rw (lines', amount') (c ∙ v.0.credited);
                      is_positive = rw amount' v.0.is_positive;
                    },
                    rw lines' (ground (arith, once, second', is_there)),
                  )
            ]
      ]
    where
      some_lines :
          (ls : List Line) → IsBalanced e → debits ls ≡ debits e.lines → has_no_lines ls ≡ false
      some_lines [] b d = absurd (omega (arith, d, b.debited, b.is_positive))
      some_lines (l ∷ ls) b d = refl

entries_twice :
    (ledger : Ledger) (between es : List Entry) {es' es'' : List Entry}
    → resolve_entries ledger es ≡ ok es'
    → resolve_entries (record ledger { entries = between }) es' ≡ ok es''
    → All (λ (e : Entry). IsBalanced e × HasStatus e) es
    → All (λ (e : Entry). IsBalanced e × HasStatus e) es''
unfolding resolve_entries
entries_twice ledger between [] {es'} {es''} h k v =
    let nothing : es' ≡ [] = ground arith in
    let nothing' : es'' ≡ [] = ground (arith, rw nothing at k) in rw nothing' tt
entries_twice ledger between (e ∷ es) {es'} {es''} h k v =
    elim (Result-cases (resolve_entry ledger e)) [
      | inr (x, bad) ↦ absurd (ground arith)
      | inl (e', first) ↦ elim (Result-cases (resolve_entries ledger es)) [
        | inr (x, bad) ↦ absurd (ground arith)
        | inl (rest, done) ↦
            let ledger' = record ledger { entries = between } in
            let whole : es' ≡ e' ∷ rest = ground arith in
            let k' = rw whole at k in
            elim (Result-cases (resolve_entry ledger' e')) [
              | inr (x, bad) ↦ absurd (ground (arith, k'))
              | inl (e'', second) ↦ elim (Result-cases (resolve_entries ledger' rest)) [
                | inr (x, bad) ↦ absurd (ground (arith, k'))
                | inl (rest', done') ↦
                    let whole' : es'' ≡ e'' ∷ rest' = ground (arith, k') in
                    rw whole' (
                      twice_as ledger between e {e' = e'} {e'' = e''} e.status refl first second
                          v.0,
                      entries_twice ledger between es {es' = rest} {es'' = rest'} done done' v.1,
                    )
              ]
            ]
      ]
    ]

-- Two calls in a row leave a ledger in order: if every entry balances and is posted exactly when each
-- of its lines has an account, then so it is after the second call. After the first alone it may not
-- be, since that call gives accounts to lines and leaves the entry pending.
pub resolve_pending_journals_twice :
    (ledger : Ledger) {ledger' ledger'' : Ledger}
    → resolve_pending_journals ledger ≡ ok ledger'
    → resolve_pending_journals ledger' ≡ ok ledger''
    → AllBalanced ledger
    → AllBalanced ledger''
unfolding resolve_pending_journals
resolve_pending_journals_twice ledger {ledger'} {ledger''} h k v =
    elim (Result-cases (resolve_entries ledger ledger.entries)) [
      | inr (x, bad) ↦ absurd (ground arith)
      | inl (es, first) ↦
          let once : ledger' ≡ record ledger { entries = es } = ground arith in
          let k' = rw once at k in
          elim (Result-cases (resolve_entries (record ledger { entries = es }) es)) [
            | inr (x, bad) ↦ absurd (ground (arith, k'))
            | inl (es', second) ↦
                let rows : ledger''.entries ≡ es' = ground (arith, k') in
                rw rows
                  (entries_twice ledger es ledger.entries {es' = es} {es'' = es'} first second v)
          ]
    ]

-- The entries of a ledger before and after one call: one that is posted stays, and one that waits with
-- a line that has no account still waits.
abbrev pub Leaves : List Entry → List Entry → Type 0
Leaves [] [] = Unit
Leaves (e ∷ es) (e' ∷ es') =
    (e'.id ≡ e.id)
    × (e.status ≡ posted → e' ≡ e)
    × (e.status ≡ pending_mapping → all_coded e.lines ≡ false → e'.status ≡ pending_mapping)
    × Leaves es es'
Leaves _ _ = ⊥

resolve_entry_lem :
    (ledger : Ledger) (e : Entry) {e' : Entry} (status : JournalStatus)
    → e.status ≡ status
    → resolve_entry ledger e ≡ ok e'
    → (e'.id ≡ e.id)
      × (e.status ≡ posted → e' ≡ e)
      × (e.status ≡ pending_mapping → all_coded e.lines ≡ false → e'.status ≡ pending_mapping)
unfolding resolve_entry
resolve_entry_lem ledger e {e'} posted is h =
    let same : e' ≡ e = ground arith in rw same (refl, (λ _. refl), λ waits _. waits)
resolve_entry_lem ledger e {e'} pending_mapping is h =
    elim (Result-cases (resolve_lines ledger e e.lines)) [
      | inr (x, bad) ↦ absurd (ground arith)
      | inl (ls, done) ↦ (ground arith, (λ was. absurd (ground arith)), λ waits blank. ground arith)
    ]

entries-Leaves :
    (ledger : Ledger) (es : List Entry) {es' : List Entry}
    → resolve_entries ledger es ≡ ok es'
    → Leaves es es'
unfolding resolve_entries
entries-Leaves ledger [] {es'} h = let nothing : es' ≡ [] = ground arith in rw nothing tt
entries-Leaves ledger (e ∷ es) {es'} h = elim (Result-cases (resolve_entry ledger e)) [
  | inr (x, bad) ↦ absurd (ground arith)
  | inl (e', first) ↦ elim (Result-cases (resolve_entries ledger es)) [
    | inr (x, bad) ↦ absurd (ground arith)
    | inl (rest, done) ↦
        let whole : es' ≡ e' ∷ rest = ground arith in
        let (id, stays, waits) = resolve_entry_lem ledger e {e' = e'} e.status refl first in
        rw whole (id, stays, waits, entries-Leaves ledger es {es' = rest} done)
  ]
]

-- One call touches no posted entry, and posts none that had a line without an account, though a
-- mapping may have given every line one.
pub resolve_pending_journals-Leaves :
    (ledger : Ledger) {ledger' : Ledger}
    → resolve_pending_journals ledger ≡ ok ledger'
    → Leaves ledger.entries ledger'.entries
unfolding resolve_pending_journals
resolve_pending_journals-Leaves ledger {ledger'} h =
    elim (Result-cases (resolve_entries ledger ledger.entries)) [
      | inr (x, bad) ↦ absurd (ground arith)
      | inl (es, done) ↦
          let rows : ledger'.entries ≡ es = ground arith in
          rw rows (entries-Leaves ledger ledger.entries {es' = es} done)
    ]
