-- ===== src/Accounting/Reversed.antt =====
-- What a reversal and new amounts do to an entry's lines (internal/app/repayment_corrections.go).
use kopdes.Base.{
  ℕ, ◌+◌, ◌<◌, ◌≡◌, refl, ◌∙◌, some, true, not, if◌then◌else◌, List, [], ◌∷◌, ◌++◌, map, all_of,
  sum_of, sum_of-append, ok, arith, inl, inr, Result-cases,
}
use kopdes.Base.Text.{Text, text_eq, is_empty}
use kopdes.Accounting.Types.{Line, Entry}
use kopdes.Accounting.Lines.{debit_of, credit_of}
use kopdes.Accounting.Journal.{status_of}
use kopdes.Accounting.Balance.{debits, credits, IsBalanced, HasStatus}
use kopdes.Accounting.Reversal.{
  reversed_line, reversal_totals, reversal_entry, reverse_entry, set_amounts,
}

-- What the lines debit and credit on one account.
abbrev pub debited_on : Text → List Line → ℕ
debited_on code =
    sum_of (λ (l : Line). if text_eq l.coa_code code then debit_of l.side l.amount else 0)

abbrev pub credited_on : Text → List Line → ℕ
credited_on code =
    sum_of (λ (l : Line). if text_eq l.coa_code code then credit_of l.side l.amount else 0)

reversal_totals_lem :
    (d k : ℕ) (ls : List Line) {d' k' : ℕ}
    → reversal_totals d k ls ≡ ok (d', k')
    → (d' ≡ d + debits ls)
      × (k' ≡ k + credits ls)
      × (all_of (λ (l : Line). not (is_empty l.coa_code)) ls ≡ true)
unfolding reversal_totals
reversal_totals_lem d k [] h = ground arith
reversal_totals_lem d k (l ∷ ls) h =
    elim (Result-cases
      (reversal_totals (d + debit_of l.side l.amount) (k + credit_of l.side l.amount) ls)) [
        | inr (x, e) ↦ absurd (ground arith)
        | inl ((d'', k''), e) ↦ ground (
          arith,
          reversal_totals_lem (d + debit_of l.side l.amount) (k + credit_of l.side l.amount) ls e,
        )
      ]

pub debits-reversed : (ls : List Line) → debits (map reversed_line ls) ≡ credits ls
debits-reversed [] = refl
debits-reversed (l ∷ ls) = ground (arith, debits-reversed ls)

pub credits-reversed : (ls : List Line) → credits (map reversed_line ls) ≡ debits ls
credits-reversed [] = refl
credits-reversed (l ∷ ls) = ground (arith, credits-reversed ls)

debited_on-reversed :
    (code : Text) (ls : List Line) → debited_on code (map reversed_line ls) ≡ credited_on code ls
debited_on-reversed code [] = refl
debited_on-reversed code (l ∷ ls) = ground (arith, debited_on-reversed code ls)

credited_on-reversed :
    (code : Text) (ls : List Line) → credited_on code (map reversed_line ls) ≡ debited_on code ls
credited_on-reversed code [] = refl
credited_on-reversed code (l ∷ ls) = ground (arith, credited_on-reversed code ls)

pub all_coded-reversed :
    (ls : List Line)
    → all_of (λ (l : Line). not (is_empty l.coa_code)) ls ≡ true
    → all_of (λ (l : Line). not (is_empty l.coa_code)) (map reversed_line ls) ≡ true
all_coded-reversed [] h = refl
all_coded-reversed (l ∷ ls) h = ground (arith, all_coded-reversed ls)

-- What a reversal's success tells of the entry.
pub reverse_entry_lem :
    (e : Entry) (today prefix actor_id new_id : Text) {r : Entry}
    → reverse_entry e today prefix actor_id new_id ≡ ok r
    → (debits e.lines ≡ e.amount)
      × (credits e.lines ≡ e.amount)
      × (0 < e.amount)
      × (all_of (λ (l : Line). not (is_empty l.coa_code)) e.lines ≡ true)
      × (r ≡ reversal_entry e today prefix actor_id new_id e.amount)
unfolding reverse_entry
reverse_entry_lem e today prefix actor_id new_id {r} h =
    elim (Result-cases (reversal_totals 0 0 e.lines)) [
      | inr (x, bad) ↦ absurd (ground arith)
      | inl ((d, k), s) ↦
          let (ds, ks, coded) = reversal_totals_lem 0 0 e.lines s in
          let total : d ≡ e.amount = ground (arith, s) in
          let same : k ≡ d = ground (arith, s) in
          let row : r ≡ reversal_entry e today prefix actor_id new_id d = ground (arith, s) in
          (
            omega (arith, ds, total),
            omega (arith, ks, total, same),
            ground (arith, s),
            coded,
            rw total at row,
          )
    ]

pub reverse_entry-IsBalanced :
    (e : Entry) (today prefix actor_id new_id : Text) {r : Entry}
    → reverse_entry e today prefix actor_id new_id ≡ ok r
    → IsBalanced r × HasStatus r
reverse_entry-IsBalanced e today prefix actor_id new_id {r} h =
    let (d, k, z, coded, same) = reverse_entry_lem e today prefix actor_id new_id {r = r} h in
    let coded' = all_coded-reversed e.lines coded in
    rw same (
      record {
        debited = debits-reversed e.lines ∙ k;
        credited = credits-reversed e.lines ∙ d;
        is_positive = z;
      },
      rw coded' refl,
    )

-- A reversal cancels its entry on every account: the lines of the two together debit each account by
-- what they credit it. It names the entry it reverses, and it balances.
pub reverse_entry-cancels :
    (e : Entry) (today prefix actor_id new_id : Text) {r : Entry} (code : Text)
    → reverse_entry e today prefix actor_id new_id ≡ ok r
    → (debited_on code (e.lines ++ r.lines) ≡ credited_on code (e.lines ++ r.lines))
      × (r.reversal_of ≡ some e.id)
      × IsBalanced r
reverse_entry-cancels e today prefix actor_id new_id {r} code h =
    let (d, k, z, coded, same) = reverse_entry_lem e today prefix actor_id new_id {r = r} h in
    let balanced = (reverse_entry-IsBalanced e today prefix actor_id new_id {r = r} h).0 in
    let debited =
      sum_of-append (λ (l : Line). if text_eq l.coa_code code then debit_of l.side l.amount else 0)
        e.lines (map reversed_line e.lines) in
    let credited =
      sum_of-append (λ (l : Line). if text_eq l.coa_code code then credit_of l.side l.amount else 0)
        e.lines (map reversed_line e.lines) in
    (
      rw same (
          omega (
            arith,
            debited,
            credited,
            debited_on-reversed code e.lines,
            credited_on-reversed code e.lines,
          )),
      rw same refl,
      balanced,
    )

-- One line on each side.
pub record IsPaired (ls : List Line) : Type 0 where
  pub debits_once : sum_of (λ (l : Line). debit_of l.side 1) ls ≡ 1
  pub credits_once : sum_of (λ (l : Line). credit_of l.side 1) ls ≡ 1

module _ (n : ℕ) where
  set_amounts-none :
      (ls : List Line)
      → (sum_of (λ (l : Line). debit_of l.side 1) ls ≡ 0 → debits (set_amounts n ls) ≡ 0)
        × (sum_of (λ (l : Line). credit_of l.side 1) ls ≡ 0 → credits (set_amounts n ls) ≡ 0)
  set_amounts-none [] = (λ h. refl, λ h. refl)
  set_amounts-none (l ∷ ls) =
      let (d, k) = set_amounts-none ls in (λ h. ground (arith, d), λ h. ground (arith, k))

  set_amounts_debits :
      (ls : List Line)
      → sum_of (λ (l : Line). debit_of l.side 1) ls ≡ 1
      → debits (set_amounts n ls) ≡ n
  set_amounts_debits [] h = absurd (omega (arith, h))
  set_amounts_debits (l ∷ ls) h =
      let d = (set_amounts-none ls).0 in ground (arith, d, set_amounts_debits ls)

  set_amounts_credits :
      (ls : List Line)
      → sum_of (λ (l : Line). credit_of l.side 1) ls ≡ 1
      → credits (set_amounts n ls) ≡ n
  set_amounts_credits [] h = absurd (omega (arith, h))
  set_amounts_credits (l ∷ ls) h =
      let k = (set_amounts-none ls).1 in ground (arith, k, set_amounts_credits ls)

  set_amounts_coded :
      (ls : List Line)
      → all_of (λ (l : Line). not (is_empty l.coa_code)) (set_amounts n ls)
        ≡ all_of (λ (l : Line). not (is_empty l.coa_code)) ls
  set_amounts_coded [] = refl
  set_amounts_coded (l ∷ ls) = ground (arith, set_amounts_coded ls)

  pub set_amounts-status : (ls : List Line) → status_of (set_amounts n ls) ≡ status_of ls
  set_amounts-status ls = rw (set_amounts_coded ls) refl

  pub set_amounts-IsPaired : (ls : List Line) → IsPaired ls → IsPaired (set_amounts n ls)
  set_amounts-IsPaired ls p = record {
    debits_once = same_debits ls ∙ p.debits_once;
    credits_once = same_credits ls ∙ p.credits_once;
  }
    where
      same_debits :
          (ls : List Line)
          → sum_of (λ (l : Line). debit_of l.side 1) (set_amounts n ls)
            ≡ sum_of (λ (l : Line). debit_of l.side 1) ls
      same_debits [] = refl
      same_debits (l ∷ ls) = omega (arith, same_debits ls)

      same_credits :
          (ls : List Line)
          → sum_of (λ (l : Line). credit_of l.side 1) (set_amounts n ls)
            ≡ sum_of (λ (l : Line). credit_of l.side 1) ls
      same_credits [] = refl
      same_credits (l ∷ ls) = omega (arith, same_credits ls)

-- Two lines with new amounts balance.
pub set_amounts-balanced :
    (n : ℕ) (ls : List Line)
    → IsPaired ls
    → (debits (set_amounts n ls) ≡ n) × (credits (set_amounts n ls) ≡ n)
set_amounts-balanced n ls p =
    (set_amounts_debits n ls p.debits_once, set_amounts_credits n ls p.credits_once)

-- The lines of a reversal are paired where the entry's are.
pub reversed-IsPaired : (ls : List Line) → IsPaired ls → IsPaired (map reversed_line ls)
reversed-IsPaired ls p = record {
  debits_once = swapped_debits ls ∙ p.credits_once;
  credits_once = swapped_credits ls ∙ p.debits_once;
}
  where
    swapped_debits :
        (ls : List Line)
        → sum_of (λ (l : Line). debit_of l.side 1) (map reversed_line ls)
          ≡ sum_of (λ (l : Line). credit_of l.side 1) ls
    swapped_debits [] = refl
    swapped_debits (l ∷ ls) = ground (arith, swapped_debits ls)

    swapped_credits :
        (ls : List Line)
        → sum_of (λ (l : Line). credit_of l.side 1) (map reversed_line ls)
          ≡ sum_of (λ (l : Line). debit_of l.side 1) ls
    swapped_credits [] = refl
    swapped_credits (l ∷ ls) = ground (arith, swapped_credits ls)
