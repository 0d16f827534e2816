-- ===== src/Repayments/Corrected.antt =====
-- The loans after a recomputation from changed repayments
-- (internal/app/repayment_corrections.go).
use kopdes.Base.{
  ℕ, zero, suc, ◌+◌, ◌≤◌, ◌<◌, ◌≡◌, refl, sym, ap, ◌∙◌, Bool, false, ℤ, pos, some, List, [], ◌∷◌,
  map, keep, sum, All, ok, arith, inl, inr, Bool-cases, Option-cases, Result-cases,
}
use kopdes.Base.Text.{Text, text_eq, text_ltb, text_eq→eq}
use kopdes.Base.Table.{find, update, IsKeyed, IsKeyed-update, All-find, All-update_one}
use kopdes.Allocation.{Rows, allocate_one}
use kopdes.Allocation.Refines.{AllPositive}
use kopdes.Repayments.Types.{Loan, LoanStatus, Repayment, key_of_loan, next_due}
use kopdes.Repayments.Refresh.{cleared, refresh_rows, refresh_schedule, reopened}
use kopdes.Repayments.Current.{IsCurrent}
use kopdes.Repayments.Kept.{amounts_of, IsCurrent-sum}
use kopdes.Repayments.Recomputed.{refresh_schedule-IsCurrent}
use kopdes.Repayments.Corrections.{
  insert_by_date, by_date, payments_of, refresh_loan, has_other_active,
}

refresh_rows_total :
    (rows : Rows) (a : ℕ) (amounts : List ℕ) {rows' : Rows} {t : ℕ}
    → AllPositive amounts
    → refresh_rows rows a (map pos amounts) ≡ ok (rows', t)
    → t ≡ a + sum amounts
unfolding refresh_rows
refresh_rows_total rows a [] p h = ground arith
refresh_rows_total rows a (zero ∷ amounts) p h = absurd (omega (arith, p.0))
refresh_rows_total rows a (suc n ∷ amounts) {rows'} {t} p h =
    let next = (allocate_one (suc n) rows).0 in
    let rest : refresh_rows next (a + suc n) (map pos amounts) ≡ ok (rows', t) = ground arith in
    omega (arith, refresh_rows_total next (a + suc n) amounts p.1 rest)

-- What a successful recomputation tells of the loan and its payments.
refresh_schedule-guards :
    (loan : Loan) (amounts : List ℕ) (another : Bool) {loan' : Loan}
    → AllPositive amounts
    → refresh_schedule loan (map pos amounts) another ≡ ok loan'
    → (sum amounts ≤ loan.total_obligation)
      × (sum amounts < loan.total_obligation
          → (status : LoanStatus) × (reopened loan.status another ≡ ok status))
      × (loan'.id ≡ loan.id)
unfolding refresh_schedule
refresh_schedule-guards loan amounts another {loan'} p h =
    elim (Result-cases (refresh_rows (cleared loan.installments) 0 (map pos amounts))) [
      | inr (x, bad) ↦ absurd (ground arith)
      | inl ((rows, t), e) ↦
          let total = refresh_rows_total (cleared loan.installments) 0 amounts p e in
          elim (Result-cases (reopened loan.status another)) [
            | inl (status, s) ↦ elim (Option-cases (next_due rows)) [
              | inl missing ↦ (ground arith, λ _. (status, s), ground arith)
              | inr (d, due) ↦ (ground arith, λ _. (status, s), ground arith)
            ]
            | inr (x, bad) ↦ (ground arith, λ less. absurd (ground arith), ground arith)
          ]
    ]

-- The query's order does not change the total.
sum-insert_by_date :
    (r : Repayment) (rs : List Repayment)
    → sum (map (λ (q : Repayment). q.amount) (insert_by_date r rs))
      ≡ r.amount + sum (map (λ (q : Repayment). q.amount) rs)
sum-insert_by_date r [] = refl
sum-insert_by_date r (q ∷ rest) = ground (arith, sum-insert_by_date r rest)

sum-by_date :
    (rs : List Repayment)
    → sum (map (λ (q : Repayment). q.amount) (by_date rs))
      ≡ sum (map (λ (q : Repayment). q.amount) rs)
sum-by_date [] = refl
sum-by_date (r ∷ rest) = omega (arith, sum-insert_by_date r (by_date rest), sum-by_date rest)

insert_by_date-positive :
    (r : Repayment) (rs : List Repayment)
    → 0 < r.amount
    → AllPositive (map (λ (q : Repayment). q.amount) rs)
    → AllPositive (map (λ (q : Repayment). q.amount) (insert_by_date r rs))
insert_by_date-positive r [] z h = (z, tt)
insert_by_date-positive r (q ∷ rest) z h =
    elim (Bool-cases (text_ltb q.record_date r.record_date)) [
      | inl later ↦ rw later (h.0, insert_by_date-positive r rest z h.1)
      | inr here ↦ rw here (z, h)
    ]

by_date-positive :
    (loan_id : Text) (rs : List Repayment)
    → All (λ (q : Repayment). 0 < q.amount) rs
    → AllPositive (
        map
          (λ (q : Repayment). q.amount)
          (by_date (keep (λ (q : Repayment). text_eq q.loan_id loan_id) rs)))
by_date-positive loan_id [] h = tt
by_date-positive loan_id (r ∷ rest) h = elim (Bool-cases (text_eq r.loan_id loan_id)) [
  | inl mine ↦ rw mine (
      insert_by_date-positive r (by_date (keep (λ (q : Repayment). text_eq q.loan_id loan_id) rest))
        h.0 (by_date-positive loan_id rest h.1))
  | inr other ↦ rw other (by_date-positive loan_id rest h.1)
]

abbrev ordered : Text → List Repayment → List ℕ
ordered loan_id rs =
    map (λ (r : Repayment). r.amount)
      (by_date (keep (λ (r : Repayment). text_eq r.loan_id loan_id) rs))

map-pos :
    (rs : List Repayment)
    → map (λ (r : Repayment). pos r.amount) rs ≡ map pos (map (λ (r : Repayment). r.amount) rs)
map-pos [] = refl
map-pos (r ∷ rest) = ap (λ (t : List ℤ). pos r.amount ∷ t) (map-pos rest)

-- A loan recomputed from positive repayments holds them.
refresh_schedule_as-IsCurrent :
    (loan : Loan) (before : List ℕ) (rs : List Repayment) (another : Bool) {loan' : Loan}
    → IsCurrent loan before
    → All (λ (q : Repayment). 0 < q.amount) rs
    → refresh_schedule loan (payments_of loan.id rs) another ≡ ok loan'
    → IsCurrent loan' (amounts_of loan.id rs) × (loan'.id ≡ loan.id)
refresh_schedule_as-IsCurrent loan before rs another {loan'} c p h =
    let read = map-pos (by_date (keep (λ (r : Repayment). text_eq r.loan_id loan.id) rs)) in
    let h' : refresh_schedule loan (map pos (ordered loan.id rs)) another ≡ ok loan' =
      rw read at h in
    let positives = by_date-positive loan.id rs p in
    let (within, opens, id) =
      refresh_schedule-guards loan (ordered loan.id rs) another {loan' = loan'} positives h' in
    let (next, done, after) =
      refresh_schedule-IsCurrent loan (ordered loan.id rs) another c.numbered c.whole c.owed c.fits
        positives within opens in
    let same : next ≡ loan' = ground (arith, done, h') in
    (
      IsCurrent-sum loan' (ordered loan.id rs) (amounts_of loan.id rs)
          (sum-by_date (keep (λ (r : Repayment). text_eq r.loan_id loan.id) rs)) (rw same at after),
      id,
    )

-- All loans after the recomputation of one, where the others keep the totals of their repayments.
pub refresh_loan-IsCurrent :
    (loan : Loan) (member_id : Text) (loans : List Loan) (rs rs' : List Repayment)
    {loans' : List Loan}
    → refresh_loan loan member_id loans rs' ≡ ok loans'
    → find key_of_loan loan.id loans ≡ some loan
    → ((j : Text) → text_eq j loan.id ≡ false → sum (amounts_of j rs) ≡ sum (amounts_of j rs'))
    → All (λ (q : Repayment). 0 < q.amount) rs'
    → IsKeyed key_of_loan loans
    → All (λ (l : Loan). IsCurrent l (amounts_of l.id rs)) loans
    → IsKeyed key_of_loan loans' × All (λ (l : Loan). IsCurrent l (amounts_of l.id rs')) loans'
unfolding refresh_loan
refresh_loan-IsCurrent loan member_id loans rs rs' {loans'} h row others p keyed current =
    let another = has_other_active member_id loan.id loans in
    elim (Result-cases (refresh_schedule loan (payments_of loan.id rs') another)) [
      | inr (x, bad) ↦ absurd (ground arith)
      | inl (loan', done) ↦
          let rows : loans' ≡ update key_of_loan loan.id (λ _. loan') loans = ground arith in
          let before = All-find key_of_loan _ loan.id loans row current in
          let (after, id) =
            refresh_schedule_as-IsCurrent loan (amounts_of loan.id rs) rs' another {loan' = loan'}
              before p done in
          (
            rw rows (
                IsKeyed-update key_of_loan loan.id (λ _. loan') loans
                  (λ q at_id. id ∙ sym (text_eq→eq q.id loan.id at_id)) keyed),
            rw rows (
                All-update_one key_of_loan (λ l. IsCurrent l (amounts_of l.id rs))
                  (λ l. IsCurrent l (amounts_of l.id rs')) loan.id (λ _. loan') loans row keyed
                  current (rw (sym id) at after)
                  (λ b other c. IsCurrent-sum b _ _ (others b.id other) c)),
          )
    ]
