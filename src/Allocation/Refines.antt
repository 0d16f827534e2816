-- ===== src/Allocation/Refines.antt =====
-- The loops of internal/app/loan_schedule.go and internal/app/repayments.go against the abstract
-- view.
use kopdes.Base.{
  ℕ, zero, suc, ◌+◌, ◌-◌, ◌<◌, ◌≤◌, ◌≡◌, refl, ltb, leb, if◌then◌else◌, List, [], ◌∷◌, arith, ok,
  err, ℤ, pos, sum, map,
}
use kopdes.Schedule.Terms.{InstallmentCalculation}
use kopdes.Allocation.{
  Rows, allocate_one, post_payment, update_paid, unpaid_rows, pay, applied_of, allocate_from,
  allocate_repayments_oldest_first, exceeds_obligation,
}
use kopdes.Allocation.Poured.{poured, total_scheduled}

pub allocate_one-poured :
    (r a : ℕ) (rows : Rows)
    → 0 < r
    → a ≤ total_scheduled rows
    → allocate_one r (poured a rows) ≡ (poured (a + r) rows, (a + r) - total_scheduled rows)
unfolding allocate_one poured
allocate_one-poured r a [] p h = ground arith
allocate_one-poured r a (i ∷ rest) p h = ground (
  arith,
  allocate_one-poured r (a - i.scheduled_amount) rest p,
  allocate_one-poured (r - (i.scheduled_amount - a)) (a - i.scheduled_amount) rest,
)

abbrev pub AllPositive : List ℕ → Type 0
AllPositive [] = Unit
AllPositive (x ∷ xs) = (0 < x) × AllPositive xs

allocate_from-step :
    (rows : Rows) (r paid left : ℕ) (more : List ℤ) {rows' : Rows}
    → allocate_one (suc r) rows ≡ (rows', left)
    → allocate_from rows paid (pos (suc r) ∷ more) ≡ (
        if ltb 0 left
        then err (exceeds_obligation (paid + (suc r - left)))
        else allocate_from rows' (paid + (suc r - left)) more)
unfolding allocate_from
allocate_from-step rows r paid left more e = rw e

allocate_from-poured :
    (rows : Rows) (amounts : List ℕ) (a paid : ℕ)
    → AllPositive amounts
    → a ≤ total_scheduled rows
    → allocate_from (poured a rows) paid (map pos amounts) ≡ (
        if leb (a + sum amounts) (total_scheduled rows)
        then ok (poured (a + sum amounts) rows, paid + sum amounts)
        else err (exceeds_obligation (paid + (total_scheduled rows - a))))
allocate_from-poured rows [] a paid p h = unfold allocate_from in ground arith
allocate_from-poured rows (zero ∷ amounts) a paid p h = absurd (omega arith)
allocate_from-poured rows (suc r ∷ amounts) a paid p h =
    rw
      (allocate_from-step (poured a rows) r paid ((a + suc r) - total_scheduled rows)
        (map pos amounts) (allocate_one-poured (suc r) a rows p.0 h))
      (ground (arith, allocate_from-poured rows amounts (a + suc r) (paid + suc r) p.1))

-- From any schedule that holds a total paid oldest first, the allocation of positive repayments
-- ends in the schedule that holds the greater total, if that is within the obligation, and returns
-- the sum of the repayments; otherwise it fails, naming what was still unpaid.
pub allocate_repayments_oldest_first-poured :
    (rows : Rows) (amounts : List ℕ) (a : ℕ)
    → AllPositive amounts
    → a ≤ total_scheduled rows
    → allocate_repayments_oldest_first (poured a rows) (map pos amounts) ≡ (
        if leb (a + sum amounts) (total_scheduled rows)
        then ok (poured (a + sum amounts) rows, sum amounts)
        else err (exceeds_obligation (total_scheduled rows - a)))
unfolding allocate_repayments_oldest_first
allocate_repayments_oldest_first-poured rows amounts a p h =
    ground (arith, allocate_from-poured rows amounts a 0 p h)

-- The installments carry consecutive numbers.
abbrev pub IsNumberedFrom : ℕ → Rows → Type 0
IsNumberedFrom n [] = Unit
IsNumberedFrom n (i ∷ rest) = (i.number ≡ n) × IsNumberedFrom (n + 1) rest

-- Every number is above `n`.
abbrev Above : ℕ → Rows → Type 0
Above n [] = Unit
Above n (i ∷ rest) = (n < i.number) × Above n rest

Above-IsNumberedFrom : (n k : ℕ) (rows : Rows) → n < k → IsNumberedFrom k rows → Above n rows
Above-IsNumberedFrom n k [] h u = tt
Above-IsNumberedFrom n k (i ∷ rest) h u =
    (omega arith, Above-IsNumberedFrom n (k + 1) rest (omega arith) u.1)

Above-unpaid_rows : (n : ℕ) (rows : Rows) → Above n rows → Above n (unpaid_rows rows)
Above-unpaid_rows n [] h = tt
Above-unpaid_rows n (i ∷ rest) h = ground (arith, Above-unpaid_rows n rest h.1)

-- Updates of later rows leave the first row alone.
post_payment-cons :
    (i : InstallmentCalculation) (us : Rows) (table : Rows) (r : ℕ)
    → Above i.number us
    → post_payment r us (i ∷ table) ≡ (i ∷ (post_payment r us table).0, (post_payment r us table).1)
unfolding post_payment update_paid
post_payment-cons i [] table r h = refl
post_payment-cons i (u ∷ us) table r h = ground (
  arith,
  post_payment-cons i us
      (update_paid (applied_of r (u.scheduled_amount - u.paid_amount)) u.number table)
      (r - applied_of r (u.scheduled_amount - u.paid_amount)) h.1,
)

update_paid-Above : (a n : ℕ) (rows : Rows) → Above n rows → update_paid a n rows ≡ rows
unfolding update_paid
update_paid-Above a n [] h = refl
update_paid-Above a n (i ∷ rest) h = ground (arith, update_paid-Above a n rest h.1)

post_payment-zero : (us table : Rows) → post_payment 0 us table ≡ (table, 0)
unfolding post_payment
post_payment-zero [] table = refl
post_payment-zero (u ∷ us) table = refl

post_payment-step :
    (r : ℕ) (u : InstallmentCalculation) (us table : Rows)
    → 0 < r
    → post_payment r (u ∷ us) table
      ≡ post_payment
          (r - applied_of r (u.scheduled_amount - u.paid_amount))
          us
          (update_paid (applied_of r (u.scheduled_amount - u.paid_amount)) u.number table)
unfolding post_payment
post_payment-step r u us table p = ground arith

update_paid-head :
    (a : ℕ) (i : InstallmentCalculation) (rest : Rows)
    → Above i.number rest
    → update_paid a i.number (i ∷ rest) ≡ pay a i ∷ rest
unfolding update_paid
update_paid-head a i rest h = ground (arith, update_paid-Above a i.number rest h)

-- For a positive payment and installments of consecutive numbers, the row by row updates of the
-- unpaid installments do to the table what the allocation does, and leave the same rest.
pub post_payment-eq-allocate_one :
    (r n : ℕ) (rows : Rows)
    → 0 < r
    → IsNumberedFrom n rows
    → post_payment r (unpaid_rows rows) rows ≡ allocate_one r rows
unfolding allocate_one
post_payment-eq-allocate_one r n [] p u = unfold post_payment in refl
post_payment-eq-allocate_one r n (i ∷ rest) p u =
    let above : Above i.number rest =
      Above-IsNumberedFrom i.number (n + 1) rest (omega arith) u.1 in
    let later : Above i.number (unpaid_rows rest) = Above-unpaid_rows i.number rest above in
    let a : ℕ = applied_of r (i.scheduled_amount - i.paid_amount) in
    ground (
      arith,
      post_payment-cons i (unpaid_rows rest) rest r later,
      post_payment-eq-allocate_one r (n + 1) rest p u.1,
      post_payment-step r i (unpaid_rows rest) (i ∷ rest) p,
      update_paid-head a i rest above,
      post_payment-cons (pay a i) (unpaid_rows rest) rest (r - a) later,
      post_payment-zero (unpaid_rows rest) (pay a i ∷ rest),
      post_payment-eq-allocate_one (r - a) (n + 1) rest,
    )
