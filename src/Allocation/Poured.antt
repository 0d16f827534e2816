-- ===== src/Allocation/Poured.antt =====
-- The abstract view of a loan's payments: a total poured into the installments from the oldest on.
use kopdes.Base.{ℕ, ◌-◌, ◌≡◌, refl, ltb, if◌then◌else◌, [], ◌∷◌, sum_of, arith, ap}
use kopdes.Schedule.Terms.{InstallmentCalculation}
use kopdes.Allocation.{Rows}

abbrev pub least : ℕ → ℕ → ℕ
least a b = if ltb b a then b else a

-- The rows after a total `amount` has been paid, whatever was paid before.
unfoldable pub poured : ℕ → Rows → Rows
poured amount [] = []
poured amount (i ∷ rest) =
    record i { paid_amount = least amount i.scheduled_amount }
    ∷ poured (amount - i.scheduled_amount) rest

abbrev pub total_scheduled : Rows → ℕ
total_scheduled = sum_of (λ (i : InstallmentCalculation). i.scheduled_amount)

abbrev pub total_paid : Rows → ℕ
total_paid = sum_of (λ (i : InstallmentCalculation). i.paid_amount)

pub total_scheduled-poured :
    (a : ℕ) (rows : Rows) → total_scheduled (poured a rows) ≡ total_scheduled rows
unfolding poured
total_scheduled-poured a [] = refl
total_scheduled-poured a (i ∷ rest) =
    omega (arith, total_scheduled-poured (a - i.scheduled_amount) rest)

pub total_paid-poured :
    (a : ℕ) (rows : Rows) → total_paid (poured a rows) ≡ least a (total_scheduled rows)
unfolding poured
total_paid-poured a [] = ground arith
total_paid-poured a (i ∷ rest) = ground (arith, total_paid-poured (a - i.scheduled_amount) rest)

pub poured-poured : (a b : ℕ) (rows : Rows) → poured a (poured b rows) ≡ poured a rows
unfolding poured
poured-poured a b [] = refl
poured-poured a b (i ∷ rest) =
    ap (λ (r : Rows). record i { paid_amount = least a i.scheduled_amount } ∷ r)
      (poured-poured (a - i.scheduled_amount) (b - i.scheduled_amount) rest)
