-- ===== src/Schedule/Totals.antt =====
-- The installments of a schedule against its obligation (internal/app/loan_schedule.go).
use kopdes.Base.{
  ℕ, zero, suc, ◌+◌, ◌*◌, ◌/◌, ◌%◌, ◌<◌, ◌≤◌, ◌≡◌, refl, max_int64, add64_exact, List, [], ◌∷◌,
  length, sum_of, arith, ◌∙◌,
}
use native.Mathlib.Nat.{div-add-mod}
use kopdes.Calendar.{Date, loan_due_date}
use kopdes.Schedule.Terms.{InstallmentCalculation}
use kopdes.Schedule.Plan.{installments_from, build_installments}

abbrev pub scheduled : InstallmentCalculation → ℕ
scheduled i = i.scheduled_amount

installments_from_totals :
    (start : Date) (regular remainder count left index : ℕ)
    → regular + remainder ≤ max_int64
    → index + suc left ≡ count
    → sum_of scheduled (installments_from start regular remainder count (suc left) index)
      ≡ suc left * regular + remainder
unfolding installments_from
installments_from_totals start regular remainder count zero index h e =
    ground (arith, add64_exact regular remainder)
installments_from_totals start regular remainder count (suc left) index h e =
    ground (arith, installments_from_totals start regular remainder count left (index + 1) h)

pub length-installments_from :
    (start : Date) (regular remainder count left index : ℕ)
    → length (installments_from start regular remainder count left index) ≡ left
unfolding installments_from
length-installments_from start regular remainder count zero index = refl
length-installments_from start regular remainder count (suc left) index =
    omega (arith, length-installments_from start regular remainder count left (index + 1))

-- The k-th entry of a schedule from a start and a regular amount.
abbrev pub IsPlanned : Date → ℕ → ℕ → ℕ → List InstallmentCalculation → Type 0
IsPlanned start regular last index [] = Unit
IsPlanned start regular last index (i ∷ []) =
    (i.number ≡ index + 1)
    × (i.due_date ≡ loan_due_date start (index + 1))
    × (i.scheduled_amount ≡ last)
    × (i.paid_amount ≡ 0)
IsPlanned start regular last index (i ∷ j ∷ rest) =
    (i.number ≡ index + 1)
    × (i.due_date ≡ loan_due_date start (index + 1))
    × (i.scheduled_amount ≡ regular)
    × (i.paid_amount ≡ 0)
    × IsPlanned start regular last (index + 1) (j ∷ rest)

installments_from-IsPlanned :
    (start : Date) (regular remainder count left index : ℕ)
    → regular + remainder ≤ max_int64
    → index + left ≡ count
    → IsPlanned start regular
        (regular + remainder)
        index
        (installments_from start regular remainder count left index)
unfolding installments_from
installments_from-IsPlanned start regular remainder count zero index h e = tt
installments_from-IsPlanned start regular remainder count (suc zero) index h e =
    ground (arith, add64_exact regular remainder)
installments_from-IsPlanned start regular remainder count (suc (suc left)) index h e =
    ground
      (arith, installments_from-IsPlanned start regular remainder count (suc left) (index + 1) h)

pub div-bound : (total months : ℕ) → total / suc months + total % suc months ≤ total
div-bound total months = grind (arith, div-add-mod total (suc months))

-- An obligation that fits 63 bits is split without loss over the months: as many installments as
-- months, numbered from 1 on consecutive due dates, all of the same amount but the last, which
-- takes the remainder.
pub build_installments_lem :
    (start : Date) (total months : ℕ)
    → total ≤ max_int64
    → 0 < months
    → let plan = build_installments start total months in
      (sum_of scheduled plan ≡ total)
      × (length plan ≡ months)
      × IsPlanned start (total / months) (total / months + total % months) 0 plan
unfolding build_installments
build_installments_lem start total zero h p = absurd (omega arith)
build_installments_lem start total (suc months) h p =
    let b : total / suc months + total % suc months ≤ max_int64 =
      omega (arith, div-bound total months) in
    (
      installments_from_totals start (total / suc months) (total % suc months) (suc months) months 0
            b (omega arith)
          ∙ div-add-mod total (suc months),
      length-installments_from start (total / suc months) (total % suc months) (suc months)
          (suc months) 0,
      installments_from-IsPlanned start (total / suc months) (total % suc months) (suc months)
          (suc months) 0 b (omega arith),
    )
