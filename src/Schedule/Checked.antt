-- ===== src/Schedule/Checked.antt =====
-- What `validateLoanFeeSnapshot` of internal/app/loan_schedule.go has checked.
use kopdes.Base.{
  ℕ, ◌+◌, ◌≤◌, ◌<◌, ◌≡◌, Option, ok, arith, inl, inr, Result-cases, positive, positive_lem, natural,
  natural_lem, ℤ, pos, max_int64, add64_exact,
}
use kopdes.Schedule.Terms.{AdminFeePolicy, invalid_snapshot_totals}
use kopdes.Schedule.Snapshot.{validate_loan_fee_snapshot}

-- Positive numbers, of which the obligation is principal and fee and fits an int64.
pub record IsChecked (principal duration fee obligation : ℤ) : Type 0 where
  pub n : ℕ
  pub months : ℕ
  pub charged : ℕ
  pub total : ℕ
  pub principal_is : principal ≡ pos n
  pub duration_is : duration ≡ pos months
  pub fee_is : fee ≡ pos charged
  pub obligation_is : obligation ≡ pos total
  pub lent : 0 < n
  pub lasts : 0 < months
  pub sum_is : total ≡ n + charged
  pub fits : total ≤ max_int64

pub validate_loan_fee_snapshot-IsChecked :
    (policy : AdminFeePolicy) (principal duration : ℤ) (monthly : Option ℤ) (fee obligation : ℤ)
    → validate_loan_fee_snapshot policy principal duration monthly fee obligation ≡ ok tt
    → IsChecked principal duration fee obligation
unfolding validate_loan_fee_snapshot
validate_loan_fee_snapshot-IsChecked policy principal duration monthly fee obligation h =
    elim (Result-cases (positive principal invalid_snapshot_totals)) [
      | inr (x, bad) ↦ absurd (ground arith)
      | inl (n, en) ↦ elim (Result-cases (positive duration invalid_snapshot_totals)) [
        | inr (x, bad) ↦ absurd (ground arith)
        | inl (m, em) ↦ elim (Result-cases (natural fee invalid_snapshot_totals)) [
          | inr (x, bad) ↦ absurd (ground arith)
          | inl (f, ef) ↦ elim (Result-cases (positive obligation invalid_snapshot_totals)) [
            | inr (x, bad) ↦ absurd (ground arith)
            | inl (t, et) ↦
                let p = positive_lem principal invalid_snapshot_totals en in
                let d = positive_lem duration invalid_snapshot_totals em in
                record {
                  n = n;
                  months = m;
                  charged = f;
                  total = t;
                  principal_is = p.1;
                  duration_is = d.1;
                  fee_is = natural_lem fee invalid_snapshot_totals ef;
                  obligation_is = (positive_lem obligation invalid_snapshot_totals et).1;
                  lent = p.0;
                  lasts = d.0;
                  sum_is = ground (arith, add64_exact n f);
                  fits = ground (arith, add64_exact n f);
                }
          ]
        ]
      ]
    ]
