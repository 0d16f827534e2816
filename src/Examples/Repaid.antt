-- ===== src/Examples/Repaid.antt =====
-- A loan paid in parts and recomputed.
use kopdes.Base.{inr, ℕ, ◌≡◌, refl, true, ok, some, pos, [], ◌∷◌, arith}
use kopdes.Base.Text.{codes}
use kopdes.Schedule.Terms.{InstallmentCalculation, regular_tiered_monthly_v1}
use kopdes.Allocation.Poured.{poured}
use kopdes.Repayments.Types.{Loan, LoanTerms, active}
use kopdes.Repayments.Posting.{pay_loan}
use kopdes.Repayments.Refresh.{refresh_schedule}
use kopdes.Repayments.Current.{IsCurrent, pay_loan-IsCurrent}
use kopdes.Repayments.Recomputed.{refresh_schedule-IsCurrent, refresh_schedule_stable}

abbrev pub row : ℕ → ℕ → InstallmentCalculation
row number amount = record {
  number = number;
  due_date = record { year = 2024; month = number; day = 20 };
  scheduled_amount = amount;
  paid_amount = 0;
}

abbrev pub terms : LoanTerms
terms = record {
  loan_request_id = codes "q";
  approved_amount = 90;
  duration_months = pos 3;
  monthly_installment = 33;
  start_date = codes "2023-12-20";
  admin_fee_policy = regular_tiered_monthly_v1;
  monthly_admin_fee = some (pos 3);
  total_admin_fee = pos 10;
  final_due_date = some (record { year = 2024; month = 3; day = 20 });
  approved_by = codes "k";
}

-- After one payment of 40, of a loan over 100.
abbrev pub loan : Loan
loan = record {
  id = codes "l";
  terms = terms;
  member_id = codes "m";
  loan_type = codes "regular";
  total_obligation = 100;
  remaining_balance = 60;
  status = active;
  next_due_date = some (record { year = 2024; month = 2; day = 20 });
  installments =
      record (row 1 33) { paid_amount = 33 }
      ∷ record (row 2 33) { paid_amount = 7 }
      ∷ row 3 34
      ∷ [];
}

pub loan-IsCurrent : IsCurrent loan (40 ∷ [])
unfolding poured
loan-IsCurrent = record {
  settled = refl;
  whole = refl;
  numbered = (refl, (refl, (refl, tt)));
  owed = omega arith;
  fits = omega arith;
  balance = refl;
  standing = inr (omega arith, refl, refl);
}

pay_loan-IsCurrent_example :
    (loan' : Loan) × (pay_loan loan 60 ≡ ok loan') × IsCurrent loan' (60 ∷ 40 ∷ [])
pay_loan-IsCurrent_example =
    pay_loan-IsCurrent loan (40 ∷ []) 60 loan-IsCurrent refl (omega arith) (omega arith)

refresh_schedule_stable_example : refresh_schedule loan (pos 40 ∷ []) true ≡ ok loan
refresh_schedule_stable_example =
    refresh_schedule_stable loan (40 ∷ []) true loan-IsCurrent (omega arith, tt)

refresh_schedule-IsCurrent_example :
    (loan' : Loan) × (refresh_schedule loan (pos 25 ∷ pos 50 ∷ []) true ≡ ok loan')
    × IsCurrent loan' (25 ∷ 50 ∷ [])
refresh_schedule-IsCurrent_example =
    refresh_schedule-IsCurrent loan (25 ∷ 50 ∷ []) true (refl, (refl, (refl, tt))) refl
      (omega arith) (omega arith) (omega arith, (omega arith, tt)) (omega arith)
      (λ _. (active, refl))
