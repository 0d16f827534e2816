-- ===== src/Approval/Order.antt =====
-- The chains of approval of internal/app/approvals.go as lists.
use kopdes.Base.{
  ℕ, zero, suc, ◌≡◌, refl, Option, none, some, List, [], ◌∷◌, arith, ltb, if◌then◌else◌,
}
use kopdes.Approval.{
  Stage, manager_stage, ketua_i_stage, ketua_ii_stage, ketua_utama_stage,
  next_loan_approval_stage_for_amount, next_withdrawal_approval_stage,
  ketua_utama_loan_approval_threshold,
}

-- The stages that follow a stage, itself first, for a number of steps.
abbrev pub chain_from : ℕ → (Stage → Option Stage) → Option Stage → List Stage
chain_from zero next stage = []
chain_from (suc n) next none = []
chain_from (suc n) next (some s) = s ∷ chain_from n next (next s)

-- A loan passes Manager, Ketua II and Ketua I, and Ketua Utama from 25 million Rupiah on, and no
-- other; after the last of them the chain stays at its end however long it is followed.
pub loan_approval_chain :
    (amount n : ℕ)
    → chain_from
        (suc (suc (suc (suc (suc n)))))
        (λ s. next_loan_approval_stage_for_amount s amount)
        (some manager_stage)
      ≡ (if ltb amount ketua_utama_loan_approval_threshold
          then manager_stage ∷ ketua_ii_stage ∷ ketua_i_stage ∷ []
          else manager_stage ∷ ketua_ii_stage ∷ ketua_i_stage ∷ ketua_utama_stage ∷ [])
unfolding next_loan_approval_stage_for_amount
loan_approval_chain amount n = ground arith

-- A withdrawal passes Manager, Ketua II and Ketua I, and no other.
pub withdrawal_approval_chain :
    (n : ℕ)
    → chain_from (suc (suc (suc (suc n)))) next_withdrawal_approval_stage (some manager_stage)
      ≡ manager_stage ∷ ketua_ii_stage ∷ ketua_i_stage ∷ []
unfolding next_withdrawal_approval_stage
withdrawal_approval_chain n = refl
