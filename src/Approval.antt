-- ===== src/Approval.antt =====
-- The stages of an approval and what an officer's decision does: internal/app/approvals.go.
pub mod Order
pub mod Requests
use kopdes.Base.{ℕ, Bool, true, false, ◌&&◌, ltb, if◌then◌else◌, Option, none, some, List, [], ◌∷◌}
use kopdes.Base.Text.{Text}

-- `User.Role`; `other_role` is any text that the program names nowhere.
pub data Role : Type 0 where
  super_admin admin manager bendahara ketua_i ketua_ii ketua_utama member : Role
  other_role : Text → Role

-- A stage is the text of a role. `none` stands for the empty text.
pub data Stage : Type 0 where
  manager_stage ketua_i_stage ketua_ii_stage ketua_utama_stage : Stage
  -- a role that is no stage of any chain
  other_stage : Role → Stage

-- `approvalStageForOfficer`: the admin acts at the manager's stage, any other role at its own.
abbrev pub approval_stage_for_officer : Role → Stage
approval_stage_for_officer admin = manager_stage
approval_stage_for_officer manager = manager_stage
approval_stage_for_officer ketua_i = ketua_i_stage
approval_stage_for_officer ketua_ii = ketua_ii_stage
approval_stage_for_officer ketua_utama = ketua_utama_stage
approval_stage_for_officer r = other_stage r

-- `nextApprovalStage`
unfoldable pub next_approval_stage : Stage → Option Stage
next_approval_stage manager_stage = some ketua_i_stage
next_approval_stage ketua_i_stage = some ketua_ii_stage
next_approval_stage ketua_ii_stage = some ketua_utama_stage
next_approval_stage _ = none

-- `nextLoanApprovalStage`
unfoldable pub next_loan_approval_stage : Stage → Option Stage
next_loan_approval_stage manager_stage = some ketua_ii_stage
next_loan_approval_stage ketua_ii_stage = some ketua_i_stage
next_loan_approval_stage ketua_i_stage = some ketua_utama_stage
next_loan_approval_stage _ = none

-- `nextWithdrawalApprovalStage`
unfoldable pub next_withdrawal_approval_stage : Stage → Option Stage
next_withdrawal_approval_stage manager_stage = some ketua_ii_stage
next_withdrawal_approval_stage ketua_ii_stage = some ketua_i_stage
next_withdrawal_approval_stage _ = none

abbrev pub ketua_utama_loan_approval_threshold : ℕ
ketua_utama_loan_approval_threshold = 25_000_000

-- `nextLoanApprovalStageForAmount`
unfoldable pub next_loan_approval_stage_for_amount : Stage → ℕ → Option Stage
unfolding next_loan_approval_stage
next_loan_approval_stage_for_amount ketua_i_stage approved_amount =
    if ltb approved_amount ketua_utama_loan_approval_threshold
    then none
    else next_loan_approval_stage ketua_i_stage
next_loan_approval_stage_for_amount stage approved_amount = next_loan_approval_stage stage

-- The test `current_approval_stage == stage` on the stages that requests reach.
abbrev pub same_stage : Stage → Stage → Bool
same_stage manager_stage manager_stage = true
same_stage ketua_i_stage ketua_i_stage = true
same_stage ketua_ii_stage ketua_ii_stage = true
same_stage ketua_utama_stage ketua_utama_stage = true
same_stage _ _ = false

abbrev pub at_stage : Option Stage → Stage → Bool
at_stage none s = false
at_stage (some t) s = same_stage t s
