-- ===== src/Withdrawals/Approved.antt =====
-- What an approval decides, role by role (internal/app/withdrawals.go, on the chain of
-- internal/app/approvals.go).
use kopdes.Base.{◌≡◌, ◌⊎◌, true, false, Bool, Option, none, some, keep}
use kopdes.Base.Text.{Text}
use kopdes.Base.Table.{find}
use kopdes.Approval.{
  Role, manager, admin, ketua_i, ketua_ii, Stage, manager_stage, ketua_i_stage, ketua_ii_stage,
}
use kopdes.Approval.Requests.{User, pending, approved}
use kopdes.Withdrawals.Types.{Db, Request, active, key_of_request}
use kopdes.Withdrawals.Requests.{other_than}
use kopdes.Withdrawals.Paid.{IsAffordable}

-- The two roles that act at the manager's stage.
abbrev pub is_managing : Role → Bool
is_managing manager = true
is_managing admin = true
is_managing _ = false

-- The two hops of the chain.
abbrev IsHop : Role → Option Stage → Stage → Type 0
IsHop role s next =
    ((is_managing role ≡ true) × (s ≡ some manager_stage) × (next ≡ ketua_ii_stage))
    ⊎ ((role ≡ ketua_ii) × (s ≡ some ketua_ii_stage) × (next ≡ ketua_i_stage))

-- What becomes of a request `r` that is approved, with the accounts that the officer names.
pub data Decides (db : Db) (officer : User) (cash savings : Text) (r r' : Request) : Type 0 where
  by_manager :
      is_managing officer.role ≡ true
      → r.stage ≡ some manager_stage
      → r'.stage ≡ some ketua_ii_stage
      → (r'.status ≡ pending) × (r'.reviewed_by ≡ r.reviewed_by)
      → (r'.proposed_cash_coa_code ≡ cash) × (r'.proposed_savings_coa_code ≡ savings)
      → Decides db officer cash savings r r'
  by_ketua_ii :
      officer.role ≡ ketua_ii
      → r.stage ≡ some ketua_ii_stage
      → r'.stage ≡ some ketua_i_stage
      → (r'.status ≡ pending) × (r'.reviewed_by ≡ r.reviewed_by)
      → (r'.proposed_cash_coa_code ≡ r.proposed_cash_coa_code)
        × (r'.proposed_savings_coa_code ≡ r.proposed_savings_coa_code)
      → Decides db officer cash savings r r'
  by_ketua_i :
      officer.role ≡ ketua_i
      → r.stage ≡ some ketua_i_stage
      → r'.stage ≡ none
      → (r'.status ≡ approved) × (r'.reviewed_by ≡ some officer.id)
      → r.reservation ≡ record { amount = r.amount; status = active }
      → IsAffordable db r
      → Decides db officer cash savings r r'

-- One request was pending and is decided; the rest of it, the other requests, the savings and the
-- ledger stay.
pub record Approved (db db' : Db) (id : Text) (officer : User) (cash savings : Text) : Type 0 where
  pub r : Request
  pub row : find key_of_request id db.requests ≡ some r
  pub was_pending : r.status ≡ pending
  pub r' : Request
  pub row' : find key_of_request id db'.requests ≡ some r'
  pub decides : Decides db officer cash savings r r'
  pub amount : r'.amount ≡ r.amount
  pub member_id : r'.member_id ≡ r.member_id
  pub reservation : r'.reservation ≡ r.reservation
  pub unpaid : r'.disbursement ≡ r.disbursement
  pub others : keep (other_than id) db'.requests ≡ keep (other_than id) db.requests
  pub savings_kept : db'.savings ≡ db.savings
  pub ledger : db'.ledger ≡ db.ledger
