-- ===== src/Withdrawals/Paid.antt =====
-- What a disbursement pays and writes down (internal/app/withdrawals.go).
use kopdes.Base.{◌-◌, ◌*◌, ◌≤◌, ◌≡◌, refl, true, none, some, [], ◌∷◌, ◌++◌, keep, map}
use kopdes.Base.Text.{codes, Text}
use kopdes.Base.Table.{find}
use kopdes.Approval.{bendahara}
use kopdes.Accounting.Types.{Entry, debit, credit}
use kopdes.Accounting.Entered.{posting_of}
use kopdes.Savings.{
  sukarela, of_category, saving_summary, category_balance, sum_deposits, sum_withdrawals,
}
use kopdes.Savings.Limits.{max_withdrawal-at_most}
use kopdes.Approval.Requests.{User, approved}
use kopdes.Withdrawals.Types.{
  Db, Request, ReservationStatus, active, consumed, is_held, key_of_request,
}
use kopdes.Withdrawals.Requests.{other_than}
use kopdes.Withdrawals.Effects.{IsWithinLimit}
use kopdes.Withdrawals.Entered.{withdrawal_type}
use kopdes.Withdrawals.Payout.{IsDebited}

-- 75 hundredths of the member's voluntary savings cover the request.
abbrev pub IsAffordable : Db → Request → Type 0
IsAffordable db r =
    let own = of_category r.member_id sukarela in
    100 * r.amount ≤ 75 * (sum_deposits own db.savings - sum_withdrawals own db.savings)

pub IsWithinLimit-IsAffordable : (db : Db) (r : Request) → IsWithinLimit db r → IsAffordable db r
unfolding saving_summary category_balance
IsWithinLimit-IsAffordable db r within =
    let own = of_category r.member_id sukarela in
    max_withdrawal-at_most (sum_deposits own db.savings) (sum_withdrawals own db.savings) r.amount
      within

pub is_held→eq : (s : ReservationStatus) → is_held s ≡ true → s ≡ active
is_held→eq active h = refl
is_held→eq _ h = cc

-- What a disbursement leaves: the request before and after, the saving record and the journal.
pub record Pays (db db' : Db) (id : Text) (officer : User) (date record_id journal_id : Text)
    : Type 0 where
  pub by : officer.role ≡ bendahara
  pub r : Request
  pub row : find key_of_request id db.requests ≡ some r
  pub ready : r.status ≡ approved
  pub unpaid : r.disbursement ≡ none
  pub held : r.reservation ≡ record { amount = r.amount; status = active }
  pub affordable : IsAffordable db r
  pub r' : Request
  pub row' : find key_of_request id db'.requests ≡ some r'
  pub paid :
      r'.disbursement ≡ some (record { date = date; by = officer.id; saving_record_id = record_id })
  pub spent : r'.reservation ≡ record { amount = r.amount; status = consumed }
  pub kept : (r'.amount ≡ r.amount) × (r'.member_id ≡ r.member_id) × (r'.status ≡ approved)
  pub others : keep (other_than id) db'.requests ≡ keep (other_than id) db.requests
  pub debited : IsDebited db db' record_id date officer r
  pub entry : Entry
  pub posted : db'.ledger.entries ≡ db.ledger.entries ++ entry ∷ []
  pub named : entry.id ≡ journal_id
  pub of_record : entry.transaction_id ≡ record_id
  pub of_type : entry.transaction_type ≡ withdrawal_type
  pub of_amount : entry.amount ≡ r.amount
  pub postings :
      map posting_of entry.lines
      ≡ (codes "savings_liability", debit, r.amount) ∷ (codes "cash_bank", credit, r.amount) ∷ []
