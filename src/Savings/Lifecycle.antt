-- ===== src/Savings/Lifecycle.antt =====
-- Sequences of deposits, corrections and removals: internal/app/savings.go with
-- internal/app/saving_corrections.go.
use kopdes.Base.{
  ℕ, ◌<◌, ◌≡◌, refl, ◌∙◌, true, none, List, [], ◌∷◌, ◌++◌, sum_of, sum_of-append, All-append_one,
  ok, positive, positive_lem, arith, inl, inr, Option-cases, Result-cases,
}
use kopdes.Base.Text.{Text, codes, trim_space}
use kopdes.Base.Table.{find, IsKeyed-append_one}
use kopdes.Approval.Requests.{User}
use kopdes.Accounting.Journal.{entry_of, create_financial_journal}
use kopdes.Accounting.Reversal.{key_of_entry}
use kopdes.Accounting.Balance.{create_financial_journal-AllBalanced}
use kopdes.Accounting.Standing.{IsNew}
use kopdes.Accounting.Exchanged.{live_sum-entered}
use kopdes.Accounting.Topmost.{entered-IsTop}
use kopdes.Withdrawals.Types.{key_of_member}
use kopdes.Savings.{SavingRecord, SavingType, deposit}
use kopdes.Savings.Records.{
  SavingDesk, SavingRequest, insert_saving, new_saving, overrides_of, category_of, deposit_type,
  saving_journal, invalid_saving, category_text,
}
use kopdes.Savings.Corrections.{SavingCorrection, key_of_saving, is_deposit, correct_saving}
use kopdes.Savings.Removal.{remove_saving}
use kopdes.Savings.Entered.{savings_type, saving_journal-Enters}
use kopdes.Savings.Booked.{IsBooked, deposited}
use kopdes.Savings.Corrected.{correct_saving-IsBooked, remove_saving-IsBooked}
use kopdes.Repayments.Corrections.{Fresh}
use kopdes.Repayments.Synced.{IsUnused}

-- What a new deposit does.
record Deposits (desk desk' : SavingDesk) (record_id journal_id : Text) (r : SavingRecord)
    : Type 0 where
  named : r.id ≡ record_id
  is_above : 0 < r.amount
  kind : is_deposit r.saving_type ≡ true
  savings : desk'.db.savings ≡ desk.db.savings ++ r ∷ []
  overrides : List (Text × Text)
  description : Text
  by : Text
  posted :
      create_financial_journal desk.db.ledger (saving_journal r overrides description by) journal_id
      ≡ ok desk'.db.ledger

deposit_type_lem : (t : Text) {k : SavingType} → deposit_type t ≡ ok k → k ≡ deposit
deposit_type_lem t {k} h = ground arith

insert_saving-Deposits :
    (desk : SavingDesk) (req : SavingRequest) (recorded_by record_id journal_id : Text)
    {desk' : SavingDesk}
    → insert_saving desk req recorded_by record_id journal_id ≡ ok desk'
    → (r : SavingRecord) × Deposits desk desk' record_id journal_id r
unfolding insert_saving
insert_saving-Deposits desk req recorded_by record_id journal_id {desk'} h =
    elim (Result-cases (deposit_type (trim_space req.record_type))) [
      | inr (x, bad) ↦ absurd (ground arith)
      | inl (saving_type, typed) ↦ elim (Option-cases (category_of (trim_space req.category))) [
        | inl missing ↦ absurd (ground arith)
        | inr (category, known) ↦ elim (Result-cases (positive req.amount invalid_saving)) [
          | inr (x, bad) ↦ absurd (ground arith)
          | inl (amount, above) ↦
              elim (Option-cases (find key_of_member (trim_space req.member_id) desk.db.members)) [
                | inl missing ↦ absurd (ground arith)
                | inr (member, row) ↦
                    let r =
                      new_saving req member.id saving_type category amount recorded_by record_id in
                    let description = codes "Simpanan " ++ category_text category in
                    elim (Result-cases (
                      create_financial_journal desk.db.ledger
                        (saving_journal r (overrides_of req) description recorded_by) journal_id)) [
                          | inr (x, bad) ↦ absurd (ground arith)
                          | inl (ledger, done) ↦ (
                            r,
                            record {
                              named = refl;
                              is_above = (positive_lem req.amount invalid_saving above).0;
                              kind = rw (deposit_type_lem (trim_space req.record_type) typed) refl;
                              savings = ground arith;
                              overrides = overrides_of req;
                              description = description;
                              by = recorded_by;
                              posted = ground arith;
                            },
                          )
                        ]
              ]
        ]
      ]
    ]

-- Identifiers of a new deposit and its journal that no row has.
pub record IsUntaken (desk : SavingDesk) (record_id journal_id : Text) : Type 0 where
  pub saving : find key_of_saving record_id desk.db.savings ≡ none
  pub transaction : entry_of record_id savings_type desk.db.ledger.entries ≡ none
  pub journal : IsNew journal_id desk.db.ledger.entries

deposited-none :
    (m : ℕ → ℕ) (id : Text) (rs : List SavingRecord)
    → find key_of_saving id rs ≡ none
    → sum_of (deposited m id) rs ≡ 0
unfolding find
deposited-none m id [] h = refl
deposited-none m id (r ∷ rs) h = ground (arith, deposited-none m id rs)

insert_saving-IsBooked :
    (desk : SavingDesk) (req : SavingRequest) (recorded_by record_id journal_id : Text)
    {desk' : SavingDesk}
    → insert_saving desk req recorded_by record_id journal_id ≡ ok desk'
    → IsUntaken desk record_id journal_id
    → IsBooked desk.db
    → IsBooked desk'.db
insert_saving-IsBooked desk req recorded_by record_id journal_id {desk'} h u v =
    let (r, w) =
      insert_saving-Deposits desk req recorded_by record_id journal_id {desk' = desk'} h in
    let es = desk.db.ledger.entries in
    let (c, enters) =
      saving_journal-Enters desk.db.ledger r w.overrides w.description w.by journal_id
        {ledger' = desk'.db.ledger} w.posted (rw w.named u.transaction) w.is_above in
    let fresh : IsNew c.id es = rw enters.id u.journal in
    let new : find key_of_saving r.id desk.db.savings ≡ none = rw w.named u.saving in
    record {
      named = rw w.savings (IsKeyed-append_one key_of_saving desk.db.savings r new v.named);
      ordered = record {
        entered =
            rw enters.rows
              (IsKeyed-append_one key_of_entry es c fresh.not_entered v.ordered.entered);
        paired = rw enters.rows (All-append_one _ es c v.ordered.paired (λ _. enters.paired));
        balanced =
            create_financial_journal-AllBalanced desk.db.ledger
              (saving_journal r w.overrides w.description w.by) journal_id w.posted
              v.ordered.balanced;
      };
      top = rw enters.rows (
          entered-IsTop savings_type es c
            (rw enters.of_transaction
              (v.mirrored (λ _. 1) r.id ∙ deposited-none (λ _. 1) r.id desk.db.savings new))
            v.top);
      mirrored = λ m t.
          let stands =
            live_sum-entered m savings_type es c t fresh enters.original enters.of_type in
          let stands' = rw (enters.of_transaction, enters.of_amount) at stands in
          let rows = sum_of-append (deposited m t) desk.db.savings (r ∷ []) in
          rw (enters.rows, w.savings) (ground (arith, stands', rows, v.mirrored m t, w.kind));
    }

-- One successful operation on a deposit, under new identifiers.
pub data Step (desk desk' : SavingDesk) : Type 0 where
  was_deposited :
      (req : SavingRequest) (recorded_by record_id journal_id : Text)
      → insert_saving desk req recorded_by record_id journal_id ≡ ok desk'
      → IsUntaken desk record_id journal_id
      → Step desk desk'
  was_corrected :
      (actor : User) (id : Text) (req : SavingCorrection) (texts : Text → Text) (fresh : Fresh)
      → correct_saving desk actor id req texts fresh ≡ ok desk'
      → IsUnused fresh desk.db.ledger.entries
      → Step desk desk'
  was_removed :
      (actor : User) (id reason : Text) (texts : Text → Text) (fresh : Fresh)
      → remove_saving desk actor id reason texts fresh ≡ ok desk'
      → IsUnused fresh desk.db.ledger.entries
      → Step desk desk'

pub data Steps (desk : SavingDesk) : SavingDesk → Type 0 where
  none_yet : Steps desk desk
  and_then : {desk' desk'' : SavingDesk} → Steps desk desk' → Step desk' desk'' → Steps desk desk''

Step-IsBooked : (desk desk' : SavingDesk) → Step desk desk' → IsBooked desk.db → IsBooked desk'.db
Step-IsBooked desk desk' (was_deposited req recorded_by record_id journal_id h u) v =
    insert_saving-IsBooked desk req recorded_by record_id journal_id h u v
Step-IsBooked desk desk' (was_corrected actor id req texts fresh h u) v =
    correct_saving-IsBooked desk actor id req texts fresh h u v
Step-IsBooked desk desk' (was_removed actor id reason texts fresh h u) v =
    remove_saving-IsBooked desk actor id reason texts fresh h u v

-- Through any sequence of deposits, corrections and removals, each successful and under identifiers
-- not in use, a ledger that mirrors the deposits keeps doing so: every journal balances, and the
-- savings entries that stand, which reverse none and are not reversed, are one for each deposit and of
-- its amount.
pub Steps-IsBooked :
    {desk desk' : SavingDesk} → Steps desk desk' → IsBooked desk.db → IsBooked desk'.db
Steps-IsBooked none_yet v = v
Steps-IsBooked {desk} (and_then {desk' = between} {desk'' = after} steps step) v =
    Step-IsBooked between after step (Steps-IsBooked steps v)
