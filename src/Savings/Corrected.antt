-- ===== src/Savings/Corrected.antt =====
-- Correction and removal of a deposit keep the ledger a mirror of the deposits: `correctSavingByID` and
-- `removeSavingByID` of internal/app/saving_corrections.go.
use kopdes.Base.{
  ℕ, ◌+◌, ◌<◌, ◌≡◌, sym, ◌∙◌, not, true, if◌then◌else◌, none, some, List, ◌++◌, keep, sum_of, ok,
  positive, positive_lem, arith, ◌⊎◌, inl, inr, Bool-cases, Option-cases, Result-cases,
}
use kopdes.Base.Text.{Text, text_eq, text_eq→eq, trim_space}
use kopdes.Base.Table.{find, update, IsKeyed, IsKeyed-update, sum_of-keep, sum_of-update}
use kopdes.Base.Keyed.{IsKeyed-keep}
use kopdes.Approval.Requests.{User}
use kopdes.Accounting.Types.{Entry, Ledger}
use kopdes.Accounting.Reversal.{TransactionAudit, last_of, is_source}
use kopdes.Accounting.Topmost.{last_of-source}
use kopdes.Repayments.Corrections.{Fresh}
use kopdes.Repayments.Synced.{IsUnused}
use kopdes.Savings.{SavingRecord}
use kopdes.Savings.Records.{SavingDesk, invalid_saving_correction}
use kopdes.Savings.Corrections.{
  SavingCorrection, key_of_saving, is_deposit, corrected_saving, same_financials, correction_audits,
  sync_saving_journal, correct_saving,
}
use kopdes.Savings.Removal.{prepare_removal, undo_journal, remove_saving, Prepared}
use kopdes.Savings.Entered.{savings_type}
use kopdes.Savings.Synced.{sync_saving_journal-Synced, undo_journal-Synced}
use kopdes.Savings.Booked.{
  IsBooked, deposited, saving_id, deposited_own, stands_for, synced-IsBooked,
}

-- What a correction does.
record Corrects (desk desk' : SavingDesk) (actor_id id : Text) (req : SavingCorrection)
    (texts : Text → Text) (fresh : Fresh) (r : SavingRecord) (n : ℕ) : Type 0 where
  row : find key_of_saving id desk.db.savings ≡ some r
  is_above : 0 < n
  kind : is_deposit r.saving_type ≡ true
  savings :
      desk'.db.savings ≡ update key_of_saving id (λ _. corrected_saving req n r) desk.db.savings
  journal :
      ((r.amount ≡ n) × (desk'.db.ledger ≡ desk.db.ledger))
      ⊎ ((audits : List TransactionAudit) × (sync_saving_journal desk.db.ledger audits actor_id
              (corrected_saving req n r)
              texts
              fresh
            ≡ ok (desk'.db.ledger, desk'.transaction_audits)))

correct_saving-Corrects :
    (desk : SavingDesk) (actor : User) (id : Text) (req : SavingCorrection) (texts : Text → Text)
    (fresh : Fresh) {desk' : SavingDesk}
    → correct_saving desk actor id req texts fresh ≡ ok desk'
    → (r : SavingRecord) × (n : ℕ) × Corrects desk desk' actor.id id req texts fresh r n
unfolding correct_saving
correct_saving-Corrects desk actor id req texts fresh {desk'} h =
    elim (Result-cases (positive req.amount invalid_saving_correction)) [
      | inr (x, bad) ↦ absurd (ground arith)
      | inl (n, e) ↦ elim (Option-cases (find key_of_saving id desk.db.savings)) [
        | inl missing ↦ absurd (ground arith)
        | inr (r, row) ↦
            let audits =
              desk.transaction_audits
              ++ correction_audits r (corrected_saving req n r) actor.id (trim_space req.reason) in
            let z = (positive_lem req.amount invalid_saving_correction e).0 in
            elim (Bool-cases (same_financials r (corrected_saving req n r))) [
              | inl same ↦ (
                r,
                n,
                record {
                  row = row;
                  is_above = z;
                  kind = ground arith;
                  savings = ground arith;
                  journal = inl (ground arith, ground arith);
                },
              )
              | inr differs ↦
                  elim (Result-cases (
                    sync_saving_journal desk.db.ledger audits actor.id (corrected_saving req n r)
                      texts fresh)) [
                        | inr (x, bad) ↦ absurd (ground arith)
                        | inl ((ledger, audits'), synced) ↦ (
                          r,
                          n,
                          record {
                            row = row;
                            is_above = z;
                            kind = ground arith;
                            savings = ground arith;
                            journal = inr (audits, ground arith);
                          },
                        )
                      ]
            ]
      ]
    ]

-- Correcting a deposit, under identifiers not in use for its journals, keeps every journal balanced and
-- one entry standing for every deposit, of its amount.
pub correct_saving-IsBooked :
    (desk : SavingDesk) (actor : User) (id : Text) (req : SavingCorrection) (texts : Text → Text)
    (fresh : Fresh) {desk' : SavingDesk}
    → correct_saving desk actor id req texts fresh ≡ ok desk'
    → IsUnused fresh desk.db.ledger.entries
    → IsBooked desk.db
    → IsBooked desk'.db
correct_saving-IsBooked desk actor id req texts fresh {desk'} h unused v =
    let (r, n, w) = correct_saving-Corrects desk actor id req texts fresh {desk' = desk'} h in
    let r' = corrected_saving req n r in
    let at_id = saving_id desk.db v id r w.row w.kind in
    let named : IsKeyed key_of_saving desk'.db.savings = rw w.savings (
      IsKeyed-update key_of_saving id (λ _. r') desk.db.savings
        (λ q here. at_id ∙ sym (text_eq→eq q.id id here)) v.named) in
    let sums : (m : ℕ → ℕ) (u : Text)
        → sum_of (deposited m u) desk'.db.savings + (if text_eq r.id u then m r.amount else 0)
          ≡ sum_of (deposited m u) desk.db.savings + (if text_eq r.id u then m n else 0) =
      (λ m u.
        let total =
          sum_of-update key_of_saving (deposited m u) id (λ _. r') desk.db.savings w.row in
        rw w.savings (ground (arith, total, w.kind))) in
    elim w.journal [
      | inl (same, kept) ↦ record {
        named = named;
        ordered = rw kept v.ordered;
        top = rw kept v.top;
        mirrored = λ m t.
            let total = rw same at (sums m t) in rw kept (omega (arith, total, v.mirrored m t));
      }
      | inr (audits, synced) ↦
          let (e, found, amount) = stands_for desk.db v id r w.row w.kind in
          synced-IsBooked desk.db v id r w.row w.kind desk'.db (some n) named sums e.amount amount (
            sync_saving_journal-Synced desk.db.ledger audits r' texts fresh v.ordered v.top
              (deposited_own desk.db v id r w.row w.kind (λ _. 1)) unused e found actor.id
              desk'.db.ledger desk'.transaction_audits w.is_above synced)
    ]

-- What a removal does.
record Removes (desk desk' : SavingDesk) (actor : User) (id : Text) (texts : Text → Text)
    (fresh : Fresh) (r : SavingRecord) (p : Prepared) : Type 0 where
  row : find key_of_saving id desk.db.savings ≡ some r
  kind : is_deposit r.saving_type ≡ true
  savings : desk'.db.savings ≡ keep (λ (q : SavingRecord). not (text_eq q.id id)) desk.db.savings
  prepared : prepare_removal desk.db.ledger desk.transaction_audits actor r texts fresh ≡ ok p
  ledger : desk'.db.ledger ≡ p.ledger

remove_saving-Removes :
    (desk : SavingDesk) (actor : User) (id text : Text) (texts : Text → Text) (fresh : Fresh)
    {desk' : SavingDesk}
    → remove_saving desk actor id text texts fresh ≡ ok desk'
    → (r : SavingRecord) × (p : Prepared) × Removes desk desk' actor id texts fresh r p
unfolding remove_saving
remove_saving-Removes desk actor id text texts fresh {desk'} h =
    elim (Option-cases (find key_of_saving id desk.db.savings)) [
      | inl missing ↦ absurd (ground arith)
      | inr (r, row) ↦
          elim (Result-cases
            (prepare_removal desk.db.ledger desk.transaction_audits actor r texts fresh)) [
              | inr (x, bad) ↦ absurd (ground arith)
              | inl (p, prepared) ↦ (
                r,
                p,
                record {
                  row = row;
                  kind = ground arith;
                  savings = ground arith;
                  prepared = prepared;
                  ledger = ground arith;
                },
              )
            ]
    ]

-- A source that is found is undone.
prepare_removal-source :
    (ledger : Ledger) (audits : List TransactionAudit) (actor : User) (r : SavingRecord)
    (texts : Text → Text) (fresh : Fresh) {e : Entry}
    → last_of (is_source r.id savings_type) ledger.entries ≡ some e
    → prepare_removal ledger audits actor r texts fresh
      ≡ undo_journal ledger audits actor r texts fresh e
unfolding prepare_removal
prepare_removal-source ledger audits actor r texts fresh {e} h = ground (arith, h)

-- Removing a deposit does so too: its entry is removed or reversed, and none stands for it any more.
pub remove_saving-IsBooked :
    (desk : SavingDesk) (actor : User) (id text : Text) (texts : Text → Text) (fresh : Fresh)
    {desk' : SavingDesk}
    → remove_saving desk actor id text texts fresh ≡ ok desk'
    → IsUnused fresh desk.db.ledger.entries
    → IsBooked desk.db
    → IsBooked desk'.db
remove_saving-IsBooked desk actor id text texts fresh {desk'} h unused v =
    let (r, p, w) = remove_saving-Removes desk actor id text texts fresh {desk' = desk'} h in
    let test = λ (q : SavingRecord). not (text_eq q.id id) in
    let (e, found, amount) = stands_for desk.db v id r w.row w.kind in
    let source : last_of (is_source r.id savings_type) desk.db.ledger.entries ≡ some e =
      last_of-source savings_type r.id desk.db.ledger.entries desk.db.ledger.entries {e = e} v.top
        found in
    let s =
      undo_journal-Synced desk.db.ledger desk.transaction_audits r texts fresh v.ordered v.top
        (deposited_own desk.db v id r w.row w.kind (λ _. 1)) unused e found actor p
        (sym (
            prepare_removal-source desk.db.ledger desk.transaction_audits actor r texts fresh
              source)
          ∙ w.prepared) in
    synced-IsBooked desk.db v id r w.row w.kind desk'.db none
      (rw w.savings (IsKeyed-keep key_of_saving test desk.db.savings v.named))
      (λ m u.
        let total = sum_of-keep key_of_saving (deposited m u) id desk.db.savings w.row v.named in
        rw w.savings (elim (Bool-cases (text_eq r.id u)) [
          | inl here ↦ ground (arith, total, here, w.kind)
          | inr other ↦ ground (arith, total, other, w.kind)
        ]))
      e.amount amount (rw w.ledger s)
