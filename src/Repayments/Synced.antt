-- ===== src/Repayments/Synced.antt =====
-- What `syncRepaymentJournalTx` of internal/app/repayment_corrections.go does to the ledger.
use kopdes.Base.{
  ℕ, ◌<◌, ◌≡◌, refl, true, false, not, Option, none, some, List, [], ◌∷◌, ◌++◌, keep, ok, arith,
  inl, inr, Result-cases,
}
use kopdes.Base.Text.{Text, codes, text_eq, text_eq→eq}
use kopdes.Base.Table.{update}
use kopdes.Accounting.Types.{Entry, JournalStatus, posted, pending_mapping, Ledger}
use kopdes.Accounting.Reversal.{TransactionAudit, last_of, is_live, reverse_entry}
use kopdes.Accounting.Live.{Stands, last_of-Stands}
use kopdes.Accounting.Standing.{
  IsOrdered, IsNew, Amends, removed-IsOrdered, amended-IsOrdered, reversed-IsOrdered,
  replaced-IsOrdered,
}
use kopdes.Accounting.Exchanged.{
  Exchanges, removed-Exchanges, amended-Exchanges, reversed-Exchanges, replaced-Exchanges,
}
use kopdes.Repayments.Types.{Repayment}
use kopdes.Repayments.Corrections.{
  Fresh, sync_repayment_journal, sync_posted, amended_entry, corrected_entry,
}

abbrev pub repayment_type : Text
repayment_type = codes "repayment"

-- The identifiers that a call makes are not in use.
pub record IsUnused (fresh : Fresh) (es : List Entry) : Type 0 where
  pub reversal : IsNew fresh.reversal_id es
  pub journal : IsNew fresh.journal_id es
  pub apart : text_eq fresh.reversal_id fresh.journal_id ≡ false

amended_entry-Amends : (r : Repayment) → Amends (amended_entry r) r.amount
amended_entry-Amends r = record {
  same_id = λ x. refl;
  same_transaction = λ x. refl;
  same_type = λ x. refl;
  same_reversal = λ x. refl;
  same_status = λ x. refl;
  amount = λ x. refl;
  lines = λ x. refl;
}

-- The entries after, with the amounts exchanged.
abbrev pub Synced : List Entry → List Entry → Text → ℕ → Option ℕ → Type 0
Synced es es' t old new = IsOrdered repayment_type es' × Exchanges repayment_type es es' t old new

module _ (ledger : Ledger) (audits : List TransactionAudit) (actor_id : Text) (r : Repayment)
    (loan_type : Text) (fresh : Fresh) (o : IsOrdered repayment_type ledger.entries)
    (unused : IsUnused fresh ledger.entries) (e : Entry)
    (chosen : last_of (is_live r.id repayment_type ledger.entries) ledger.entries ≡ some e)
    (ledger' : Ledger) (audits' : List TransactionAudit) where
  stands : Stands ledger.entries r.id repayment_type e
  stands = last_of-Stands r.id repayment_type ledger.entries {e = e} o.entered chosen

  abbrev prefix : Text
  prefix = codes "Reversal: "

  removed_as :
      (status : JournalStatus)
      → e.status ≡ status
      → sync_repayment_journal ledger audits actor_id r loan_type true fresh ≡ ok (ledger', audits')
      → Synced ledger.entries ledger'.entries r.id e.amount none
  unfolding sync_repayment_journal sync_posted
  removed_as pending_mapping is h =
      let rows : ledger'.entries ≡ keep (λ (x : Entry). not (text_eq x.id e.id)) ledger.entries =
        ground (arith, chosen) in
      rw rows (
        removed-IsOrdered repayment_type ledger.entries o e.id,
        removed-Exchanges repayment_type ledger.entries o r.id e stands,
      )
  removed_as posted is h =
      elim (Result-cases (reverse_entry e fresh.today prefix actor_id fresh.reversal_id)) [
        | inr (x, bad) ↦ absurd (ground (arith, chosen))
        | inl (reversal, done) ↦
            let rows : ledger'.entries ≡ ledger.entries ++ reversal ∷ [] = ground (arith, chosen) in
            rw rows (
              reversed-IsOrdered repayment_type ledger.entries o r.id e stands fresh.today prefix
                  actor_id fresh.reversal_id done unused.reversal,
              reversed-Exchanges repayment_type ledger.entries o r.id e stands fresh.today prefix
                  actor_id fresh.reversal_id reversal done,
            )
      ]

  corrected_as :
      (status : JournalStatus)
      → e.status ≡ status
      → 0 < r.amount
      → sync_repayment_journal ledger audits actor_id r loan_type false fresh
        ≡ ok (ledger', audits')
      → Synced ledger.entries ledger'.entries r.id e.amount (some r.amount)
  unfolding sync_repayment_journal sync_posted
  corrected_as pending_mapping is z h =
      let rows : ledger'.entries
          ≡ update (λ (x : Entry). x.id) e.id (amended_entry r) ledger.entries =
        ground (arith, chosen) in
      rw rows (
        amended-IsOrdered repayment_type ledger.entries o r.id e stands (amended_entry r) r.amount
            (amended_entry-Amends r) z,
        amended-Exchanges repayment_type ledger.entries o r.id e stands (amended_entry r) r.amount
            (amended_entry-Amends r),
      )
  corrected_as posted is z h =
      elim (Result-cases (reverse_entry e fresh.today prefix actor_id fresh.reversal_id)) [
        | inr (x, bad) ↦ absurd (ground (arith, chosen))
        | inl (reversal, done) ↦
            let c = corrected_entry e r actor_id fresh.journal_id in
            let rows : ledger'.entries ≡ (ledger.entries ++ reversal ∷ []) ++ c ∷ [] =
              ground (arith, chosen) in
            let of_type : e.transaction_type ≡ repayment_type =
              text_eq→eq e.transaction_type repayment_type (ground (arith, stands.live)) in
            rw rows (
              replaced-IsOrdered repayment_type ledger.entries o r.id e stands fresh.today prefix
                  actor_id fresh.reversal_id c r.amount done unused.reversal unused.journal
                  unused.apart is refl refl refl z,
              replaced-Exchanges repayment_type ledger.entries o r.id e stands fresh.today prefix
                  actor_id fresh.reversal_id reversal done c unused.journal refl refl of_type,
            )
      ]

  pub removed-Synced :
      sync_repayment_journal ledger audits actor_id r loan_type true fresh ≡ ok (ledger', audits')
      → Synced ledger.entries ledger'.entries r.id e.amount none
  removed-Synced h = removed_as e.status refl h

  pub corrected-Synced :
      0 < r.amount
      → sync_repayment_journal ledger audits actor_id r loan_type false fresh
        ≡ ok (ledger', audits')
      → Synced ledger.entries ledger'.entries r.id e.amount (some r.amount)
  corrected-Synced z h = corrected_as e.status refl z h
