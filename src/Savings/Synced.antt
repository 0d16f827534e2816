-- ===== src/Savings/Synced.antt =====
-- What the correction and the removal of a deposit do to the ledger: `syncSavingCorrectionJournalTx`
-- and `prepareSavingJournalForRemovalTx` of internal/app/saving_corrections.go.
use kopdes.Base.{
  ℕ, ◌<◌, ◌≡◌, refl, not, Option, none, some, List, [], ◌∷◌, ◌++◌, keep, ok, arith, inl, inr,
  Result-cases, false,
}
use kopdes.Base.Text.{Text, codes, text_eq, text_eq→eq, text_eq_refl}
use kopdes.Base.Table.{update}
use kopdes.Approval.Requests.{User}
use kopdes.Accounting.Types.{Entry, JournalStatus, posted, pending_mapping, Ledger}
use kopdes.Accounting.Reversal.{
  TransactionAudit, last_of, is_live, is_reversed, reverses, reverse_entry,
}
use kopdes.Accounting.Live.{Stands, live_sum, last_of-Stands}
use kopdes.Accounting.Standing.{
  IsOrdered, Amends, removed-IsOrdered, amended-IsOrdered, reversed-IsOrdered, replaced-IsOrdered,
}
use kopdes.Accounting.Exchanged.{
  Exchanges, removed-Exchanges, amended-Exchanges, reversed-Exchanges, replaced-Exchanges,
}
use kopdes.Accounting.Reversed.{reverse_entry-cancels}
use kopdes.Accounting.Topmost.{IsTop, reversed-IsTop, entered-IsTop, amended-IsTop, removed-IsTop}
use kopdes.Repayments.Corrections.{Fresh}
use kopdes.Repayments.Synced.{IsUnused}
use kopdes.Savings.{SavingRecord}
use kopdes.Savings.Corrections.{
  reverse_saving_journal, sync_saving_journal, amended_saving_entry, replacing_entry,
}
use kopdes.Savings.Removal.{undo_journal, Prepared}
use kopdes.Savings.Entered.{savings_type}

amended_saving_entry-Amends : (r : SavingRecord) → Amends (amended_saving_entry r) r.amount
amended_saving_entry-Amends r = record {
  same_id = λ x. refl;
  same_transaction = λ x. refl;
  same_type = λ x. refl;
  same_reversal = λ x. refl;
  same_status = λ x. refl;
  amount = λ x. refl;
  lines = λ x. refl;
}

abbrev prefix_of : (Text → Text) → Text
prefix_of texts = texts (codes "journal_reversal_prefix") ++ codes ": "

reverse_saving_journal_lem :
    (e : Entry) (today : Text) (texts : Text → Text) (actor_id new_id : Text) {r : Entry}
    → reverse_saving_journal e today texts actor_id new_id ≡ ok r
    → reverse_entry e today (prefix_of texts) actor_id new_id ≡ ok r
unfolding reverse_saving_journal
reverse_saving_journal_lem e today texts actor_id new_id {r} h =
    elim (Result-cases (reverse_entry e today (prefix_of texts) actor_id new_id)) [
      | inl (r', done) ↦ ground (arith, done)
      | inr (x, bad) ↦ absurd (ground (arith, bad))
    ]

last_of-unreversed :
    (id : Text) (es : List Entry)
    → is_reversed id es ≡ false
    → last_of (λ (x : Entry). reverses id x.reversal_of) es ≡ none
last_of-unreversed id [] h = refl
last_of-unreversed id (x ∷ es) h = ground (arith, last_of-unreversed id es)

-- The entries after, with the amounts exchanged, and none that hides one that stands.
abbrev pub Synced : List Entry → List Entry → Text → ℕ → Option ℕ → Type 0
Synced es es' t old new =
    IsOrdered savings_type es' × IsTop savings_type es' × Exchanges savings_type es es' t old new

module _ (ledger : Ledger) (audits : List TransactionAudit) (r : SavingRecord) (texts : Text → Text)
    (fresh : Fresh) (o : IsOrdered savings_type ledger.entries)
    (top : IsTop savings_type ledger.entries)
    (sole : live_sum (λ _. 1) r.id savings_type ledger.entries ≡ 1)
    (unused : IsUnused fresh ledger.entries) (e : Entry)
    (chosen : last_of (is_live r.id savings_type ledger.entries) ledger.entries ≡ some e) where
  stands : Stands ledger.entries r.id savings_type e
  stands = last_of-Stands r.id savings_type ledger.entries {e = e} o.entered chosen

  -- The reversal leaves none standing for the deposit.
  module _ (today prefix actor_id new_id : Text) (reversal : Entry)
      (done : reverse_entry e today prefix actor_id new_id ≡ ok reversal) where
    reversal-IsTop : IsTop savings_type (ledger.entries ++ reversal ∷ [])
    reversal-IsTop =
        let of_entry =
          (reverse_entry-cancels e today prefix actor_id new_id {r = reversal} [] done).1 in
        reversed-IsTop savings_type ledger.entries reversal (ground (arith, of_entry)) top

    reversal_sole : live_sum (λ _. 1) r.id savings_type (ledger.entries ++ reversal ∷ []) ≡ 0
    reversal_sole =
        let x =
          reversed-Exchanges savings_type ledger.entries o r.id e stands today prefix actor_id
            new_id reversal done in
        let moved = rw (text_eq_refl r.id) at (x.sums (λ _. 1) r.id) in omega (arith, moved, sole)

  corrected_as :
      (actor_id : Text) (ledger' : Ledger) (audits' : List TransactionAudit)
      (status : JournalStatus)
      → e.status ≡ status
      → 0 < r.amount
      → sync_saving_journal ledger audits actor_id r texts fresh ≡ ok (ledger', audits')
      → Synced ledger.entries ledger'.entries r.id e.amount (some r.amount)
  unfolding sync_saving_journal
  corrected_as actor_id ledger' audits' pending_mapping is z h =
      let rows : ledger'.entries
          ≡ update (λ (x : Entry). x.id) e.id (amended_saving_entry r) ledger.entries =
        ground (arith, chosen) in
      rw rows (
        amended-IsOrdered savings_type ledger.entries o r.id e stands (amended_saving_entry r)
            r.amount (amended_saving_entry-Amends r) z,
        amended-IsTop savings_type ledger.entries e.id (amended_saving_entry r)
            (amended_saving_entry-Amends r) top,
        amended-Exchanges savings_type ledger.entries o r.id e stands (amended_saving_entry r)
            r.amount (amended_saving_entry-Amends r),
      )
  corrected_as actor_id ledger' audits' posted is z h =
      elim (Result-cases (reverse_saving_journal e fresh.today texts actor_id fresh.reversal_id)) [
        | inr (x, bad) ↦ absurd (ground (arith, chosen))
        | inl (reversal, reversed) ↦
            let done =
              reverse_saving_journal_lem e fresh.today texts actor_id fresh.reversal_id
                {r = reversal} reversed in
            let c = replacing_entry texts e r actor_id fresh.journal_id in
            let rows : ledger'.entries ≡ (ledger.entries ++ reversal ∷ []) ++ c ∷ [] =
              ground (arith, chosen) in
            let of_type : e.transaction_type ≡ savings_type =
              text_eq→eq e.transaction_type savings_type (ground (arith, stands.live)) in
            rw rows (
              replaced-IsOrdered savings_type ledger.entries o r.id e stands fresh.today
                  (prefix_of texts) actor_id fresh.reversal_id c r.amount done unused.reversal
                  unused.journal unused.apart is refl refl refl z,
              entered-IsTop savings_type (ledger.entries ++ reversal ∷ []) c
                  (reversal_sole fresh.today (prefix_of texts) actor_id fresh.reversal_id reversal
                    done)
                  (reversal-IsTop fresh.today (prefix_of texts) actor_id fresh.reversal_id reversal
                    done),
              replaced-Exchanges savings_type ledger.entries o r.id e stands fresh.today
                  (prefix_of texts) actor_id fresh.reversal_id reversal done c unused.journal refl
                  refl of_type,
            )
      ]

  undone_as :
      (actor : User) (p : Prepared) (status : JournalStatus)
      → e.status ≡ status
      → last_of (λ (x : Entry). reverses e.id x.reversal_of) ledger.entries ≡ none
      → undo_journal ledger audits actor r texts fresh e ≡ ok p
      → Synced ledger.entries p.ledger.entries r.id e.amount none
  unfolding undo_journal
  undone_as actor p pending_mapping is unreversed h =
      let rows : p.ledger.entries ≡ keep (λ (x : Entry). not (text_eq x.id e.id)) ledger.entries =
        ground arith in
      rw rows (
        removed-IsOrdered savings_type ledger.entries o e.id,
        removed-IsTop savings_type ledger.entries r.id e stands o.entered top,
        removed-Exchanges savings_type ledger.entries o r.id e stands,
      )
  undone_as actor p posted is unreversed h =
      elim (Result-cases (reverse_saving_journal e fresh.today texts actor.id fresh.reversal_id)) [
        | inr (x, bad) ↦ absurd (ground arith)
        | inl (reversal, reversed) ↦
            let done =
              reverse_saving_journal_lem e fresh.today texts actor.id fresh.reversal_id
                {r = reversal} reversed in
            let rows : p.ledger.entries ≡ ledger.entries ++ reversal ∷ [] = ground arith in
            rw rows (
              reversed-IsOrdered savings_type ledger.entries o r.id e stands fresh.today
                  (prefix_of texts) actor.id fresh.reversal_id done unused.reversal,
              reversal-IsTop fresh.today (prefix_of texts) actor.id fresh.reversal_id reversal done,
              reversed-Exchanges savings_type ledger.entries o r.id e stands fresh.today
                  (prefix_of texts) actor.id fresh.reversal_id reversal done,
            )
      ]

  pub sync_saving_journal-Synced :
      (actor_id : Text) (ledger' : Ledger) (audits' : List TransactionAudit)
      → 0 < r.amount
      → sync_saving_journal ledger audits actor_id r texts fresh ≡ ok (ledger', audits')
      → Synced ledger.entries ledger'.entries r.id e.amount (some r.amount)
  sync_saving_journal-Synced actor_id ledger' audits' z h =
      corrected_as actor_id ledger' audits' e.status refl z h

  -- The entry that stands is not reversed, so it is removed or reversed.
  pub undo_journal-Synced :
      (actor : User) (p : Prepared)
      → undo_journal ledger audits actor r texts fresh e ≡ ok p
      → Synced ledger.entries p.ledger.entries r.id e.amount none
  undo_journal-Synced actor p h =
      undone_as actor p e.status refl
        (last_of-unreversed e.id ledger.entries (ground (arith, stands.live))) h
