-- ===== src/Accounting/Exchanged.antt =====
-- What a correction does to the amounts that stand in the ledger
-- (internal/app/repayment_corrections.go).
use kopdes.Base.{
  ℕ, ◌+◌, ◌≡◌, sym, ap, ◌∙◌, ◌&&◌, false, not, if◌then◌else◌, Option, none, some, List, [], ◌∷◌,
  ◌++◌, keep, sum_of-append, true, ok, arith, inl, inr, Bool-cases,
}
use mathlib.Core.List.{append_assoc}
use kopdes.Base.Text.{Text, text_eq, text_eq→eq, text_eq_refl}
use kopdes.Base.Table.{find, update}
use kopdes.Accounting.Types.{Entry}
use kopdes.Accounting.Reversal.{key_of_entry, is_reversed, reverse_entry}
use kopdes.Accounting.Reversed.{reverse_entry-cancels}
use kopdes.Accounting.Live.{
  Stands, live_sum, live_measure, live_sum-reversed, live_sum-removed, live_sum-amended,
  is_reversed-append, sum_of-same,
}
use kopdes.Accounting.Standing.{IsOrdered, IsNew, Amends}

-- What a change does to the live amounts: for every measure, an old amount of a transaction goes and
-- a new one may come.
abbrev pub arriving : (ℕ → ℕ) → Option ℕ → ℕ
arriving m none = 0
arriving m (some n) = m n

pub record Exchanges (type : Text) (es es' : List Entry) (t : Text) (old : ℕ) (new : Option ℕ)
    : Type 0 where
  pub sums :
      (m : ℕ → ℕ) (u : Text)
      → live_sum m u type es' + (if text_eq t u then m old else 0)
        ≡ live_sum m u type es + (if text_eq t u then arriving m new else 0)

module _ (type : Text) (es : List Entry) (o : IsOrdered type es) (t : Text) (e : Entry)
    (s : Stands es t type e) where
  pub removed-Exchanges :
      Exchanges type es (keep (λ (x : Entry). not (text_eq x.id e.id)) es) t e.amount none
  removed-Exchanges = record {
    sums = λ m u.
        let moved = live_sum-removed m type es t e s o.entered u in
        elim (Bool-cases (text_eq t u)) [
          | inl here ↦ rw here (omega (arith, rw here at moved))
          | inr other ↦ rw other (omega (arith, rw other at moved))
        ];
  }

  pub amended-Exchanges :
      (f : Entry → Entry) (n : ℕ)
      → Amends f n
      → Exchanges type es (update key_of_entry e.id f es) t e.amount (some n)
  amended-Exchanges f n a = record {
    sums = λ m u.
        let moved =
          live_sum-amended m type es t e s o.entered f a.same_reversal a.same_id a.same_transaction
            a.same_type u in
        rw (a.amount e) at moved;
  }

  module _ (today prefix actor_id new_id : Text) (r : Entry)
      (h : reverse_entry e today prefix actor_id new_id ≡ ok r) where
    is_reversal : r.reversal_of ≡ some e.id
    is_reversal = (reverse_entry-cancels e today prefix actor_id new_id {r = r} [] h).1

    reversed_measure : (m : ℕ → ℕ) (u : Text) (all : List Entry) → live_measure m u type all r ≡ 0
    reversed_measure m u all = ground (arith, is_reversal)

    pub reversed-Exchanges : Exchanges type es (es ++ r ∷ []) t e.amount none
    reversed-Exchanges = record {
      sums = λ m u.
          let moved =
            live_sum-reversed m type es t e s o.entered (r ∷ []) (λ id. ground (arith, is_reversal))
              u in
          let nothing = reversed_measure m u (es ++ r ∷ []) in
          elim (Bool-cases (text_eq t u)) [
            | inl here ↦ rw here (omega (arith, rw here at moved, nothing))
            | inr other ↦ rw other (omega (arith, rw other at moved, nothing))
          ];
    }

    -- The new entry stands.
    replacing_measure :
        (c : Entry)
        → IsNew c.id es
        → c.reversal_of ≡ none
        → c.transaction_id ≡ t
        → c.transaction_type ≡ type
        → (m : ℕ → ℕ) (u : Text)
        → live_measure m u type (es ++ r ∷ c ∷ []) c ≡ (if text_eq t u then m c.amount else 0)
    replacing_measure c unused original of_t of_type m u =
        let apart : text_eq e.id c.id ≡ false = elim (Bool-cases (text_eq e.id c.id)) [
          | inl same ↦
              let row : find key_of_entry c.id es ≡ some e =
                ap (λ (k : Text). find key_of_entry k es) (sym (text_eq→eq e.id c.id same))
                ∙ s.row in
              absurd (ground (arith, row, unused.not_entered))
          | inr other ↦ other
        ] in
        let unreversed : is_reversed c.id (es ++ r ∷ c ∷ []) ≡ false =
          is_reversed-append c.id es (r ∷ c ∷ [])
          ∙ ground (arith, unused.not_reversed, is_reversal, original, apart) in
        let reads : live_measure m u type (es ++ r ∷ c ∷ []) c ≡ (
            if text_eq c.transaction_id u && text_eq c.transaction_type type
            then m c.amount
            else 0) =
          ground (arith, unreversed, original) in
        reads ∙ rw (of_t, of_type, text_eq_refl type) (ground arith)

    pub replaced-Exchanges :
        (c : Entry)
        → IsNew c.id es
        → c.reversal_of ≡ none
        → c.transaction_id ≡ t
        → c.transaction_type ≡ type
        → Exchanges type es ((es ++ r ∷ []) ++ c ∷ []) t e.amount (some c.amount)
    replaced-Exchanges c unused original of_t of_type = record {
      sums = λ m u.
          let moved =
            live_sum-reversed m type es t e s o.entered (r ∷ c ∷ [])
              (λ id. ground (arith, is_reversal, original)) u in
          let gone = reversed_measure m u (es ++ r ∷ c ∷ []) in
          let come = replacing_measure c unused original of_t of_type m u in
          rw (append_assoc es (r ∷ []) (c ∷ [])) (omega (arith, moved, gone, come));
    }

-- A new entry that reverses none stands.
pub live_sum-entered :
    (m : ℕ → ℕ) (type : Text) (es : List Entry) (c : Entry) (u : Text)
    → IsNew c.id es
    → c.reversal_of ≡ none
    → c.transaction_type ≡ type
    → live_sum m u type (es ++ c ∷ [])
      ≡ live_sum m u type es + (if text_eq c.transaction_id u then m c.amount else 0)
unfolding live_sum
live_sum-entered m type es c u unused original of_type =
    let all = es ++ c ∷ [] in
    let unreversed : is_reversed c.id all ≡ false =
      is_reversed-append c.id es (c ∷ []) ∙ ground (arith, unused.not_reversed, original) in
    let same =
      sum_of-same m u type es all es
        (λ id. sym (is_reversed-append id es (c ∷ []) ∙ ground (arith, original))) in
    let both = sum_of-append (live_measure m u type all) es (c ∷ []) in
    let kind : text_eq c.transaction_type type ≡ true = rw of_type (text_eq_refl type) in
    let own : live_measure m u type all c ≡ (if text_eq c.transaction_id u then m c.amount else 0) =
      ground (arith, unreversed, original, kind) in
    omega (arith, same, both, own)
