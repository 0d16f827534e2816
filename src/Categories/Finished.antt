-- ===== src/Categories/Finished.antt =====
-- The loop of `validateCashTransactionCategoryParentTx`
-- (internal/app/cash_transaction_category_tree.go) always ends.
use kopdes.Base.{
  ℕ, zero, suc, ◌≤◌, ◌<◌, ◌≡◌, ◌≢◌, Bool, false, not, some, List, [], ◌∷◌, length, keep, err, arith,
  inl, inr, Bool-cases, Option-cases,
}
use kopdes.Base.Text.{Text, text_eq, text_eq→eq, text_eq_refl, text_eq_sym-false, trim_space}
use kopdes.Base.Table.{find}
use kopdes.Categories.{
  CashTransactionCategory, key_of_category, has_seen, walk_parents, validate_category_parent,
  unfinished,
}

-- The rows that the loop has not seen.
abbrev pub unseen : List Text → List CashTransactionCategory → ℕ
unseen seen rows = length (keep (λ (c : CashTransactionCategory). not (has_seen c.id seen)) rows)

unseen_mono :
    (seen : List Text) (id : Text) (rows : List CashTransactionCategory)
    → unseen (id ∷ seen) rows ≤ unseen seen rows
unseen_mono seen id [] = omega arith
unseen_mono seen id (c ∷ rows) = ground (arith, unseen_mono seen id rows)

-- A row that is found and was not seen counts once less.
pub unseen-found :
    (seen : List Text) (id : Text) (rows : List CashTransactionCategory)
    {c : CashTransactionCategory}
    → find key_of_category id rows ≡ some c
    → has_seen id seen ≡ false
    → unseen (id ∷ seen) rows < unseen seen rows
unfolding find
unseen-found seen id [] {c} h new = absurd (ground arith)
unseen-found seen id (b ∷ rows) {c} h new = elim (Bool-cases (text_eq b.id id)) [
  | inl here ↦
      let same = text_eq→eq b.id id here in
      rw same (ground (arith, text_eq_refl id, unseen_mono seen id rows))
  | inr later ↦
      ground (
        arith,
        text_eq_sym-false b.id id later,
        unseen-found seen id rows {c = c} (ground arith) new,
      )
]

pub length-keep :
    (test : CashTransactionCategory → Bool) (rows : List CashTransactionCategory)
    → length (keep test rows) ≤ length rows
length-keep test [] = omega arith
length-keep test (c ∷ rows) = ground (arith, length-keep test rows)

walk_parents-ends :
    (rows : List CashTransactionCategory) (fuel : ℕ) (seen : List Text) (id : Text)
    → unseen seen rows < fuel
    → walk_parents rows fuel seen id ≢ err unfinished
unfolding walk_parents
walk_parents-ends rows zero seen id le h = absurd (omega (arith, le))
walk_parents-ends rows (suc fuel) seen id le h = elim (Bool-cases (has_seen id seen)) [
  | inl again ↦ absurd (ground arith)
  | inr new ↦ elim (Option-cases (find key_of_category id rows)) [
    | inl missing ↦ absurd (ground arith)
    | inr (c, row) ↦
        walk_parents-ends rows fuel (id ∷ seen) (trim_space c.parent_id)
          (omega (arith, le, unseen-found seen id rows {c = c} row new)) (ground arith)
  ]
]

-- The check of a category's new parent always ends: its loop over the parents does not use up as
-- much fuel as there are categories and one more, whatever cycles their rows have.
pub validate_category_parent-ends :
    (rows : List CashTransactionCategory) (category_id parent direction : Text)
    → validate_category_parent rows category_id parent direction ≢ err unfinished
unfolding validate_category_parent
validate_category_parent-ends rows category_id parent direction h =
    elim (Option-cases (find key_of_category (trim_space parent) rows)) [
      | inl missing ↦ absurd (ground arith)
      | inr (c, row) ↦
          walk_parents-ends rows (suc (length rows)) (category_id ∷ []) (trim_space parent)
            (omega (arith, length-keep (λ c. not (has_seen c.id (category_id ∷ []))) rows))
            (ground arith)
    ]
