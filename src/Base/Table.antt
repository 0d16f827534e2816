-- ===== src/Base/Table.antt =====
-- Rows under a text as primary key: the first match is the only one.
use Prim.Native.Nat.{ℕ, ◌+◌}
use mathlib.Core.Path.{◌≡◌, refl, ap}
use mathlib.Core.Bool.{true, false, not}
use mathlib.Core.Logic.{inl, inr}
use mathlib.Core.Option.{Option, none, some}
use mathlib.Core.List.{List, [], ◌∷◌, ◌++◌}
use native.Mathlib.Omega.{arith}
use kopdes.Base.Tests.{if◌then◌else◌, Bool-cases}
use kopdes.Base.Lists.{All, sum_of, keep}
use kopdes.Base.Text.{Text, text_eq, text_eq→eq, text_eq_sym-false}

module _ {ℓ} {A : Type ℓ} (key : A → Text) where
  -- `SELECT … WHERE id=$1`
  unfoldable pub find : Text → List A → Option A
  find k [] = none
  find k (a ∷ rest) = if text_eq (key a) k then some a else find k rest

  -- `UPDATE … WHERE id=$1`
  unfoldable pub update : Text → (A → A) → List A → List A
  update k f [] = []
  update k f (a ∷ rest) =
      let rest' = update k f rest in if text_eq (key a) k then f a ∷ rest else a ∷ rest'

  pub All-update {κ} :
      (P : A → Type κ) (k : Text) (f : A → A) (rows : List A) {a : A}
      → find k rows ≡ some a
      → All P rows
      → P (f a)
      → All P (update k f rows)
  unfolding find update
  All-update P k f [] e h p = tt
  All-update P k f (b ∷ rest) {a} e h p = elim (Bool-cases (text_eq (key b) k)) [
    | inl here ↦ let same : b ≡ a = ground arith in rw here (rw same p, h.1)
    | inr later ↦ rw later (h.0, All-update P k f rest (ground arith) h.1 p)
  ]

  -- Only the row that is found matters.
  pub update-found :
      (k : Text) (f : A → A) (rows : List A) {a : A}
      → find k rows ≡ some a
      → update k f rows ≡ update k (λ _. f a) rows
  unfolding find update
  update-found k f [] e = refl
  update-found k f (b ∷ rest) {a} e = elim (Bool-cases (text_eq (key b) k)) [
    | inl here ↦ let same : b ≡ a = ground arith in rw (here, same) refl
    | inr later ↦ rw later (ap (λ (t : List A). b ∷ t) (update-found k f rest (ground arith)))
  ]

  -- What a predicate on every row says of the row that is found.
  pub All-find {κ} :
      (P : A → Type κ) (k : Text) (rows : List A) {a : A} → find k rows ≡ some a → All P rows → P a
  unfolding find
  All-find P k [] {a} e h = absurd (ground arith)
  All-find P k (b ∷ rest) {a} e h = elim (Bool-cases (text_eq (key b) k)) [
    | inl here ↦ let same : b ≡ a = ground arith in rw same at h.0
    | inr later ↦ All-find P k rest (ground arith) h.1
  ]

  -- A sum over the rows after an update.
  pub sum_of-update :
      (g : A → ℕ) (k : Text) (f : A → A) (rows : List A) {a : A}
      → find k rows ≡ some a
      → sum_of g (update k f rows) + g a ≡ sum_of g rows + g (f a)
  unfolding find update
  sum_of-update g k f [] e = cc
  sum_of-update g k f (b ∷ rest) {a} e = elim (Bool-cases (text_eq (key b) k)) [
    | inl here ↦ let same : b ≡ a = ground arith in rw (here, same) (omega arith)
    | inr later ↦ rw later (omega (arith, sum_of-update g k f rest {a = a} (ground arith)))
  ]

  -- The key is one of a kind in its table.
  abbrev pub IsKeyed : List A → Type ℓ
  IsKeyed [] = Unit
  IsKeyed (a ∷ rest) = (find (key a) rest ≡ none) × IsKeyed rest

  find-update-none :
      (j k : Text) (f : A → A) (rows : List A)
      → ((a : A) → text_eq (key a) k ≡ true → key (f a) ≡ key a)
      → find j rows ≡ none
      → find j (update k f rows) ≡ none
  unfolding find update
  find-update-none j k f [] same h = refl
  find-update-none j k f (a ∷ rest) same h = elim (Bool-cases (text_eq (key a) k)) [
    | inl here ↦ elim (Bool-cases (text_eq (key a) j)) [
      | inl it ↦ absurd (ground arith)
      | inr not_it ↦ rw (here, same a here, not_it) (ground arith)
    ]
    | inr later ↦ elim (Bool-cases (text_eq (key a) j)) [
      | inl it ↦ absurd (ground arith)
      | inr not_it ↦ rw (later, not_it) (find-update-none j k f rest same (ground arith))
    ]
  ]

  pub IsKeyed-update :
      (k : Text) (f : A → A) (rows : List A)
      → ((a : A) → text_eq (key a) k ≡ true → key (f a) ≡ key a)
      → IsKeyed rows
      → IsKeyed (update k f rows)
  unfolding update
  IsKeyed-update k f [] same h = tt
  IsKeyed-update k f (a ∷ rest) same h = elim (Bool-cases (text_eq (key a) k)) [
    | inl here ↦ rw here (rw (same a here) h.0, h.1)
    | inr later ↦
        rw later (find-update-none (key a) k f rest same h.0, IsKeyed-update k f rest same h.1)
  ]

  pub find-append_one :
      (j : Text) (rows : List A) (a : A)
      → find j rows ≡ none
      → text_eq (key a) j ≡ false
      → find j (rows ++ a ∷ []) ≡ none
  unfolding find
  find-append_one j [] a h other = rw other refl
  find-append_one j (b ∷ rest) a h other = elim (Bool-cases (text_eq (key b) j)) [
    | inl it ↦ absurd (ground arith)
    | inr not_it ↦ rw not_it (find-append_one j rest a (ground arith) other)
  ]

  -- A row under a key that is not in use.
  pub IsKeyed-append_one :
      (rows : List A) (a : A) → find (key a) rows ≡ none → IsKeyed rows → IsKeyed (rows ++ a ∷ [])
  unfolding find
  IsKeyed-append_one [] a h keyed = (refl, tt)
  IsKeyed-append_one (b ∷ rest) a h keyed = elim (Bool-cases (text_eq (key b) (key a))) [
    | inl it ↦ absurd (ground arith)
    | inr not_it ↦ (
      find-append_one (key b) rest a keyed.0 (text_eq_sym-false (key b) (key a) not_it),
      IsKeyed-append_one rest a (ground arith) keyed.1,
    )
  ]

  sum_of-keep-none :
      (g : A → ℕ) (k : Text) (rows : List A)
      → find k rows ≡ none
      → sum_of g (keep (λ (a : A). not (text_eq (key a) k)) rows) ≡ sum_of g rows
  unfolding find
  sum_of-keep-none g k [] h = refl
  sum_of-keep-none g k (b ∷ rest) h = elim (Bool-cases (text_eq (key b) k)) [
    | inl it ↦ absurd (ground arith)
    | inr not_it ↦ rw not_it (omega (arith, sum_of-keep-none g k rest (ground arith)))
  ]

  -- A sum over the other rows.
  pub sum_of-keep :
      (g : A → ℕ) (k : Text) (rows : List A) {a : A}
      → find k rows ≡ some a
      → IsKeyed rows
      → sum_of g rows ≡ g a + sum_of g (keep (λ (b : A). not (text_eq (key b) k)) rows)
  unfolding find
  sum_of-keep g k [] h keyed = cc
  sum_of-keep g k (b ∷ rest) {a} h keyed = elim (Bool-cases (text_eq (key b) k)) [
    | inl it ↦
        let same : b ≡ a = ground arith in
        let gone : find k rest ≡ none = rw (text_eq→eq (key b) k it) at keyed.0 in
        rw (it, same) (omega (arith, sum_of-keep-none g k rest gone))
    | inr not_it ↦ rw not_it (omega (arith, sum_of-keep g k rest {a = a} (ground arith) keyed.1))
  ]

  pub All-other :
      (k : Text) (rows : List A)
      → find k rows ≡ none
      → All (λ (b : A). text_eq (key b) k ≡ false) rows
  unfolding find
  All-other k [] h = tt
  All-other k (b ∷ rest) h = elim (Bool-cases (text_eq (key b) k)) [
    | inl it ↦ absurd (ground arith)
    | inr not_it ↦ (not_it, All-other k rest (ground arith))
  ]

  pub All-carry {κ μ} :
      (P : A → Type κ) (Q : A → Type μ) (k : Text) (rows : List A)
      → ((b : A) → text_eq (key b) k ≡ false → P b → Q b)
      → All (λ (b : A). text_eq (key b) k ≡ false) rows
      → All P rows
      → All Q rows
  All-carry P Q k [] carry others h = tt
  All-carry P Q k (b ∷ rest) carry others h =
      (carry b others.0 h.0, All-carry P Q k rest carry others.1 h.1)

  -- After an update of the one row under a key: what holds of the new row, and carries over for the
  -- others.
  pub All-update_one {κ μ} :
      (P : A → Type κ) (Q : A → Type μ) (k : Text) (f : A → A) (rows : List A) {a : A}
      → find k rows ≡ some a
      → IsKeyed rows
      → All P rows
      → Q (f a)
      → ((b : A) → text_eq (key b) k ≡ false → P b → Q b)
      → All Q (update k f rows)
  unfolding find update
  All-update_one P Q k f [] e keyed h q carry = tt
  All-update_one P Q k f (b ∷ rest) {a} e keyed h q carry = elim (Bool-cases (text_eq (key b) k)) [
    | inl here ↦
        let same : b ≡ a = ground arith in
        let gone : find k rest ≡ none = rw (text_eq→eq (key b) k here) at keyed.0 in
        rw here (rw same q, All-carry P Q k rest carry (All-other k rest gone) h.1)
    | inr later ↦
        rw later (carry b later h.0, All-update_one P Q k f rest (ground arith) keyed.1 h.1 q carry)
  ]

  -- A row that is found stands under its key.
  pub find-key :
      (k : Text) (rows : List A) {a : A} → find k rows ≡ some a → text_eq (key a) k ≡ true
  unfolding find
  find-key k [] {a} e = absurd (ground arith)
  find-key k (b ∷ rest) {a} e = elim (Bool-cases (text_eq (key b) k)) [
    | inl here ↦ let same : b ≡ a = ground arith in rw same at here
    | inr later ↦ find-key k rest (ground arith)
  ]

  -- The row that is found after an update.
  pub find-update :
      (k : Text) (f : A → A) (rows : List A) {a : A}
      → find k rows ≡ some a
      → text_eq (key (f a)) k ≡ true
      → find k (update k f rows) ≡ some (f a)
  unfolding find update
  find-update k f [] e same = absurd (ground arith)
  find-update k f (b ∷ rest) {a} e same = elim (Bool-cases (text_eq (key b) k)) [
    | inl here ↦ let it : b ≡ a = ground arith in rw (here, it, same) refl
    | inr later ↦ rw (later, later) (find-update k f rest (ground arith) same)
  ]

  -- The other rows after an update.
  pub keep-update :
      (k : Text) (f : A → A) (rows : List A)
      → ((a : A) → text_eq (key a) k ≡ true → text_eq (key (f a)) k ≡ true)
      → keep (λ (b : A). not (text_eq (key b) k)) (update k f rows)
        ≡ keep (λ (b : A). not (text_eq (key b) k)) rows
  unfolding update
  keep-update k f [] same = refl
  keep-update k f (b ∷ rest) same = elim (Bool-cases (text_eq (key b) k)) [
    | inl here ↦ rw (here, same b here) refl
    | inr later ↦ rw (later, later) (ap (λ (t : List A). b ∷ t) (keep-update k f rest same))
  ]
