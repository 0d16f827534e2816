-- ===== src/Base/Keyed.antt =====
-- Rows whose keys are one of a kind: what is found among them, among some of them and after an update.
use mathlib.Core.Path.{◌≡◌, refl, ◌∙◌}
use mathlib.Core.Bool.{Bool, true, false}
use mathlib.Core.Logic.{inl, inr}
use mathlib.Core.Option.{none, some}
use mathlib.Core.List.{List, [], ◌∷◌, ◌++◌}
use native.Mathlib.Omega.{arith}
use kopdes.Base.Tests.{Bool-cases}
use kopdes.Base.Lists.{All, keep}
use kopdes.Base.Text.{Text, text_eq, text_eq→eq, text_eq_refl, text_eq_sym-false}
use kopdes.Base.Table.{find, update, IsKeyed, All-other}

module _ {ℓ} {A : Type ℓ} (key : A → Text) where
  -- An update under another key.
  pub find-update_other :
      (j k : Text) (f : A → A) (rows : List A)
      → text_eq k j ≡ false
      → ((a : A) → text_eq (key a) k ≡ true → key (f a) ≡ key a)
      → find key j (update key k f rows) ≡ find key j rows
  unfolding find update
  find-update_other j k f [] other same = refl
  find-update_other j k f (b ∷ rest) other same = elim (Bool-cases (text_eq (key b) k)) [
    | inl here ↦
        let not_j : text_eq (key b) j ≡ false = rw (text_eq→eq (key b) k here) other in
        rw (here, same b here, not_j) refl
    | inr later ↦ rw (later, find-update_other j k f rest other same) refl
  ]

  pub All-update_any {κ} :
      (P : A → Type κ) (k : Text) (f : A → A) (rows : List A)
      → ((a : A) → P a → P (f a))
      → All P rows
      → All P (update key k f rows)
  unfolding update
  All-update_any P k f [] carry h = tt
  All-update_any P k f (b ∷ rest) carry h = elim (Bool-cases (text_eq (key b) k)) [
    | inl here ↦ rw here (carry b h.0, h.1)
    | inr later ↦ rw later (h.0, All-update_any P k f rest carry h.1)
  ]

  pub find-cons_none :
      (k : Text) (a : A) (rest : List A)
      → find key k (a ∷ rest) ≡ none
      → (text_eq (key a) k ≡ false) × (find key k rest ≡ none)
  unfolding find
  find-cons_none k a rest h = elim (Bool-cases (text_eq (key a) k)) [
    | inl here ↦ absurd (ground arith)
    | inr later ↦ (later, ground arith)
  ]

  find_self : (a : A) (rest : List A) → find key (key a) (a ∷ rest) ≡ some a
  unfolding find
  find_self a rest = rw (text_eq_refl (key a)) refl

  find-later :
      (k : Text) (a : A) (rest : List A)
      → text_eq (key a) k ≡ false
      → find key k (a ∷ rest) ≡ find key k rest
  unfolding find
  find-later k a rest h = rw h refl

  All-later :
      (a : A) (some_rows rest : List A)
      → All (λ (b : A). text_eq (key b) (key a) ≡ false) some_rows
      → All (λ (b : A). find key (key b) rest ≡ some b) some_rows
      → All (λ (b : A). find key (key b) (a ∷ rest) ≡ some b) some_rows
  All-later a [] rest other h = tt
  All-later a (b ∷ bs) rest other h = (
    find-later (key b) a rest (text_eq_sym-false (key b) (key a) other.0) ∙ h.0,
    All-later a bs rest other.1 h.1,
  )

  -- Every row is found under its key.
  pub IsKeyed-found :
      (rows : List A) → IsKeyed key rows → All (λ (b : A). find key (key b) rows ≡ some b) rows
  IsKeyed-found [] h = tt
  IsKeyed-found (a ∷ rest) h = (
    find_self a rest,
    All-later a rest rest (All-other key (key a) rest h.0) (IsKeyed-found rest h.1),
  )

  pub find-append_own :
      (rows : List A) (a : A)
      → find key (key a) rows ≡ none
      → find key (key a) (rows ++ a ∷ []) ≡ some a
  unfolding find
  find-append_own [] a h = find_self a []
  find-append_own (b ∷ rest) a h = elim (Bool-cases (text_eq (key b) (key a))) [
    | inl here ↦ absurd (ground arith)
    | inr later ↦ rw later (find-append_own rest a (ground arith))
  ]

  pub find-append :
      (k : Text) (rows more : List A) {a : A}
      → find key k rows ≡ some a
      → find key k (rows ++ more) ≡ some a
  unfolding find
  find-append k [] more {a} h = absurd (ground arith)
  find-append k (b ∷ rest) more {a} h = elim (Bool-cases (text_eq (key b) k)) [
    | inl here ↦ ground arith
    | inr later ↦ rw later (find-append k rest more (ground arith))
  ]

  pub find-keep-none :
      (k : Text) (test : A → Bool) (rows : List A)
      → find key k rows ≡ none
      → find key k (keep test rows) ≡ none
  unfolding find
  find-keep-none k test [] h = refl
  find-keep-none k test (b ∷ rest) h = elim (Bool-cases (text_eq (key b) k)) [
    | inl here ↦ absurd (ground arith)
    | inr later ↦ elim (Bool-cases (test b)) [
      | inl kept ↦ rw (kept, later) (find-keep-none k test rest (ground arith))
      | inr dropped ↦ rw dropped (find-keep-none k test rest (ground arith))
    ]
  ]

  pub IsKeyed-keep :
      (test : A → Bool) (rows : List A) → IsKeyed key rows → IsKeyed key (keep test rows)
  IsKeyed-keep test [] h = tt
  IsKeyed-keep test (b ∷ rest) h = elim (Bool-cases (test b)) [
    | inl kept ↦ rw kept (find-keep-none (key b) test rest h.0, IsKeyed-keep test rest h.1)
    | inr dropped ↦ rw dropped (IsKeyed-keep test rest h.1)
  ]

-- The rows that are kept pass the test.
pub All-keep {ℓ κ} :
    {A : Type ℓ} (P : A → Type κ) (test : A → Bool) (rows : List A)
    → All P rows
    → All (λ (a : A). P a × (test a ≡ true)) (keep test rows)
All-keep P test [] h = tt
All-keep P test (b ∷ rest) h = elim (Bool-cases (test b)) [
  | inl kept ↦ rw kept ((h.0, kept), All-keep P test rest h.1)
  | inr dropped ↦ rw dropped (All-keep P test rest h.1)
]

pub All-map {ℓ κ μ} :
    {A : Type ℓ} (P : A → Type κ) (Q : A → Type μ) (rows : List A)
    → ((a : A) → P a → Q a)
    → All P rows
    → All Q rows
All-map P Q [] f h = tt
All-map P Q (b ∷ rest) f h = (f b h.0, All-map P Q rest f h.1)
