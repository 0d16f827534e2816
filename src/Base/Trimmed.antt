-- ===== src/Base/Trimmed.antt =====
-- Trimming a text twice.
use mathlib.Core.Path.{◌≡◌, refl}
use mathlib.Core.Bool.{false, ◌&&◌}
use mathlib.Core.Logic.{◌⊎◌, inl, inr}
use mathlib.Core.List.{[], ◌∷◌}
use native.Mathlib.Omega.{arith}
use Prim.Native.Nat.{ℕ}
use kopdes.Base.Tests.{Bool-cases}
use kopdes.Base.Text.{Text, is_space, is_empty, trim_left, trim_right, trim_space}

trim_left-cases :
    (t : Text)
    → (trim_left t ≡ []) ⊎ ((c : ℕ) × (r : Text) × (trim_left t ≡ c ∷ r) × (is_space c ≡ false))
unfolding trim_left
trim_left-cases [] = inl refl
trim_left-cases (c ∷ r) = elim (Bool-cases (is_space c)) [
  | inl blank ↦ rw blank (trim_left-cases r)
  | inr mark ↦ rw mark (inr (c, r, refl, mark))
]

trim_right-twice : (t : Text) → trim_right (trim_right t) ≡ trim_right t
unfolding trim_right
trim_right-twice [] = refl
trim_right-twice (c ∷ r) = elim (Bool-cases (is_empty (trim_right r) && is_space c)) [
  | inl last ↦ rw last refl
  | inr more ↦ rw more (rw (trim_right-twice r, more) refl)
]

trim_marked :
    (c : ℕ) (r : Text) → is_space c ≡ false → trim_space (trim_right (c ∷ r)) ≡ trim_right (c ∷ r)
unfolding trim_space trim_left trim_right
trim_marked c r mark = ground (arith, mark, trim_right-twice r)

pub trim_space-twice : (t : Text) → trim_space (trim_space t) ≡ trim_space t
unfolding trim_space
trim_space-twice t = elim (trim_left-cases t) [
  | inl blank ↦ rw blank (unfold trim_left trim_right in refl)
  | inr (c, r, e, mark) ↦ rw e (trim_marked c r mark)
]
