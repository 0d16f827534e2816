-- ===== src/Base/Int.antt =====
-- Signed numbers, and the signed and unsigned reading of a machine word.
use Prim.Native.Nat.{ℕ, suc, ◌+◌, ◌-◌, ◌*◌, ◌%◌, ◌≤◌}
use mathlib.Core.Path.{◌≡◌}
use mathlib.Core.Bool.{Bool, false}
use native.Mathlib.Omega.{arith}
use native.Mathlib.Nat.{mod-eq_of_lt}
use kopdes.Base.Tests.{ltb, leb, ◌==◌, if◌then◌else◌}

-- `negsuc n` is -(n + 1).
pub data ℤ : Type 0 where
  pos : ℕ → ℤ
  negsuc : ℕ → ℤ

abbrev pub pos_part : ℤ → ℕ
pos_part (pos n) = n
pos_part (negsuc _) = 0

abbrev pub neg_part : ℤ → ℕ
neg_part (pos _) = 0
neg_part (negsuc n) = suc n

abbrev pub sub_ℕ : ℕ → ℕ → ℤ
sub_ℕ a b = if leb b a then pos (a - b) else negsuc (b - a - 1)

abbrev pub ltb_ℤ : ℤ → ℤ → Bool
ltb_ℤ a b = ltb (pos_part a + neg_part b) (pos_part b + neg_part a)

abbrev pub equal_ℤ : ℤ → ℤ → Bool
equal_ℤ (pos a) (pos b) = a == b
equal_ℤ (negsuc a) (negsuc b) = a == b
equal_ℤ _ _ = false

-- `math.MaxInt64`
abbrev pub max_int64 : ℕ
max_int64 = 9223372036854775807

-- A sum and a product of two words that are not negative, as the bit pattern that int64 keeps.
unfoldable pub add64 : ℕ → ℕ → ℕ
add64 a b = (a + b) % 18446744073709551616

unfoldable pub mul64 : ℕ → ℕ → ℕ
mul64 a b = (a * b) % 18446744073709551616

pub add64_exact : (a b : ℕ) → a + b ≤ max_int64 → add64 a b ≡ a + b
unfolding add64
add64_exact a b h = omega arith

pub mul64_exact : (a b : ℕ) → a * b ≤ max_int64 → mul64 a b ≡ a * b
unfolding mul64
mul64_exact a b h = mod-eq_of_lt (omega arith)
