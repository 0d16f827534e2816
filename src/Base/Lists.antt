-- ===== src/Base/Lists.antt =====
-- Lists measured and indexed by native numbers.
use Prim.Native.Nat.{ℕ, suc, ◌+◌}
use mathlib.Core.Path.{◌≡◌}
use mathlib.Core.Bool.{Bool, true, ◌&&◌}
use mathlib.Core.List.{List, [], ◌∷◌, ◌++◌}
use native.Mathlib.Omega.{arith}
use kopdes.Base.Tests.{if◌then◌else◌}

module _ {ℓ} {A : Type ℓ} where
  abbrev pub length : List A → ℕ
  length [] = 0
  length (_ ∷ xs) = suc (length xs)

  pub length-append : (xs ys : List A) → length (xs ++ ys) ≡ length xs + length ys
  length-append [] ys = omega arith
  length-append (x ∷ xs) ys = omega (arith, length-append xs ys)

  -- A predicate on every entry.
  abbrev pub All {κ} : (A → Type κ) → List A → Type κ
  All P [] = Unit
  All P (x ∷ xs) = P x × All P xs

  pub All-append_one {κ} :
      (P : A → Type κ) (xs : List A) (x : A) → All P xs → P x → All P (xs ++ x ∷ [])
  All-append_one P [] x h p = (p, tt)
  All-append_one P (y ∷ xs) x h p = (h.0, All-append_one P xs x h.1 p)

  abbrev pub all_of : (A → Bool) → List A → Bool
  all_of p [] = true
  all_of p (x ∷ xs) = p x && all_of p xs

  abbrev pub keep : (A → Bool) → List A → List A
  keep p [] = []
  keep p (x ∷ xs) = let rest = keep p xs in if p x then x ∷ rest else rest

  -- The sum of a number read from each entry.
  abbrev pub sum_of : (A → ℕ) → List A → ℕ
  sum_of f [] = 0
  sum_of f (x ∷ xs) = f x + sum_of f xs

  pub sum_of-append : (f : A → ℕ) (xs ys : List A) → sum_of f (xs ++ ys) ≡ sum_of f xs + sum_of f ys
  sum_of-append f [] ys = omega arith
  sum_of-append f (x ∷ xs) ys = omega (arith, sum_of-append f xs ys)

abbrev pub sum : List ℕ → ℕ
sum [] = 0
sum (x ∷ xs) = x + sum xs

pub sum-append : (xs ys : List ℕ) → sum (xs ++ ys) ≡ sum xs + sum ys
sum-append [] ys = omega arith
sum-append (x ∷ xs) ys = omega (arith, sum-append xs ys)
