-- ===== src/Base/Errors.antt =====
-- What a Go function that returns an error gives back, and a chain of such calls.
use mathlib.Core.Path.{◌≡◌, refl}
use mathlib.Core.Logic.{◌⊎◌, inl, inr}
use mathlib.Core.Bool.{Bool, true, false}
use mathlib.Core.Option.{Option, none, some}
use Prim.Native.Nat.{ℕ, zero, suc, ◌<◌}
use native.Mathlib.Omega.{arith}
use kopdes.Base.Int.{ℤ, pos, negsuc}

pub data Result {ℓ κ} (E : Type ℓ) (A : Type κ) : Type (ℓ ⊔ κ) where
  ok : A → Result E A
  err : E → Result E A

infixl 5 ◌>>=◌ ◌>>◌
-- `a, err := m(); if err != nil { return err }`, and the rest with `a`
abbrev pub ◌>>=◌ {κ ℓ μ} :
    {A : Type κ} {E : Type ℓ} {B : Type μ} → Result E A → (A → Result E B) → Result E B
err e >>= _ = err e
ok a >>= rest = rest a

abbrev pub ◌>>◌ {ℓ μ} : {E : Type ℓ} {B : Type μ} → Result E (Unit {0}) → Result E B → Result E B
err e >> _ = err e
ok _ >> rest = rest

-- `if test { return err }`
abbrev pub reject_if {ℓ} : {E : Type ℓ} → Bool → E → Result E (Unit {0})
reject_if true e = err e
reject_if false e = ok tt

-- A row that a query must find.
abbrev pub found {ℓ κ} : {E : Type ℓ} {A : Type κ} → Option A → E → Result E A
found none e = err e
found (some a) e = ok a

-- `if n <= 0 { return err }`; what passes is a positive number.
abbrev pub positive {ℓ} : {E : Type ℓ} → ℤ → E → Result E ℕ
positive (pos zero) e = err e
positive (pos (suc n)) e = ok (suc n)
positive (negsuc n) e = err e

pub positive_lem {ℓ} :
    {E : Type ℓ} (z : ℤ) (e : E) {n : ℕ} → positive z e ≡ ok n → (0 < n) × (z ≡ pos n)
positive_lem (pos zero) e h = cc
positive_lem (pos (suc k)) e h = (ground arith, ground arith)
positive_lem (negsuc k) e h = cc

pub positive-pos {ℓ} : {E : Type ℓ} (n : ℕ) (e : E) → 0 < n → positive (pos n) e ≡ ok n
positive-pos zero e h = absurd (omega arith)
positive-pos (suc n) e h = refl

-- `if n < 0 { return err }`
abbrev pub natural {ℓ} : {E : Type ℓ} → ℤ → E → Result E ℕ
natural (pos n) e = ok n
natural (negsuc n) e = err e

pub natural_lem {ℓ} : {E : Type ℓ} (z : ℤ) (e : E) {n : ℕ} → natural z e ≡ ok n → z ≡ pos n
natural_lem (pos k) e h = ground arith
natural_lem (negsuc k) e h = cc

pub Result-cases {ℓ κ} :
    {E : Type ℓ} {A : Type κ} (r : Result E A) → ((a : A) × (r ≡ ok a)) ⊎ ((e : E) × (r ≡ err e))
Result-cases (ok a) = inl (a, refl)
Result-cases (err e) = inr (e, refl)
