-- ===== src/Base/Text.antt =====
-- Texts as code points, with what the program uses of Go's `strings`. On valid UTF-8 the tests of
-- the program do not tell bytes from code points. `to_lower` maps the ASCII letters.
use Prim.Native.Nat.{ℕ, ◌+◌}
use Prim.Native.String.{String}
use Prim.Native.Char.{code}
use mathlib.Core.Path.{◌≡◌, refl, ap}
use mathlib.Core.Bool.{Bool, true, false, ◌&&◌, ◌||◌}
use mathlib.Core.List.{List, [], ◌∷◌, map}
use native.Mathlib.Omega.{arith}
use mathlib.Core.Logic.{inl, inr}
use kopdes.Base.Tests.{Bool-cases, ltb, leb, ◌==◌, if◌then◌else◌}
use kopdes.Base.Lists.{keep}

abbrev pub Text : Type 0
Text = List ℕ

-- The code points of a literal.
abbrev pub codes : String → Text
codes String.[] = []
codes (String.◌∷◌ c s) = code c ∷ codes s

abbrev pub is_digit : ℕ → Bool
is_digit c = leb b'0' c && leb c b'9'

-- `unicode.IsSpace`
unfoldable pub is_space : ℕ → Bool
is_space c =
    (leb 9 c && leb c 13)
    || c == 32
    || c == 0x85
    || c == 0xA0
    || c == 0x1680
    || (leb 0x2000 c && leb c 0x200A)
    || c == 0x2028
    || c == 0x2029
    || c == 0x202F
    || c == 0x205F
    || c == 0x3000

abbrev pub is_empty : Text → Bool
is_empty [] = true
is_empty (_ ∷ _) = false

unfoldable pub trim_left : Text → Text
trim_left [] = []
trim_left (c ∷ r) = let r' = trim_left r in if is_space c then r' else c ∷ r

unfoldable pub trim_right : Text → Text
trim_right [] = []
trim_right (c ∷ r) = let r' = trim_right r in if is_empty r' && is_space c then [] else c ∷ r'

-- `strings.TrimSpace`
unfoldable pub trim_space : Text → Text
unfolding trim_left trim_right
trim_space t = trim_right (trim_left t)

unfoldable pub to_lower : Text → Text
to_lower = map (λ c. if leb b'A' c && leb c b'Z' then c + 32 else c)

unfoldable pub text_eq : Text → Text → Bool
text_eq [] [] = true
text_eq [] (_ ∷ _) = false
text_eq (_ ∷ _) [] = false
text_eq (c ∷ r) (d ∷ s) = c == d && text_eq r s

-- `len`, the bytes of a text in UTF-8.
abbrev pub byte_length : Text → ℕ
byte_length [] = 0
byte_length (c ∷ r) =
    (if ltb c 0x80 then 1 else (if ltb c 0x800 then 2 else (if ltb c 0x10000 then 3 else 4)))
    + byte_length r

-- The order of texts in SQL and in Go's `<`.
unfoldable pub text_ltb : Text → Text → Bool
text_ltb s [] = false
text_ltb [] (_ ∷ _) = true
text_ltb (c ∷ r) (d ∷ s) = ltb c d || (c == d && text_ltb r s)

pub text_eq→eq : (s t : Text) → text_eq s t ≡ true → s ≡ t
unfolding text_eq
text_eq→eq [] [] h = refl
text_eq→eq [] (_ ∷ _) h = cc
text_eq→eq (_ ∷ _) [] h = cc
text_eq→eq (c ∷ r) (d ∷ s) h = ground (arith, text_eq→eq r s)

pub text_eq_refl : (s : Text) → text_eq s s ≡ true
unfolding text_eq
text_eq_refl [] = refl
text_eq_refl (c ∷ r) = ground (arith, text_eq_refl r)

pub text_eq_sym-false : (s t : Text) → text_eq s t ≡ false → text_eq t s ≡ false
text_eq_sym-false s t h = elim (Bool-cases (text_eq t s)) [
  | inl same ↦ absurd (ground (arith, text_eq_refl s, rw (text_eq→eq t s same) at h))
  | inr other ↦ other
]

-- The digits of a text, outer blanks or not.
pub keep-trim_left : (t : Text) → keep is_digit (trim_left t) ≡ keep is_digit t
unfolding trim_left is_space
keep-trim_left [] = refl
keep-trim_left (c ∷ r) = ground (arith, keep-trim_left r)

is_empty→eq : (t : Text) → is_empty t ≡ true → t ≡ []
is_empty→eq [] h = refl
is_empty→eq (c ∷ r) h = cc

pub is_space-not_digit : (c : ℕ) → is_space c ≡ true → is_digit c ≡ false
unfolding is_space
is_space-not_digit c h = ground arith

pub keep-trim_right : (t : Text) → keep is_digit (trim_right t) ≡ keep is_digit t
unfolding trim_right
keep-trim_right [] = refl
keep-trim_right (c ∷ r) = elim (Bool-cases (is_empty (trim_right r) && is_space c)) [
  | inl last ↦ rw last (
      ground (
        arith,
        keep-trim_right r,
        is_empty→eq (trim_right r),
        is_space-not_digit c,
        ap (keep is_digit) (is_empty→eq (trim_right r) (ground arith)),
      ))
  | inr more ↦ rw more (ground (arith, keep-trim_right r))
]

pub keep-trim_space : (t : Text) → keep is_digit (trim_space t) ≡ keep is_digit t
unfolding trim_space
keep-trim_space t = simp (keep-trim_right, keep-trim_left)
