-- ===== src/Base/Strings.antt =====
-- JavaScript strings as lists of code units.
use Prim.Native.Nat.{ℕ, ◌+◌, ◌-◌, ◌*◌, ◌≤◌}
use Prim.Native.Char.{code}
use Prim.Native.String.{String}
use mathlib.Core.Path.{◌≡◌, refl}
use mathlib.Core.Logic.{◌↔◌}
use mathlib.Core.Bool.{Bool, true, false, ◌&&◌, ◌||◌}
use mathlib.Core.List.{List, [], ◌∷◌, map, reverse}
use native.Mathlib.Omega.{arith}
use booking_system.Base.Tests.{if◌then◌else◌, ◌==◌, leb}

abbrev pub Text : Type 0
Text = List ℕ

abbrev pub codes : String → Text
codes String.[] = []
codes (String.◌∷◌ c s) = code c ∷ codes s

-- `s === t`
unfoldable pub text_eq : Text → Text → Bool
text_eq [] [] = true
text_eq [] (y ∷ ys) = false
text_eq (x ∷ xs) [] = false
text_eq (x ∷ xs) (y ∷ ys) = x == y && text_eq xs ys

pub text_eq_iff : (s t : Text) → (text_eq s t ≡ true) ↔ (s ≡ t)
unfolding text_eq
text_eq_iff [] [] = (λ h. refl, λ h. refl)
text_eq_iff [] (y ∷ ys) = ground arith
text_eq_iff (x ∷ xs) [] = ground arith
text_eq_iff (x ∷ xs) (y ∷ ys) = ground (arith, text_eq_iff xs ys)

-- `!s`
abbrev pub is_empty {ℓ} : {A : Type ℓ} → List A → Bool
is_empty [] = true
is_empty (x ∷ xs) = false

-- The white space and line ends of ECMAScript, which `trim` removes.
unfoldable pub is_space : ℕ → Bool
is_space c =
    c == 32
    || (leb 9 c && leb c 13)
    || c == 160
    || c == 5760
    || (leb 8192 c && leb c 8202)
    || c == 8232
    || c == 8233
    || c == 8239
    || c == 8287
    || c == 12288
    || c == 65279

trim_left : Text → Text
trim_left [] = []
trim_left (c ∷ s) = if is_space c then trim_left s else c ∷ s

unfoldable pub trim : Text → Text
unfolding is_space trim_left
trim s = reverse (trim_left (reverse (trim_left s)))

-- `toLowerCase` on ASCII letters.
lower : ℕ → ℕ
lower c = if leb 65 c && leb c 90 then c + 32 else c

unfoldable pub to_lower_case : Text → Text
unfolding lower
to_lower_case s = map lower s

-- `xs.includes(s)` over strings.
abbrev pub includes_text : List Text → Text → Bool
includes_text [] s = false
includes_text (x ∷ xs) s = text_eq x s || includes_text xs s

-- `toUpperCase` on ASCII letters.
unfoldable pub to_upper_case : Text → Text
to_upper_case s = map (λ c. if leb 97 c && leb c 122 then c - 32 else c) s

abbrev prepend : ℕ → List Text → List Text
prepend c [] = (c ∷ []) ∷ []
prepend c (piece ∷ pieces) = (c ∷ piece) ∷ pieces

-- `s.split(sep)`
unfoldable pub split : ℕ → Text → List Text
split sep [] = [] ∷ []
split sep (c ∷ s) = let pieces = split sep s in if c == sep then [] ∷ pieces else prepend c pieces

-- `/\d/`
abbrev pub is_digit : ℕ → Bool
is_digit c = leb 48 c && leb c 57

-- The decimal number that a text begins with, after `n`.
unfoldable pub read_digits : ℕ → Text → ℕ
read_digits n [] = n
read_digits n (c ∷ s) =
    let rest = read_digits (n * 10 + (c - 48)) s in if is_digit c then rest else n

digit_no_space : (c : ℕ) → 48 ≤ c → c ≤ 57 → is_space c ≡ false
unfolding is_space
digit_no_space c l u = ground arith

-- A text of five between two digits has no white space at its ends.
pub trim_five :
    (a b c d e : ℕ)
    → 48 ≤ a
    → a ≤ 57
    → 48 ≤ e
    → e ≤ 57
    → trim (a ∷ b ∷ c ∷ d ∷ e ∷ []) ≡ a ∷ b ∷ c ∷ d ∷ e ∷ []
unfolding trim trim_left
trim_five a b c d e l u m v =
    let p = digit_no_space a l u in let q = digit_no_space e m v in rw p (rw q refl)
