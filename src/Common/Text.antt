-- ===== src/Common/Text.antt =====
-- The texts of the program: equality, membership in a table, and the search in code points.
use Prim.Native.Char.{code}
use Prim.Native.String.{String, ◌++◌ as str_append}
use Prim.Native.Nat.{ℕ, zero, suc, ◌+◌, ◌/◌, ◌%◌}
use mathlib.Core.Bool.{Bool, true, false, ◌&&◌, ◌||◌}
use mathlib.Core.List.{List, [], ◌∷◌, map}
use mathlib.Core.Path.{◌≡◌, refl}
use mathlib.Core.Logic.{◌↔◌}
use text.Mathlib.Text.{◌==◌ as text_eq}
use text.Mathlib.TextEquality.{eq_iff}
use shell_sight.Common.Tests.{◌==◌, leb, if◌then◌else◌}
use native.Mathlib.Omega.{arith}
use shell_sight.Common.Int.{ℤ, pos, negsuc}

abbrev pub str_eq : String → String → Bool
str_eq s t = text_eq s t

pub str_eq_iff : (s t : String) → (str_eq s t ≡ true) ↔ (s ≡ t)
str_eq_iff s t = eq_iff s t

-- A `switch` case, or a Go set of strings, that lists several texts.
unfoldable pub one_of : String → List String → Bool
one_of s [] = false
one_of s (t ∷ ts) = str_eq s t || one_of s ts

-- The code points of a text.
abbrev pub codes : String → List ℕ
codes String.[] = []
codes (String.◌∷◌ c s) = code c ∷ codes s

is_prefix : List ℕ → List ℕ → Bool
is_prefix [] ys = true
is_prefix (x ∷ xs) [] = false
is_prefix (x ∷ xs) (y ∷ ys) = x == y && is_prefix xs ys

-- `strings.Contains`.
pub contains_codes : List ℕ → List ℕ → Bool
unfolding is_prefix
contains_codes [] p = is_prefix p []
contains_codes (x ∷ xs) p = is_prefix p (x ∷ xs) || contains_codes xs p

unfoldable pub contains : String → String → Bool
unfolding contains_codes
contains s t = contains_codes (codes s) (codes t)

-- `strings.ToLower` at the ASCII letters.
lower_code : ℕ → ℕ
lower_code c = if leb b'A' c && leb c b'Z' then c + 32 else c

-- `strings.Contains(strings.ToLower(s), t)`.
unfoldable pub contains_lower : String → String → Bool
unfolding contains_codes lower_code
contains_lower s t = contains_codes (map lower_code (codes s)) (codes t)

unfoldable pub concat : List String → String
concat [] = ""
concat (t ∷ ts) = str_append t (concat ts)

-- `strings.Join`.
unfoldable pub join : List String → String → String
join [] sep = ""
join (t ∷ []) sep = t
join (t ∷ u ∷ ts) sep = str_append t (str_append sep (join (u ∷ ts) sep))

digit : ℕ → String
digit zero = "0"
digit (suc zero) = "1"
digit (suc (suc zero)) = "2"
digit (suc (suc (suc zero))) = "3"
digit (suc (suc (suc (suc zero)))) = "4"
digit (suc (suc (suc (suc (suc zero))))) = "5"
digit (suc (suc (suc (suc (suc (suc zero)))))) = "6"
digit (suc (suc (suc (suc (suc (suc (suc zero))))))) = "7"
digit (suc (suc (suc (suc (suc (suc (suc (suc zero)))))))) = "8"
digit _ = "9"

-- The decimal digits of a number below 10 ^ fuel.
decimal_fuel : ℕ → ℕ → String
decimal_fuel zero n = ""
decimal_fuel (suc fuel) n =
    let more = decimal_fuel fuel (n / 10) in
    str_append (if n / 10 == 0 then "" else more) (digit (n % 10))

-- `%d` at a Go `int`: twenty digits are enough for 64 bits.
unfoldable pub decimal : ℤ → String
unfolding decimal_fuel digit
decimal (pos n) = decimal_fuel 20 n
decimal (negsuc n) = str_append "-" (decimal_fuel 20 (n + 1))

-- `==` on Go strings that are lists of bytes.
unfoldable pub same_bytes : List ℕ → List ℕ → Bool
same_bytes [] [] = true
same_bytes [] (y ∷ ys) = false
same_bytes (x ∷ xs) [] = false
same_bytes (x ∷ xs) (y ∷ ys) = x == y && same_bytes xs ys

pub same_bytes_iff : (xs ys : List ℕ) → (same_bytes xs ys ≡ true) ↔ (xs ≡ ys)
unfolding same_bytes
same_bytes_iff [] [] = (λ h. refl, λ h. refl)
same_bytes_iff [] (y ∷ ys) = (λ h. cc, λ h. cc)
same_bytes_iff (x ∷ xs) [] = (λ h. cc, λ h. cc)
same_bytes_iff (x ∷ xs) (y ∷ ys) = let tail = same_bytes_iff xs ys in ground arith
