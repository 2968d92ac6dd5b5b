-- ===== src/Prelude/Text.antt =====
-- Text: equality and concatenation of strings, and the decimal notation of an integer.
use Prim.Native.String.{◌++◌ as append}
use text.Mathlib.Text.{◌==◌ as same_text}
use text.Mathlib.TextEquality.{eq_iff}
use kingspin.Prelude.{
  ℕ, zero, suc, ◌/◌, ◌%◌, ◌≡◌, refl, Bool, true, false, String, List, [], ◌∷◌, Option, none, some,
  ◌==◌, if◌then◌else◌, ◌↔◌,
}
use kingspin.Prelude.Int.{ℤ, pos, negsuc}

-- `===` on strings
abbrev pub str_eq : String → String → Bool
str_eq s t = same_text s t

pub str_eq_iff : (s t : String) → (str_eq s t ≡ true) ↔ (s ≡ t)
str_eq_iff s t = eq_iff s t

pub str_eq_self : (s : String) → str_eq s s ≡ true
str_eq_self s = (eq_iff s s).1 refl

-- `===` where either side may be `null`
abbrev pub opt_str_eq : Option String → Option String → Bool
opt_str_eq none none = true
opt_str_eq (some s) (some t) = str_eq s t
opt_str_eq _ _ = false

-- A text is falsy when it is empty.
abbrev pub is_empty : String → Bool
is_empty s = str_eq s ""

-- Template strings.
infixr 65 ◌<>◌
abbrev pub ◌<>◌ : String → String → String
s <> t = append s t

abbrev digit : ℕ → String
digit d =
    if d == 0
    then "0"
    else if d == 1
    then "1"
    else if d == 2
    then "2"
    else if d == 3
    then "3"
    else if d == 4
    then "4"
    else if d == 5
    then "5"
    else if d == 6
    then "6"
    else if d == 7
    then "7"
    else if d == 8
    then "8"
    else "9"

-- The fuel is the number itself, which bounds the count of its digits.
digits : ℕ → ℕ → String → String
digits zero n rest = digit (n % 10) <> rest
digits (suc fuel) n rest = elim (n / 10 == 0) [
  | true ↦ digit (n % 10) <> rest
  | false ↦ digits fuel (n / 10) (digit (n % 10) <> rest)
]

unfoldable pub decimal_ℕ : ℕ → String
unfolding digits
decimal_ℕ n = digits n n ""

-- `toString()` of a `bigint`
unfoldable pub to_string : ℤ → String
unfolding decimal_ℕ
to_string (pos n) = decimal_ℕ n
to_string (negsuc n) = "-" <> decimal_ℕ (suc n)

-- A JSON object of texts, as in a `metadata` column.
abbrev pub Fields : Type 0
Fields = List (String × String)

abbrev pub lookup : String → Fields → Option String
lookup k [] = none
lookup k ((j, v) ∷ m) = if str_eq j k then some v else lookup k m

to_string_runs : to_string (negsuc 1204) ≡ "-1205"
unfolding to_string
to_string_runs = refl
