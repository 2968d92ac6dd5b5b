-- ===== src/Prelude/Json.antt =====
-- The texts that `JSON.stringify` makes, and texts of hexadecimal digits.
use Prim.Native.Char.{Char, code}
use Prim.Native.String.{String, char_at}
use kingspin.Prelude.{
  ℕ, zero, suc, ◌+◌, ◌-◌, ◌*◌, ◌/◌, ◌%◌, ◌≡◌, refl, Bool, true, false, ◌&&◌, ◌||◌, List, [], ◌∷◌,
  leb, ltb, ◌==◌, if◌then◌else◌,
}
use kingspin.Prelude.Text.{◌<>◌}

abbrev hex_digit : ℕ → Char
hex_digit d = char_at "0123456789abcdef" d

-- The escapes of a JSON text. (A lone surrogate is no character here.)
escape_char : Char → String
escape_char c =
    let n = code c in
    if n == b'"'
    then "\\\""
    else if n == 92
    then "\\\\"
    else if n == 8
    then "\\b"
    else if n == 9
    then "\\t"
    else if n == 10
    then "\\n"
    else if n == 12
    then "\\f"
    else if n == 13
    then "\\r"
    else if ltb n 32
    then "\\u00" <> String.◌∷◌ (hex_digit (n / 16)) (String.◌∷◌ (hex_digit (n % 16)) String.[])
    else String.◌∷◌ c String.[]

escape : String → String
unfolding escape_char
escape String.[] = ""
escape (String.◌∷◌ c s) = escape_char c <> escape s

unfoldable pub quote : String → String
unfolding escape
quote s = "\"" <> escape s <> "\""

separated : List String → String
separated [] = ""
separated (x ∷ []) = x
separated (x ∷ y ∷ xs) = x <> "," <> separated (y ∷ xs)

unfoldable pub array_text : List String → String
unfolding separated
array_text xs = "[" <> separated xs <> "]"

-- The members of an object, each with the text of its value.
members : List (String × String) → List String
unfolding quote
members [] = []
members ((k, v) ∷ m) = (quote k <> ":" <> v) ∷ members m

unfoldable pub object_text : List (String × String) → String
unfolding separated members
object_text m = "{" <> separated (members m) <> "}"

-- `toLowerCase` on the letters of ASCII
abbrev lower_char : Char → Char
lower_char c =
    if leb 65 (code c) && leb (code c) 90
    then char_at "abcdefghijklmnopqrstuvwxyz" (code c - 65)
    else c

unfoldable pub to_lower_case : String → String
to_lower_case String.[] = ""
to_lower_case (String.◌∷◌ c s) = String.◌∷◌ (lower_char c) (to_lower_case s)

-- The value of a hexadecimal digit of either case.
abbrev digit_value : ℕ → ℕ
digit_value n = if ltb n 58 then n - 48 else if ltb n 91 then n - 55 else n - 87

hex_value_from : ℕ → String → ℕ
hex_value_from acc String.[] = acc
hex_value_from acc (String.◌∷◌ c s) = hex_value_from (acc * 16 + digit_value (code c)) s

-- `BigInt("0x" + s)`
unfoldable pub hex_value : String → ℕ
unfolding hex_value_from
hex_value s = hex_value_from 0 s

abbrev is_hex_code : ℕ → Bool
is_hex_code n = (leb 48 n && leb n 57) || (leb 65 n && leb n 70) || (leb 97 n && leb n 102)

hex_run : ℕ → String → Bool
hex_run zero String.[] = true
hex_run zero (String.◌∷◌ c s) = false
hex_run (suc n) String.[] = false
hex_run (suc n) (String.◌∷◌ c s) = is_hex_code (code c) && hex_run n s

-- `/^[a-f0-9]{64}$/i`
unfoldable pub is_sha256_hex : String → Bool
unfolding hex_run
is_sha256_hex s = hex_run 64 s

escapes : quote "a\"b\n" ≡ "\"a\\\"b\\n\""
unfolding quote
escapes = refl

object_runs : object_text (("a", quote "x") ∷ ("b", quote "y") ∷ []) ≡ "{\"a\":\"x\",\"b\":\"y\"}"
unfolding object_text quote
object_runs = refl

hex_runs : ◌≡◌ {A = ℕ} (hex_value (to_lower_case "1F")) 31
unfolding hex_value to_lower_case
hex_runs = refl
