-- ===== src/Prelude/Trim.antt =====
-- The white space around a text.
use Prim.Native.Char.{code}
use Prim.Native.String.{String}
use kingspin.Prelude.{ℕ, ◌≡◌, refl, Bool, ◌&&◌, ◌||◌, leb, ◌==◌, if◌then◌else◌}
use kingspin.Prelude.Text.{is_empty}

-- What `trim` takes for white space or the end of a line
abbrev is_space : ℕ → Bool
is_space n =
    (leb 9 n && leb n 13)
    || (n == 32)
    || (n == 160)
    || (n == 5760)
    || (leb 8192 n && leb n 8202)
    || (n == 8232)
    || (n == 8233)
    || (n == 8239)
    || (n == 8287)
    || (n == 12288)
    || (n == 65279)

trim_start : String → String
trim_start String.[] = ""
trim_start (String.◌∷◌ c s) =
    let rest = trim_start s in if is_space (code c) then rest else String.◌∷◌ c s

trim_end : String → String
trim_end String.[] = ""
trim_end (String.◌∷◌ c s) =
    let rest = trim_end s in if is_empty rest && is_space (code c) then "" else String.◌∷◌ c rest

unfoldable pub trim : String → String
unfolding trim_start trim_end
trim s = trim_end (trim_start s)

trim_runs : trim " \t a b \n" ≡ "a b"
unfolding trim
trim_runs = refl
