-- ===== src/Entries/Sql.antt =====
-- The logic of SQL, where a test may be unknown: `none` stands for NULL.
use kingspin.Prelude.{Bool, true, false, String, Option, none, some}
use kingspin.Prelude.Int.{ℤ, ◌==ℤ◌}
use kingspin.Prelude.Text.{str_eq}

-- `AND`: false wins over NULL.
abbrev pub and_sql : Option Bool → Option Bool → Option Bool
and_sql (some false) b = some false
and_sql (some true) b = b
and_sql none (some false) = some false
and_sql none (some true) = none
and_sql none none = none

-- `=` on texts
abbrev pub eq_text : Option String → Option String → Option Bool
eq_text (some s) (some t) = some (str_eq s t)
eq_text (some s) none = none
eq_text none t = none

-- `=` on numbers
abbrev pub eq_number : Option ℤ → Option ℤ → Option Bool
eq_number (some n) (some m) = some (n ==ℤ m)
eq_number (some n) none = none
eq_number none m = none

-- `WHERE` and `WHEN` take a row only if the test is true.
abbrev pub holds : Option Bool → Bool
holds (some b) = b
holds none = false

-- The same for `NOT test`.
abbrev pub is_false : Option Bool → Bool
is_false (some true) = false
is_false (some false) = true
is_false none = false

abbrev pub coalesce {ℓ} : {A : Type ℓ} → Option A → Option A → Option A
coalesce (some a) b = some a
coalesce none b = b
