-- ===== src/Engine/EntriesHash.antt =====
-- The hash of a round's entries (packages/game-engine/src/entries-hash.ts): the entries in the order
-- of their tickets, as one JSON text. The digest of the platform,
-- `createHash("sha256").update(text).digest("hex")`, is a parameter.
pub mod Order
use Prim.Native.Char.{code}
use kingspin.Prelude.{
  ℕ, ◌+◌, ◌-◌, ◌/◌, ◌%◌, ⊤, Bool, true, false, not, ◌||◌, String, List, [], ◌∷◌, map, ltb, ◌==◌,
  if◌then◌else◌,
}
use kingspin.Prelude.Int.{ℤ, pos, negsuc, leb_ℤ, ltb_ℤ, ◌==ℤ◌}
use kingspin.Prelude.Text.{str_eq, is_empty, to_string}
use kingspin.Prelude.Json.{quote, array_text, object_text}
use kingspin.Prelude.Result.{Result, ok, error, throw_if, ◌>>=◌, ◌>>◌}

abbrev pub entries_hash_format : String
entries_hash_format = "KINGSPIN_ENTRIES_V1"

pub record FairnessEntry : Type 0 where
  pub entry_id : String
  pub user_id : String
  pub amount : ℤ
  pub ticket_start : ℤ
  pub ticket_end : ℤ
  pub round_id : String

-- The 16-bit units of a text, which `<` compares: a character above U+FFFF is two of them.
unfoldable pub code_units : String → List ℕ
code_units String.[] = []
code_units (String.◌∷◌ c s) =
    let rest = code_units s in
    let n = code c in
    if ltb n 65536
    then n ∷ rest
    else (55296 + (n - 65536) / 1024) ∷ (56320 + (n - 65536) % 1024) ∷ rest

unfoldable pub ltb_units : List ℕ → List ℕ → Bool
ltb_units [] [] = false
ltb_units [] (y ∷ ys) = true
ltb_units (x ∷ xs) [] = false
ltb_units (x ∷ xs) (y ∷ ys) = let rest = ltb_units xs ys in if x == y then rest else ltb x y

unfoldable pub ltb_text : String → String → Bool
unfolding code_units ltb_units
ltb_text s t = ltb_units (code_units s) (code_units t)

unfoldable pub compare_entries : FairnessEntry → FairnessEntry → ℤ
compare_entries left right =
    if not (left.ticket_start ==ℤ right.ticket_start)
    then (if ltb_ℤ left.ticket_start right.ticket_start then negsuc 0 else pos 1)
    else if not (left.ticket_end ==ℤ right.ticket_end)
    then (if ltb_ℤ left.ticket_end right.ticket_end then negsuc 0 else pos 1)
    else if str_eq left.entry_id right.entry_id
    then pos 0
    else if ltb_text left.entry_id right.entry_id
    then negsuc 0
    else pos 1

unfoldable pub assert_entry : FairnessEntry → Result ⊤
assert_entry entry = do
  throw_if (is_empty entry.entry_id || is_empty entry.user_id || is_empty entry.round_id)
      (error "Fairness entries require entryId, userId, and roundId.")
  throw_if (leb_ℤ entry.amount (pos 0)) (error "Fairness entry amount must be greater than zero.")
  throw_if (ltb_ℤ entry.ticket_start (pos 0) || ltb_ℤ entry.ticket_end entry.ticket_start)
      (error "Fairness entry ticket range is invalid.")

-- The `map` that asserts every entry, in order.
unfoldable pub assert_entries : List FairnessEntry → Result ⊤
assert_entries [] = ok tt
assert_entries (entry ∷ entries) = assert_entry entry >> assert_entries entries

-- `.sort(compareEntries)`, which is stable.
unfoldable pub insert : FairnessEntry → List FairnessEntry → List FairnessEntry
insert x [] = x ∷ []
insert x (y ∷ ys) =
    let rest = insert x ys in if leb_ℤ (compare_entries x y) (pos 0) then x ∷ y ∷ ys else y ∷ rest

unfoldable pub sort : List FairnessEntry → List FairnessEntry
unfolding insert
sort [] = []
sort (x ∷ xs) = insert x (sort xs)

unfoldable pub entry_text : FairnessEntry → String
entry_text entry = object_text (
    ("entryId", quote entry.entry_id)
    ∷ ("userId", quote entry.user_id)
    ∷ ("amount", quote (to_string entry.amount))
    ∷ ("ticketStart", quote (to_string entry.ticket_start))
    ∷ ("ticketEnd", quote (to_string entry.ticket_end))
    ∷ ("roundId", quote entry.round_id)
    ∷ [])

unfoldable pub entries_text : List FairnessEntry → String
entries_text entries =
    object_text (
      ("format", quote entries_hash_format) ∷ ("entries", array_text (map entry_text entries)) ∷ [])

unfoldable pub canonicalize_entries : List FairnessEntry → Result String
canonicalize_entries entries = assert_entries entries >> ok (entries_text (sort entries))

module _ (sha256 : String → String) where
  unfoldable pub calculate_entries_hash : List FairnessEntry → Result String
  calculate_entries_hash entries = canonicalize_entries entries >>= λ text. ok (sha256 text)
