-- ===== src/Entries/Rules.antt =====
-- The part of the statement that validates a request: the rules of the room and of the category.
use kingspin.Prelude.{Bool, true, false, not, ◌&&◌, ◌||◌, String, Option, none, some, is_some}
use kingspin.Prelude.Int.{ℤ, ◌-ℤ◌, ◌==ℤ◌, ltb_ℤ}
use kingspin.Prelude.Text.{str_eq}
use kingspin.Store.Tables.{flexible_proportional, fixed_equal_chance, Category, Entry}
use kingspin.Rounds.Open.{is_active}
use kingspin.Entries.{PlacementArgs}
use kingspin.Entries.Sql.{and_sql}
use kingspin.Entries.Request.{RequestRows, tx_exists, held_retry, target_entry_id}

abbrev differs : Entry → Option String → Option Bool
differs e none = none
differs e (some id) = some (not (str_eq e.id id))

-- The tests of `validation`. Without a room or a category the request is not writable, whatever they
-- are.
unfoldable pub held_entry_mismatch : PlacementArgs → RequestRows → Option Bool
unfolding target_entry_id
held_entry_mismatch args rows = elim rows.entry [
  | none ↦ some false
  | some e ↦ and_sql (some (held_retry rows)) (differs e (target_entry_id args rows))
]

abbrev pub is_flexible : RequestRows → Bool
is_flexible rows = elim rows.room [
  | none ↦ false
  | some r ↦ elim r.game_mode [ flexible_proportional ↦ true | fixed_equal_chance ↦ false ]
]

abbrev pub is_fixed : RequestRows → Bool
is_fixed rows = elim rows.room [
  | none ↦ false
  | some r ↦ elim r.game_mode [ flexible_proportional ↦ false | fixed_equal_chance ↦ true ]
]

abbrev pub fixed_amount : RequestRows → Option ℤ
fixed_amount rows = elim rows.room [ none ↦ none | some r ↦ r.fixed_entry_amount ]

abbrev pub fixed_amount_missing : RequestRows → Bool
fixed_amount_missing rows = is_fixed rows && not (is_some (fixed_amount rows))

abbrev pub fixed_amount_mismatch : PlacementArgs → RequestRows → Bool
fixed_amount_mismatch args rows =
    is_fixed rows && elim (fixed_amount rows) [ none ↦ false | some n ↦ not (args.amount ==ℤ n) ]

abbrev pub fixed_top_up : RequestRows → Bool
fixed_top_up rows = is_fixed rows && is_some rows.entry && not (tx_exists rows)

abbrev pub below_minimum : PlacementArgs → RequestRows → Bool
below_minimum args rows =
    is_flexible rows
    && not (is_some rows.entry)
    && elim rows.category [ none ↦ false | some c ↦ ltb_ℤ args.amount c.min_entry_amount ]

abbrev pub above_maximum : PlacementArgs → RequestRows → Bool
above_maximum args rows =
    is_flexible rows
    && not (is_some rows.entry)
    && elim rows.category [ none ↦ false | some c ↦ ltb_ℤ c.max_entry_amount args.amount ]

-- `existing_entry_amount > max_entry_amount - amount`
abbrev pub is_over : Category → ℤ → Entry → Bool
is_over c amount e = ltb_ℤ (c.max_entry_amount -ℤ amount) e.amount

abbrev pub exceeds_maximum : PlacementArgs → RequestRows → Bool
exceeds_maximum args rows = is_flexible rows && elim rows.entry [
  | none ↦ false
  | some e ↦ elim rows.category [ none ↦ false | some c ↦ is_over c args.amount e ]
]

abbrev pub breaks_rules : PlacementArgs → RequestRows → Bool
breaks_rules args rows =
    fixed_amount_missing rows
    || fixed_amount_mismatch args rows
    || fixed_top_up rows
    || below_minimum args rows
    || above_maximum args rows
    || exceeds_maximum args rows

abbrev pub room_is_active : RequestRows → Bool
room_is_active rows = elim rows.room [ none ↦ false | some r ↦ is_active r.status ]

abbrev pub category_is_active : RequestRows → Bool
category_is_active rows = elim rows.category [ none ↦ false | some c ↦ c.is_active ]
