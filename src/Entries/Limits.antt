-- ===== src/Entries/Limits.antt =====
-- The rules of the room and of the category that a new placement meets.
use kingspin.Prelude.{
  ◌≡◌, refl, sym, ap, ◌∙◌, true, false, none, some, arith, Option-cases, ◌⊎◌, inl, inr,
}
use kingspin.Prelude.Int.{pos, ◌+ℤ◌, ◌-ℤ◌, ◌≤ℤ◌, ==ℤ→eq, int_laws}
use kingspin.Prelude.Lists.{All, find, All-find}
use kingspin.Prelude.Text.{str_eq}
use kingspin.Prelude.Result.{ok}
use kingspin.Store.Tables.{
  flexible_proportional, fixed_equal_chance, Category, Room, Round, Entry, Db,
}
use kingspin.Store.Queries.{has_key}
use kingspin.Rounds.Open.{is_active}
use kingspin.Rounds.Rows.{latest}
use kingspin.Entries.{PlacementArgs, Placement}
use kingspin.Entries.Request.{
  RequestRows, request_rows, is_open_for, entry_in, target_round, round_id_of, category_of,
  is_entry_of, tx_exists,
}
use kingspin.Entries.Rules.{
  is_flexible, is_fixed, fixed_amount_missing, fixed_amount_mismatch, fixed_top_up, below_minimum,
  above_maximum, exceeds_maximum, breaks_rules, room_is_active, category_is_active,
}
use kingspin.Entries.Statement.{Writable, may_write}
use kingspin.Entries.Place.{write_entry_placement_in_transaction}
use kingspin.Entries.Steps.{Appended, ToppedUp}
use kingspin.Entries.Placed.{answered-run}
use kingspin.Entries.Effect.{open_round-found}

-- The tests that a writable request passed.
pub record IsAllowed (args : PlacementArgs) (rows : RequestRows) : Type 0 where
  pub room_active : room_is_active rows ≡ true
  pub category_active : category_is_active rows ≡ true
  pub amount_given : fixed_amount_missing rows ≡ false
  pub amount_same : fixed_amount_mismatch args rows ≡ false
  pub no_top_up : fixed_top_up rows ≡ false
  pub enough : below_minimum args rows ≡ false
  pub not_above : above_maximum args rows ≡ false
  pub not_over : exceeds_maximum args rows ≡ false

pub allowed :
    (args : PlacementArgs) (rows : RequestRows) → may_write args rows ≡ true → IsAllowed args rows
allowed args rows h =
    let kept : breaks_rules args rows ≡ false = ground arith in
    record {
      room_active = ground arith;
      category_active = ground arith;
      amount_given = ground arith;
      amount_same = ground arith;
      no_top_up = ground arith;
      enough = ground arith;
      not_above = ground arith;
      not_over = ground arith;
    }

-- The room, its category and the rules for the amount.
pub record IsAdmitted (args : PlacementArgs) (before : Db) (p : Placement) : Type 0 where
  pub room : Room
  pub room_found : find (λ (r : Room). str_eq r.id args.room_id) before.rooms ≡ some room
  pub room_active : is_active room.status ≡ true
  pub category : Category
  pub category_found :
      find (λ (c : Category). str_eq c.id room.category_id) before.categories ≡ some category
  pub category_active : category.is_active ≡ true
  pub round : Round
  pub round_found : latest (is_open_for args) before.rounds ≡ some round
  pub at_most : room.game_mode ≡ flexible_proportional → p.entry.amount ≤ℤ category.max_entry_amount
  pub at_least :
      room.game_mode ≡ flexible_proportional
      → find (is_entry_of round.id args.user_id) before.round_entries ≡ none
      → category.min_entry_amount ≤ℤ args.amount
  pub exact :
      room.game_mode ≡ fixed_equal_chance
      → (room.fixed_entry_amount ≡ some args.amount)
        × (find (is_entry_of round.id args.user_id) before.round_entries ≡ none)

module _ (args : PlacementArgs) (rows : RequestRows) (room : Room) (category : Category)
    (at_room : rows.room ≡ some room) (at_category : rows.category ≡ some category)
    (ok_all : IsAllowed args rows) where
  is_flexible-mode : room.game_mode ≡ flexible_proportional → is_flexible rows ≡ true
  is_flexible-mode mode = rw (at_room, mode) refl

  is_fixed-mode : room.game_mode ≡ fixed_equal_chance → is_fixed rows ≡ true
  is_fixed-mode mode = rw (at_room, mode) refl

  -- The limits on an amount, by whether there is an entry.
  least :
      room.game_mode ≡ flexible_proportional
      → rows.entry ≡ none
      → category.min_entry_amount ≤ℤ args.amount
  least mode missing =
      let low = ok_all.enough in
      let k = rw (at_room, mode, missing, at_category) at low in ground arith

  most :
      room.game_mode ≡ flexible_proportional
      → rows.entry ≡ none
      → args.amount ≤ℤ category.max_entry_amount
  most mode missing =
      let high = ok_all.not_above in
      let k = rw (at_room, mode, missing, at_category) at high in ground arith

  most_again :
      (e : Entry)
      → room.game_mode ≡ flexible_proportional
      → rows.entry ≡ some e
      → pos 0 ≤ℤ e.amount
      → args.amount ≤ℤ category.max_entry_amount
  most_again e mode there low =
      let over = ok_all.not_over in
      let k = rw (at_room, mode, there, at_category) at over in
      let room_left : e.amount ≤ℤ category.max_entry_amount -ℤ args.amount = ground arith in
      omega int_laws

  exactly : room.game_mode ≡ fixed_equal_chance → room.fixed_entry_amount ≡ some args.amount
  exactly mode = elim (Option-cases room.fixed_entry_amount) [
    | inl missing ↦ cc (rw (at_room, mode, missing) at ok_all.amount_given)
    | inr (n, there) ↦
        let same = rw (at_room, mode, there) at ok_all.amount_same in
        let equal : args.amount ≡ n = ==ℤ→eq args.amount n (ground arith) in rw equal there
  ]

  no_entry : room.game_mode ≡ fixed_equal_chance → tx_exists rows ≡ false → rows.entry ≡ none
  no_entry mode fresh = elim (Option-cases rows.entry) [
    | inl missing ↦ missing
    | inr (e, there) ↦ cc (rw (at_room, mode, there, fresh) at ok_all.no_top_up)
  ]

  -- The entry after the placement.
  entry-most :
      (before d e : Db) (w : Writable) (placed : Entry)
      → w.max_entry_amount ≡ category.max_entry_amount
      → All (λ (x : Entry). pos 0 ≤ℤ x.amount) before.round_entries
      → ((old : Entry) → rows.entry ≡ some old → pos 0 ≤ℤ old.amount)
      → room.game_mode ≡ flexible_proportional
      → Appended args w.round_id placed d e ⊎ ToppedUp args rows w placed d e
      → placed.amount ≤ℤ category.max_entry_amount
  entry-most before d e w placed limit low known mode (inl a) = elim (Option-cases rows.entry) [
    | inl missing ↦ rw a.entry_is (most mode missing)
    | inr (old, there) ↦ rw a.entry_is (most_again old mode there (known old there))
  ]
  entry-most before d e w placed limit low known mode (inr t) =
      let room_left : t.old.amount ≤ℤ category.max_entry_amount -ℤ args.amount =
        rw (← limit) t.low in
      let sum : t.old.amount +ℤ args.amount ≤ℤ category.max_entry_amount = omega int_laws in
      rw t.entry_is sum

room-found :
    (args : PlacementArgs) (rows : RequestRows)
    → IsAllowed args rows
    → (r : Room) × (rows.room ≡ some r)
room-found args rows a = elim (Option-cases rows.room) [
  | inl missing ↦ cc (rw missing at a.room_active)
  | inr (r, there) ↦ (r, there)
]

-- A new placement that is answered was made in an active room of an active category, in the latest
-- round that was open for it. In a flexible room a first amount is at least the minimum of the
-- category, and the entry, with all that was put on it, is at most the maximum. In a fixed room the
-- amount is the room's, and the player had no entry. All this is by the snapshot, whose entries hold
-- no negative amounts; the maximum holds of the entry as it is after what others did meanwhile.
pub placement-IsAdmitted :
    (args : PlacementArgs) (before db : Db) (p : Placement) (next : Db)
    → All (λ (e : Entry). pos 0 ≤ℤ e.amount) before.round_entries
    → find (has_key args.idempotency_key) before.ledger ≡ none
    → write_entry_placement_in_transaction args before db ≡ ok (p, next)
    → IsAdmitted args before p
unfolding request_rows
placement-IsAdmitted args before db p next low missing h =
    let rows = request_rows args before in
    let run = answered-run args before db p next missing h in
    let writable = run.writable in
    let a = allowed args rows writable.allowed in
    let (room, at_room) = room-found args rows a in
    let category = writable.category in
    let (round, at_round, at_id) =
      open_round-found rows.open_round run.w.round_id writable.round_is in
    let es = before.round_entries in
    let same_entry : rows.entry ≡ find (is_entry_of round.id args.user_id) es =
      ap (λ t. entry_in (target_round t rows.open_round) args.user_id es) missing
      ∙ ap (λ o. entry_in (round_id_of o) args.user_id es) at_round in
    let known : (old : Entry) → rows.entry ≡ some old → pos 0 ≤ℤ old.amount = λ old there.
      (All-find (λ (e : Entry). pos 0 ≤ℤ e.amount) (is_entry_of round.id args.user_id) es low
        (sym same_entry ∙ there)).0 in
    record {
      room = room;
      room_found = at_room;
      room_active = rw at_room at a.room_active;
      category = category;
      category_found =
          ap (λ o. category_of o before.categories) (sym at_room) ∙ writable.category_is;
      category_active = rw writable.category_is at a.category_active;
      round = round;
      round_found = at_round;
      at_most = λ mode.
          entry-most args rows room category at_room writable.category_is a before run.after_debit
            run.after_entry run.w p.entry writable.limit_is low known mode run.entry_is;
      at_least = λ mode none_there.
          least args rows room category at_room writable.category_is a mode
            (same_entry ∙ none_there);
      exact = λ mode. (
        exactly args rows room category at_room writable.category_is a mode,
        sym same_entry
            ∙ no_entry args rows room category at_room writable.category_is a mode
                (rw missing refl),
      );
    }
