-- ===== src/Rounds/Open.antt =====
-- The opening of rounds (apps/api/src/modules/rounds/rounds.service.ts). The answer of
-- `pg_try_advisory_xact_lock`, the id and the seed of the new round and the time are arguments. The
-- rows are returned as they are: the snapshots of the source only print them.
use kingspin.Prelude.{Bool, true, false, not, ◌&&◌, ◌||◌, String, [], ◌∷◌, ◌++◌, Option, none, some}
use kingspin.Prelude.Int.{ℤ, pos, ◌+ℤ◌, ◌==ℤ◌}
use kingspin.Prelude.Lists.{find, any}
use kingspin.Prelude.Text.{str_eq, opt_str_eq, is_empty, ◌<>◌, to_string}
use kingspin.Prelude.Result.{bad_request, not_found, conflict, unique_constraint}
use kingspin.Store.Tables.{RoomStatus, active, Room, Round}
use kingspin.Store.Tx.{Tx, ◌>>=◌, ◌>>◌, pure, throw_if, gets, modify, or_throw, commit}
use kingspin.Store.Service as Service
use kingspin.Store.Service.{Service}
use kingspin.Engine.Machine.{open_round}
use kingspin.Engine.Draw.{fairness_algorithm}
use kingspin.Rounds.Rows.{Env, active_round_statuses, in_room, find_latest_round}

abbrev entry_open_duration_ms : ℤ
entry_open_duration_ms = pos 60_000

-- The entry window does not depend on the room's duration.
abbrev get_entry_open_duration_ms : ℤ → ℤ
get_entry_open_duration_ms room_round_duration_ms = entry_open_duration_ms

-- What a new round is made with.
pub record Fresh : Type 0 where
  pub new_id : String
  pub server_seed : String
  pub now : ℤ

abbrev pub start_key : String → ℤ → String
start_key room_id round_number = "round:start:" <> room_id <> ":" <> to_string round_number

abbrev pub new_round : Env → Fresh → String → ℤ → ℤ → Round
new_round env fresh room_id round_duration_ms round_number = record {
  id = fresh.new_id;
  room_id = room_id;
  round_number = round_number;
  status = open_round;
  opened_at = fresh.now;
  locks_at = some (fresh.now +ℤ get_entry_open_duration_ms round_duration_ms);
  locked_at = none;
  drawing_at = none;
  spinning_at = none;
  settling_at = none;
  completed_at = none;
  cancelled_at = none;
  total_entry_amount = pos 0;
  house_fee_amount = pos 0;
  payout_amount = pos 0;
  platform_fee_bps = some env.platform_fee_bps;
  server_seed_hash = some (env.sha256 fresh.server_seed);
  server_seed_reveal = some fresh.server_seed;
  fairness_algorithm = some fairness_algorithm;
  entries_hash = none;
  draw_hash = none;
  draw_nonce = none;
  winning_ticket = none;
  winner_user_id = none;
  winner_entry_id = none;
  spin_angle = none;
  idempotency_key = some (start_key room_id round_number);
}

-- The unique columns: the id, the start key, and the number of a round in its room.
abbrev pub clashes : Round → Round → Bool
clashes r s =
    str_eq s.id r.id
    || (opt_str_eq s.idempotency_key r.idempotency_key && not (opt_str_eq r.idempotency_key none))
    || (str_eq s.room_id r.room_id && (s.round_number ==ℤ r.round_number))

unfoldable pub create_round : Round → Tx Round
create_round r = do
  taken ← gets λ db. any (clashes r) db.rounds
  throw_if taken unique_constraint
  modify λ db. record db { rounds = db.rounds ++ r ∷ [] }
  pure r

unfoldable pub create_open_round_for_room_tx : Env → Fresh → String → ℤ → ℤ → Tx Round
unfolding create_round
create_open_round_for_room_tx env fresh room_id round_duration_ms latest_round_number =
    create_round (new_round env fresh room_id round_duration_ms (latest_round_number +ℤ pos 1))

abbrev pub number_or_zero : Option Round → ℤ
number_or_zero none = pos 0
number_or_zero (some r) = r.round_number

unfoldable pub find_or_create_open_round_for_room_tx : Env → Fresh → String → ℤ → Tx Round
unfolding create_open_round_for_room_tx find_latest_round
find_or_create_open_round_for_room_tx env fresh room_id round_duration_ms = do
  existing ← find_latest_round (in_room room_id active_round_statuses)
  elim existing [
    | some r ↦ pure r
    | none ↦ do
      last ← find_latest_round (λ r. str_eq r.room_id room_id)
      create_open_round_for_room_tx env fresh room_id round_duration_ms (number_or_zero last)
  ]

abbrev pub is_active : RoomStatus → Bool
is_active active = true
is_active _ = false

unfoldable pub find_room : String → Tx (Option Room)
find_room id = gets λ db. find (λ r. str_eq r.id id) db.rooms

-- The checks that a room may start rounds.
unfoldable pub require_active_room : Bool → String → Tx Room
unfolding find_room
require_active_room has_lock room_id = do
  throw_if (not has_lock) (conflict "Another round start is already running for this room.")
  found ← find_room room_id
  room ← or_throw found (not_found "Room not found.")
  throw_if (not (is_active room.status)) (bad_request "Only ACTIVE rooms can start rounds.")
  pure room

unfoldable pub start_open_round_for_room : Env → Fresh → Bool → String → Service Round
unfolding find_or_create_open_round_for_room_tx require_active_room
start_open_round_for_room env fresh has_lock room_id =
    Service.◌>>◌ (Service.fail_if (is_empty room_id) (bad_request "roomId is required.")) (
      commit (do
        room ← require_active_room has_lock room_id
        find_or_create_open_round_for_room_tx env fresh room_id room.round_duration_ms))

unfoldable pub find_current_round_for_room : String → Service (Option Round)
unfolding find_latest_round
find_current_round_for_room room_id =
    Service.◌>>◌ (Service.fail_if (is_empty room_id) (bad_request "roomId is required."))
      (commit (find_latest_round (in_room room_id active_round_statuses)))
