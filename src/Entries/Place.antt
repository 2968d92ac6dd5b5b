-- ===== src/Entries/Place.antt =====
-- The placement of an entry: the transaction, and the handler of a request.
use kingspin.Prelude.Result as Result
use kingspin.Store.Tx as Tx
use kingspin.Prelude.{Bool, true, false, ◌||◌, String, Option, none, some, if◌then◌else◌}
use kingspin.Prelude.Int.{ℤ}
use kingspin.Prelude.Text.{is_empty, ◌<>◌, to_string}
use kingspin.Prelude.Result.{
  Error, Result, ok, err, bad_request, entry_idempotency_race, record_not_found, throw_if,
}
use kingspin.Store.Tables.{User, Entry, Round, WalletAccount, Db}
use kingspin.Store.Tx.{Tx, commit, gets}
use kingspin.Entries.{
  EntryPlacementStatus, success, replay, user_not_found, room_not_found, room_not_active,
  category_inactive, entry_config_missing, wallet_not_found, idempotency_mismatch,
  idempotency_replay_missing, entry_held_mismatch, entry_below_min, entry_above_max,
  entry_exceeds_max, fixed_entry_amount_required, fixed_entry_amount_mismatch,
  fixed_top_up_not_allowed, insufficient_balance, round_not_open, idempotency_race,
  ledger_write_failed, unknown, PlacementArgs, EntryPlacementRow, Placement,
}
use kingspin.Entries.Request.{request_rows}
use kingspin.Entries.Statement.{writable_request, debit_wallet, upsert_entry}
use kingspin.Entries.Ledger.{insert_transaction, apply_held_transaction}
use kingspin.Entries.Status.{Written, placement_row}

-- The writes of the statement, on the rows that its snapshot shows.
unfoldable pub write_placement : PlacementArgs → Db → Tx Written
unfolding debit_wallet upsert_entry insert_transaction apply_held_transaction
write_placement args before =
    let rows = request_rows args before in
    let w = writable_request args rows in
    Tx.◌>>=◌ (debit_wallet args rows before w) (λ paid.
      Tx.◌>>=◌ (upsert_entry args rows w paid) (λ entry.
        Tx.◌>>=◌ (insert_transaction args rows before w paid entry) (λ inserted.
          Tx.◌>>=◌ (apply_held_transaction args rows before w entry) (λ applied.
            Tx.pure
              (record { paid = paid; entry = entry; inserted = inserted; applied = applied })))))

-- A status that ends the request, with what it throws.
unfoldable pub thrown : PlacementArgs → EntryPlacementRow → Option Error
thrown args row = elim row.status [
  | idempotency_race ↦ some entry_idempotency_race
  | idempotency_mismatch ↦
      some (bad_request "Idempotency key was already used for a different entry request.")
  | entry_held_mismatch ↦
      some (bad_request "Idempotency key was already used for a different entry request.")
  | idempotency_replay_missing ↦
      some (
        bad_request
          "Previous entry request is missing its committed entry. Manual review required.")
  | user_not_found ↦ some (bad_request "User not found.")
  | room_not_found ↦ some (bad_request "Room not found.")
  | room_not_active ↦ some (bad_request "Entries are only allowed in ACTIVE rooms.")
  | category_inactive ↦ some (bad_request "Entries are only allowed in active categories.")
  | entry_config_missing ↦ some (bad_request "Room category is not configured for entries.")
  | wallet_not_found ↦ some (bad_request "MAIN wallet account was not found.")
  | entry_below_min ↦ some (
      bad_request (
        "Entry amount is below category minimum. Minimum is "
        <> text_or row.category_min_entry_amount
        <> "."))
  | entry_above_max ↦ some (
      bad_request (
        "Entry amount is above category maximum. Maximum is "
        <> text_or row.category_max_entry_amount
        <> "."))
  | entry_exceeds_max ↦ some (
      bad_request (
        "Entry increase would exceed category maximum. Maximum is "
        <> text_or row.category_max_entry_amount
        <> ", current is "
        <> text_or row.existing_entry_amount
        <> ", attempted add is "
        <> to_string args.amount
        <> "."))
  | fixed_entry_amount_required ↦ some (
      bad_request
        "Fixed equal-chance room is missing fixedEntryAmount. Manual admin review required.")
  | fixed_entry_amount_mismatch ↦
      some (bad_request "Fixed equal-chance room requires the exact configured entry amount.")
  | fixed_top_up_not_allowed ↦
      some (
        bad_request "Fixed equal-chance room allows one entry per user and does not allow top-ups.")
  | insufficient_balance ↦ some (
      bad_request (
        "Insufficient MAIN wallet balance. Balance is "
        <> to_string row.wallet_balance_snapshot
        <> ", required is "
        <> to_string args.amount
        <> "."))
  | round_not_open ↦ some (bad_request "Round is no longer OPEN. Entry was not accepted.")
  | ledger_write_failed ↦ some (bad_request "Entry write failed. Please retry.")
  | unknown ↦ some (bad_request "Entry write failed. Please retry.")
  | success ↦ none
  | replay ↦ none
]
  where
    text_or : Option ℤ → String
    text_or none = "unknown"
    text_or (some n) = to_string n

abbrev pub is_replay : EntryPlacementStatus → Bool
is_replay replay = true
is_replay _ = false

-- `playerFromPlacementRow`
abbrev pub player_of : Option User → Result User
player_of none = err (bad_request "Entry write returned an incomplete player.")
player_of (some u) =
    if is_empty u.id || is_empty u.email || is_empty u.username || is_empty u.full_name
    then err (bad_request "Entry write returned an incomplete player.")
    else ok u

-- `entryFromPlacementRow` and `roundFromPlacementRow`, of rows whose own id is not empty
abbrev pub entry_from : Entry → Result Entry
entry_from e =
    if is_empty e.round_id || is_empty e.user_id
    then err (bad_request "Entry write returned an incomplete entry.")
    else ok e

abbrev pub round_from : Round → Result Round
round_from r =
    if is_empty r.room_id
    then err (bad_request "Entry write returned an incomplete round.")
    else ok r

abbrev pub placement_of :
    EntryPlacementRow → Option Entry → Option WalletAccount → Option Round → Result Placement
placement_of row (some e) (some w) (some r) =
    Result.◌>>◌
      (throw_if (is_empty e.id || is_empty w.id || is_empty r.id)
        (bad_request "Entry write returned an incomplete result."))
      (Result.◌>>=◌ (entry_from e) (λ entry. Result.◌>>=◌ (player_of row.user) (λ player.
        Result.◌>>=◌ (round_from r) (λ round. ok (record {
          entry = entry;
          player = player;
          wallet = w;
          round = round;
          reused = is_replay row.status || row.reused;
        })))))
placement_of row _ _ _ = err (bad_request "Entry write returned an incomplete result.")

unfoldable pub to_placement_result_from_row : PlacementArgs → EntryPlacementRow → Result Placement
unfolding thrown
to_placement_result_from_row args row = elim (thrown args row) [
  | some e ↦ err e
  | none ↦ placement_of row row.entry row.wallet row.round
]

-- The statement, whose snapshot is `before`, and what the code makes of its row.
unfoldable pub write_entry_placement_in_transaction : PlacementArgs → Db → Tx Placement
unfolding write_placement placement_row to_placement_result_from_row
write_entry_placement_in_transaction args before =
    Tx.◌>>=◌ (write_placement args before) (λ written. Tx.lift (
      to_placement_result_from_row args
        (placement_row args (request_rows args before) before written)))
