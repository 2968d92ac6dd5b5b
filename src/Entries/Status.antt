-- ===== src/Entries/Status.antt =====
-- The status of the statement, and the row that it returns.
use kingspin.Prelude.{
  Bool, not, ◌&&◌, String, List, [], ◌∷◌, Option, none, some, is_some, if◌then◌else◌,
}
use kingspin.Prelude.Int.{ℤ, pos}
use kingspin.Prelude.Lists.{find}
use kingspin.Prelude.Text.{opt_str_eq}
use kingspin.Store.Tables.{Round, Entry, WalletAccount, Db}
use kingspin.Engine.Machine.{open_round, status_eq}
use kingspin.Rounds.Rows.{has_entry_id, is_round}
use kingspin.Entries.{
  EntryPlacementStatus, success, replay, user_not_found, room_not_found, room_not_active,
  category_inactive, wallet_not_found, idempotency_mismatch, idempotency_replay_missing,
  entry_held_mismatch, entry_below_min, entry_above_max, entry_exceeds_max,
  fixed_entry_amount_required, fixed_entry_amount_mismatch, fixed_top_up_not_allowed,
  insufficient_balance, round_not_open, idempotency_race, ledger_write_failed, unknown,
  PlacementArgs, EntryPlacementRow,
}
use kingspin.Entries.Sql.{holds, is_false, coalesce}
use kingspin.Entries.Request.{
  RequestRows, tx_matches, tx_exists, applied_replay, held_retry, transaction_entry_id,
  target_round, target_wallet, entry_in, wallet_id_of,
}
use kingspin.Entries.Rules.{
  held_entry_mismatch, is_fixed, fixed_amount_missing, fixed_amount_mismatch, fixed_top_up,
  below_minimum, above_maximum, exceeds_maximum, room_is_active, category_is_active,
}
use kingspin.Entries.Ledger.{total_in}

-- What the parts of the statement that write returned.
pub record Written : Type 0 where
  pub paid : Option WalletAccount
  pub entry : Option Entry
  pub inserted : Bool
  pub applied : Bool

-- `replay_entry`
abbrev pub entry_of_transaction : Option String → PlacementArgs → RequestRows → Db → Option Entry
entry_of_transaction (some id) args rows before = find (has_entry_id id) before.round_entries
entry_of_transaction none args rows before =
    entry_in (target_round rows.transaction rows.open_round) args.user_id before.round_entries

unfoldable pub replay_entry : PlacementArgs → RequestRows → Db → Option Entry
replay_entry args rows before =
    if applied_replay rows
    then entry_of_transaction (transaction_entry_id rows) args rows before
    else none

abbrev pub round_at : Option String → List Round → Option Round
round_at none rs = none
round_at (some id) rs = find (is_round id) rs

-- `replay_round`
unfoldable pub replay_round : RequestRows → Db → Option Round
replay_round rows before =
    if applied_replay rows
    then round_at (target_round rows.transaction rows.open_round) before.rounds
    else none

abbrev pub final_entry : PlacementArgs → RequestRows → Db → Written → Option Entry
final_entry args rows before written = coalesce written.entry (replay_entry args rows before)

abbrev pub final_round : RequestRows → Db → Written → Option Round
final_round rows before written =
    if is_some written.entry then rows.open_round else replay_round rows before

-- `final_wallet`
abbrev pub final_wallet : RequestRows → Written → Option WalletAccount
final_wallet rows written = elim written.paid [
  | some w ↦ some w
  | none ↦
      if tx_exists rows
        && is_some rows.wallet
        && opt_str_eq (wallet_id_of rows.wallet) (target_wallet rows)
      then rows.wallet
      else none
]

-- `CASE`: the first `WHEN` that is true, or else `ELSE`.
abbrev pub case_when :
    List (Bool × EntryPlacementStatus) → EntryPlacementStatus → EntryPlacementStatus
case_when [] otherwise = otherwise
case_when ((test, status) ∷ rest) otherwise = if test then status else case_when rest otherwise

abbrev pub replay_cases : PlacementArgs → RequestRows → Db → List (Bool × EntryPlacementStatus)
replay_cases args rows before =
    (tx_exists rows && is_false (tx_matches args rows), idempotency_mismatch)
    ∷ (
      applied_replay rows && not (is_some (replay_entry args rows before)),
      idempotency_replay_missing,
    )
    ∷ (applied_replay rows, replay)
    ∷ []

-- The limits of a category are never NULL here.
abbrev pub request_cases : PlacementArgs → RequestRows → List (Bool × EntryPlacementStatus)
request_cases args rows =
    (not (is_some rows.user), user_not_found)
    ∷ (not (is_some rows.room), room_not_found)
    ∷ (not (room_is_active rows), room_not_active)
    ∷ (not (category_is_active rows), category_inactive)
    ∷ (not (is_some rows.open_round), round_not_open)
    ∷ (not (is_some (target_wallet rows)), wallet_not_found)
    ∷ (holds (held_entry_mismatch args rows), entry_held_mismatch)
    ∷ (fixed_amount_missing rows, fixed_entry_amount_required)
    ∷ (fixed_amount_mismatch args rows, fixed_entry_amount_mismatch)
    ∷ (fixed_top_up rows, fixed_top_up_not_allowed)
    ∷ (below_minimum args rows, entry_below_min)
    ∷ (above_maximum args rows, entry_above_max)
    ∷ (exceeds_maximum args rows, entry_exceeds_max)
    ∷ []

abbrev pub write_cases : RequestRows → Written → List (Bool × EntryPlacementStatus)
write_cases rows written =
    (not (tx_exists rows) && not (is_some written.paid), insufficient_balance)
    ∷ (is_fixed rows && not (is_some written.entry), fixed_top_up_not_allowed)
    ∷ (not (is_some written.entry), entry_exceeds_max)
    ∷ (not (tx_exists rows) && not written.inserted, idempotency_race)
    ∷ (held_retry rows && not written.applied, ledger_write_failed)
    ∷ []

abbrev pub last_case : PlacementArgs → RequestRows → Db → Written → EntryPlacementStatus
last_case args rows before written =
    if is_some (final_entry args rows before written)
      && is_some (final_round rows before written)
      && is_some (final_wallet rows written)
    then success
    else unknown

unfoldable pub placement_status : PlacementArgs → RequestRows → Db → Written → EntryPlacementStatus
placement_status args rows before written = case_when (replay_cases args rows before) (
    case_when (request_cases args rows)
      (case_when (write_cases rows written) (last_case args rows before written)))

-- An open round is shown_if_found with the sum of its entries for its total and its payout.
abbrev pub shown_round : Db → Round → Round
shown_round before r =
    if status_eq r.status open_round
    then record r {
      total_entry_amount = total_in r.id before;
      payout_amount = total_in r.id before;
    }
    else r

abbrev pub shown_if_found : Db → Option Round → Option Round
shown_if_found before none = none
shown_if_found before (some r) = some (shown_round before r)

abbrev pub balance_or : Option WalletAccount → ℤ → ℤ
balance_or none b = b
balance_or (some w) b = w.balance

unfoldable pub placement_row : PlacementArgs → RequestRows → Db → Written → EntryPlacementRow
unfolding placement_status
placement_row args rows before written = record {
  status = placement_status args rows before written;
  reused = applied_replay rows;
  existing_entry_amount = elim rows.entry [ none ↦ none | some e ↦ some e.amount ];
  wallet_balance_snapshot = balance_or (final_wallet rows written) (balance_or rows.wallet (pos 0));
  category_min_entry_amount = elim rows.category [ none ↦ none | some c ↦ some c.min_entry_amount ];
  category_max_entry_amount = elim rows.category [ none ↦ none | some c ↦ some c.max_entry_amount ];
  user = rows.user;
  entry = final_entry args rows before written;
  wallet = final_wallet rows written;
  round = shown_if_found before (final_round rows before written);
}
