-- ===== src/Entries/Statement.antt =====
-- The part of the statement that writes: the debit of the wallet, the entry, and the row of the ledger.
-- The statement reads from the snapshot `before`, and what it writes meets the rows as they are by then
-- (READ COMMITTED): an update checks its test again on the new version of a row, and an insertion meets
-- the rows that others have committed since. No part of it sees what another part writes.
use kingspin.Prelude.{
  Bool, false, not, ◌&&◌, ◌||◌, String, [], ◌∷◌, ◌++◌, map, Option, none, some, is_some,
  if◌then◌else◌,
}
use kingspin.Prelude.Int.{ℤ, ◌+ℤ◌, ◌-ℤ◌, leb_ℤ}
use kingspin.Prelude.Lists.{find, any}
use kingspin.Prelude.Text.{str_eq}
use kingspin.Prelude.Result.{error}
use kingspin.Store.Tables.{Category, Entry, WalletAccount, Db}
use kingspin.Store.Tx.{Tx, ◌>>=◌, ◌>>◌, pure, throw, throw_if, gets, modify}
use kingspin.Store.Queries.{can_pay, decrement_balance}
use kingspin.Rounds.Rows.{has_entry_id, is_round}
use kingspin.Entries.{PlacementArgs}
use kingspin.Entries.Sql.{holds, is_false}
use kingspin.Entries.Request.{
  RequestRows, tx_matches, tx_exists, applied_replay, held_retry, target_entry_id, target_round,
  target_wallet, is_entry_of,
}
use kingspin.Entries.Rules.{
  held_entry_mismatch, is_flexible, breaks_rules, room_is_active, category_is_active,
}

-- A row of `writable_request`, with the category's limit.
pub record Writable : Type 0 where
  pub round_id : String
  pub wallet_account_id : String
  pub target_id : Option String
  pub max_entry_amount : ℤ

abbrev pub may_write : PlacementArgs → RequestRows → Bool
may_write args rows =
    holds (tx_matches args rows)
    && not (applied_replay rows)
    && is_some rows.user
    && room_is_active rows
    && category_is_active rows
    && is_false (held_entry_mismatch args rows)
    && not (breaks_rules args rows)

abbrev pub writable_of :
    PlacementArgs → RequestRows → Option String → Option String → Option Category → Option Writable
writable_of args rows (some round_id) (some wallet_id) (some c) = some (record {
  round_id = round_id;
  wallet_account_id = wallet_id;
  target_id = target_entry_id args rows;
  max_entry_amount = c.max_entry_amount;
})
writable_of args rows _ _ _ = none

unfoldable pub writable_request : PlacementArgs → RequestRows → Option Writable
writable_request args rows =
    if may_write args rows
    then writable_of args rows (target_round rows.transaction rows.open_round) (target_wallet rows)
        rows.category
    else none

-- The tests of `debit_wallet` on the snapshot
abbrev pub may_debit : PlacementArgs → RequestRows → Db → Writable → Bool
may_debit args rows before w =
    not (tx_exists rows)
    && is_some rows.open_round
    && any (can_pay w.wallet_account_id args.user_id args.amount) before.wallets

-- `debit_wallet`
unfoldable pub debit_wallet :
    PlacementArgs → RequestRows → Db → Option Writable → Tx (Option WalletAccount)
unfolding decrement_balance
debit_wallet args rows before none = pure none
debit_wallet args rows before (some w) =
    if may_debit args rows before w
    then decrement_balance w.wallet_account_id args.user_id args.amount
    else pure none

abbrev pub new_entry : PlacementArgs → String → String → Entry
new_entry args round_id id = record {
  id = id;
  round_id = round_id;
  user_id = args.user_id;
  amount = args.amount;
  ticket_start = none;
  ticket_end = none;
  is_winner = false;
  created_at = args.now;
}

-- `DO UPDATE SET`
abbrev pub top_up : ℤ → Entry → Entry
top_up amount e = record e { amount = e.amount +ℤ amount; ticket_start = none; ticket_end = none }

-- The `WHERE` of `DO UPDATE`
abbrev pub may_top_up : PlacementArgs → RequestRows → Writable → String → Entry → Bool
may_top_up args rows w id e =
    leb_ℤ e.amount (w.max_entry_amount -ℤ args.amount)
    && (is_flexible rows || str_eq e.id id)
    && (not (held_retry rows) || str_eq e.id id)

abbrev pub change_entry : (Entry → Bool) → (Entry → Entry) → Entry → Entry
change_entry p f e = if p e then f e else e

abbrev pub add_to_entry : PlacementArgs → Entry → Tx (Option Entry)
add_to_entry args e = do
  modify λ db. record db {
    round_entries =
        map (change_entry (is_entry_of e.round_id e.user_id) (top_up args.amount)) db.round_entries;
  }
  pure (some (top_up args.amount e))

-- A round that is not there violates the foreign key.
abbrev pub insert_new : PlacementArgs → String → String → Tx (Option Entry)
insert_new args round_id id = do
  taken ← gets λ db. any (has_entry_id id) db.round_entries
  throw_if taken (error "Raw query failed. Code: `23505`.")
  there ← gets λ db. any (is_round round_id) db.rounds
  throw_if (not there) (error "Raw query failed. Code: `23503`.")
  modify λ db. record db { round_entries = db.round_entries ++ new_entry args round_id id ∷ [] }
  pure (some (new_entry args round_id id))

-- The insertion, or the change of the row of that round and user.
abbrev pub upsert_found :
    PlacementArgs → RequestRows → Writable → String → Option Entry → Tx (Option Entry)
upsert_found args rows w id none = insert_new args w.round_id id
upsert_found args rows w id (some e) =
    if may_top_up args rows w id e then add_to_entry args e else pure none

abbrev pub upsert_at : PlacementArgs → RequestRows → Writable → Option String → Tx (Option Entry)
upsert_at args rows w none = throw (error "Raw query failed. Code: `23502`.")
upsert_at args rows w (some id) = do
  existing ← gets λ db. find (is_entry_of w.round_id args.user_id) db.round_entries
  upsert_found args rows w id existing

-- `entry_upsert`
unfoldable pub upsert_entry :
    PlacementArgs → RequestRows → Option Writable → Option WalletAccount → Tx (Option Entry)
upsert_entry args rows none paid = pure none
upsert_entry args rows (some w) paid =
    if (held_retry rows || is_some paid) && is_some rows.open_round
    then upsert_at args rows w w.target_id
    else pure none
