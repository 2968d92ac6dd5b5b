-- ===== src/Entries.antt =====
-- The placement of an entry (apps/api/src/modules/entries/entries.service.ts): what is asked for, and
-- the outcomes of the one SQL statement that writes it.
pub mod Sql
pub mod Request
pub mod Rules
pub mod Statement
pub mod Ledger
pub mod Status
pub mod Place
pub mod Handler
pub mod Passed
pub mod Paid
pub mod Sound
pub mod Kept
pub mod Lasting
pub mod Steps
pub mod Answer
pub mod Writable
pub mod Placed
pub mod Outcome
pub mod Effect
pub mod Limits
pub mod Finds
pub mod Repeat
pub mod Replay
pub mod Runs
pub mod Success
pub mod Chain
pub mod Accepted
mod Tests
mod RaceTests
use kingspin.Prelude.{Bool, String, Option}
use kingspin.Prelude.Int.{ℤ}
use kingspin.Store.Tables.{User, WalletAccount, Round, Entry}

pub data EntryPlacementStatus : Type 0 where
  success replay user_not_found room_not_found room_not_active : EntryPlacementStatus
  category_inactive entry_config_missing wallet_not_found : EntryPlacementStatus
  idempotency_mismatch idempotency_replay_missing entry_held_mismatch : EntryPlacementStatus
  entry_below_min entry_above_max entry_exceeds_max : EntryPlacementStatus
  fixed_entry_amount_required fixed_entry_amount_mismatch : EntryPlacementStatus
  fixed_top_up_not_allowed insufficient_balance round_not_open : EntryPlacementStatus
  idempotency_race ledger_write_failed unknown : EntryPlacementStatus

-- The input of the statement. `now` is the database's clock.
pub record PlacementArgs : Type 0 where
  pub room_id : String
  pub user_id : String
  pub amount : ℤ
  pub idempotency_key : String
  pub request_accepted_at : ℤ
  pub entry_id : String
  pub ledger_transaction_id : String
  pub now : ℤ

-- The row that the statement returns; a row of a table stands for its columns.
pub record EntryPlacementRow : Type 0 where
  pub status : EntryPlacementStatus
  pub reused : Bool
  pub existing_entry_amount : Option ℤ
  pub wallet_balance_snapshot : ℤ
  pub category_min_entry_amount : Option ℤ
  pub category_max_entry_amount : Option ℤ
  pub user : Option User
  pub entry : Option Entry
  pub wallet : Option WalletAccount
  pub round : Option Round

pub record Placement : Type 0 where
  pub entry : Entry
  pub player : User
  pub wallet : WalletAccount
  pub round : Round
  pub reused : Bool
