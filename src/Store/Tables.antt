-- ===== src/Store/Tables.antt =====
-- The rows of the tables (packages/db/prisma/schema.prisma).
use kingspin.Prelude.{ℕ, Bool, String, List, Option, ◌==◌}
use kingspin.Prelude.Int.{ℤ}
use kingspin.Prelude.Text.{Fields}
use kingspin.Engine.Machine.{RoundStatus}

pub data WalletAccountType : Type 0 where
  main bonus house : WalletAccountType

pub data LedgerTransactionType : Type 0 where
  admin_credit admin_debit entry_hold entry_refund round_payout house_fee : LedgerTransactionType
  deposit withdrawal_request withdrawal_approved withdrawal_rejected : LedgerTransactionType
  withdrawal_refund wallet_transfer : LedgerTransactionType

pub data LedgerEntryDirection : Type 0 where
  credit debit : LedgerEntryDirection

pub data WithdrawalStatus : Type 0 where
  pending_review approved processing completed paid rejected failed cancelled : WithdrawalStatus

pub record WalletAccount : Type 0 where
  pub id : String
  pub user_id : Option String
  pub type : WalletAccountType
  pub balance : ℤ  -- balanceSnapshot

pub record LedgerEntry : Type 0 where
  pub wallet_account_id : String
  pub direction : LedgerEntryDirection
  pub amount : ℤ
  pub balance_after : ℤ  -- balanceAfterSnapshot

-- The members of `metadata` that are texts; a member that is null is left out.
pub record LedgerTransaction : Type 0 where
  pub id : String
  pub type : LedgerTransactionType
  pub reference_type : Option String
  pub reference_id : Option String
  pub idempotency_key : String
  pub metadata : Fields
  pub entries : List LedgerEntry

pub record Withdrawal : Type 0 where
  pub id : String
  pub user_id : String
  pub wallet_account_id : String
  pub provider : String
  pub provider_reference : Option String
  pub amount : ℤ
  pub currency : String
  pub status : WithdrawalStatus
  pub reviewed_by_admin_id : Option String
  pub rejection_reason : Option String
  pub idempotency_key : String

pub data RoomStatus : Type 0 where
  draft active paused maintenance closed archived : RoomStatus

pub data GameMode : Type 0 where
  flexible_proportional fixed_equal_chance : GameMode

pub record User : Type 0 where
  pub id : String
  pub email : String
  pub username : String
  pub full_name : String

pub record Category : Type 0 where
  pub id : String
  pub min_entry_amount : ℤ
  pub max_entry_amount : ℤ
  pub is_active : Bool

pub record Room : Type 0 where
  pub id : String
  pub category_id : String
  pub status : RoomStatus
  pub game_mode : GameMode
  pub fixed_entry_amount : Option ℤ
  pub round_duration_ms : ℤ

-- Dates are milliseconds. The wheel angle is counted in ten-thousandths of a degree.
pub record Round : Type 0 where
  pub id : String
  pub room_id : String
  pub round_number : ℤ
  pub status : RoundStatus
  pub opened_at : ℤ
  pub locks_at : Option ℤ
  pub locked_at : Option ℤ
  pub drawing_at : Option ℤ
  pub spinning_at : Option ℤ
  pub settling_at : Option ℤ
  pub completed_at : Option ℤ
  pub cancelled_at : Option ℤ
  pub total_entry_amount : ℤ
  pub house_fee_amount : ℤ
  pub payout_amount : ℤ
  pub platform_fee_bps : Option ℤ
  pub server_seed_hash : Option String
  pub server_seed_reveal : Option String
  pub fairness_algorithm : Option String
  pub entries_hash : Option String
  pub draw_hash : Option String
  pub draw_nonce : Option ℤ
  pub winning_ticket : Option ℤ
  pub winner_user_id : Option String
  pub winner_entry_id : Option String
  pub spin_angle : Option ℤ
  pub idempotency_key : Option String

pub record Entry : Type 0 where
  pub id : String
  pub round_id : String
  pub user_id : String
  pub amount : ℤ
  pub ticket_start : Option ℤ
  pub ticket_end : Option ℤ
  pub is_winner : Bool
  pub created_at : ℤ

pub record Db : Type 0 where
  pub wallets : List WalletAccount
  pub ledger : List LedgerTransaction
  pub withdrawals : List Withdrawal
  pub users : List User
  pub categories : List Category
  pub rooms : List Room
  pub rounds : List Round
  pub round_entries : List Entry

abbrev account_code : WalletAccountType → ℕ
account_code main = 0
account_code bonus = 1
account_code house = 2

abbrev pub account_eq : WalletAccountType → WalletAccountType → Bool
account_eq a b = account_code a == account_code b

abbrev ledger_code : LedgerTransactionType → ℕ
ledger_code admin_credit = 0
ledger_code admin_debit = 1
ledger_code entry_hold = 2
ledger_code entry_refund = 3
ledger_code round_payout = 4
ledger_code house_fee = 5
ledger_code deposit = 6
ledger_code withdrawal_request = 7
ledger_code withdrawal_approved = 8
ledger_code withdrawal_rejected = 9
ledger_code withdrawal_refund = 10
ledger_code wallet_transfer = 11

abbrev pub ledger_type_eq : LedgerTransactionType → LedgerTransactionType → Bool
ledger_type_eq a b = ledger_code a == ledger_code b
