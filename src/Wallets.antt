-- ===== src/Wallets.antt =====
-- The wallets service (apps/api/src/modules/wallets/wallets.service.ts): what it answers, and the
-- steps that its operations share. The rows themselves stand for their snapshots.
pub mod MainWallet
pub mod Matches
pub mod NewWallet
pub mod Money
pub mod Answered
pub mod CreditOnce
pub mod Credits
pub mod DepositOnce
pub mod Effect
pub mod EntryRefund
pub mod EntryRefundLaws
pub mod HoldOutcome
pub mod Kept
pub mod Once
pub mod Outcomes
pub mod Replay
pub mod Sound
pub mod TransferClash
pub mod TransferKept
pub mod TransferTests
pub mod TransferLaws
pub mod Transfers
pub mod Tests
pub mod WinLaws
pub mod Wins
use kingspin.Prelude.{Bool, true, false, String, Option, none, some}
use kingspin.Prelude.Int.{ℤ}
use kingspin.Prelude.Text.{◌<>◌, to_string}
use kingspin.Prelude.Result.{bad_request}
use kingspin.Store.Tables.{WalletAccount, LedgerTransaction}
use kingspin.Store.Tx.{Tx, ◌>>=◌, ◌>>◌, pure, throw}
use kingspin.Store.Queries.{
  find_transaction, find_wallet, find_wallet_or_throw, decrement_balance, post_credit, post_debit,
  Draft,
}

-- `MoneyMutationResult`, `EntryHoldResult`
pub record MoneyMutationResult : Type 0 where
  pub wallet : WalletAccount
  pub transaction : LedgerTransaction
  pub reused : Bool

abbrev pub reused_result : LedgerTransaction → WalletAccount → MoneyMutationResult
reused_result t w = record { wallet = w; transaction = t; reused = true }

-- The lookup of a transaction by its idempotency key, with the early return if there is one.
abbrev pub unless_done :
    String
    → (LedgerTransaction → Tx MoneyMutationResult)
    → Tx MoneyMutationResult
    → Tx MoneyMutationResult
unless_done key reuse fresh = do
  existing ← find_transaction key
  elim existing [ some t ↦ reuse t | none ↦ fresh ]

-- The early return: the assertion, and the wallet as it is now.
abbrev pub reuse : Tx Unit → String → LedgerTransaction → Tx MoneyMutationResult
reuse assertion wallet_id t = do
  assertion
  w ← find_wallet_or_throw wallet_id
  pure (reused_result t w)

abbrev pub insufficient_text : Option WalletAccount → ℤ → String
insufficient_text w required =
    "Insufficient MAIN wallet balance. Balance is "
    <> elim w [ none ↦ "0" | some v ↦ to_string v.balance ]
    <> ", required is "
    <> to_string required
    <> "."

-- The conditional decrement of a main wallet, and the exception if no row was returned.
unfoldable pub debit_main : String → String → ℤ → Tx WalletAccount
unfolding find_wallet
debit_main id user_id amount = do
  updated ← decrement_balance id user_id amount
  elim updated [
    | some w ↦ pure w
    | none ↦ do seen ← find_wallet id; throw (bad_request (insufficient_text seen amount))
  ]

abbrev pub fresh_result : WalletAccount × LedgerTransaction → MoneyMutationResult
fresh_result (w, t) = record { wallet = w; transaction = t; reused = false }

-- The debit of a main wallet and its row in the ledger.
abbrev pub debit_fresh :
    String → String → String → ℤ → (WalletAccount → Draft) → Tx MoneyMutationResult
debit_fresh new_id wallet_id user_id amount draft = do
  w ← debit_main wallet_id user_id amount
  posted ← post_debit new_id amount (draft w) w
  pure (fresh_result posted)

-- The credit of a wallet and its row in the ledger.
abbrev pub credit_fresh : String → String → ℤ → (WalletAccount → Draft) → Tx MoneyMutationResult
credit_fresh new_id wallet_id amount draft = do
  posted ← post_credit new_id wallet_id amount draft
  pure (fresh_result posted)
