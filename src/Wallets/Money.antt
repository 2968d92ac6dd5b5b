-- ===== src/Wallets/Money.antt =====
-- The operations of the wallets service that run inside a transaction of their caller. The client's
-- ids of new rows are arguments.
use kingspin.Prelude.{Bool, ◌&&◌, String, List, [], ◌∷◌, ◌++◌, none, some}
use kingspin.Prelude.Int.{pos}
use kingspin.Prelude.Lists.{find, any}
use kingspin.Prelude.Text.{opt_str_eq, ◌<>◌, to_string}
use kingspin.Prelude.Result.{unique_constraint, error}
use kingspin.Store.Tables.{
  main, entry_hold, deposit, withdrawal_request, withdrawal_refund, WalletAccount, LedgerEntry,
  LedgerTransaction, account_eq,
}
use kingspin.Store.Tx.{Tx, ◌>>=◌, ◌>>◌, pure, throw, throw_if, gets, modify}
use kingspin.Store.Queries.{has_id, Draft}
use kingspin.Wallets.{MoneyMutationResult, unless_done, reuse, debit_fresh, credit_fresh}
use kingspin.Wallets.Matches.{
  EntryHoldArgs, DepositCreditArgs, WithdrawalArgs, assert_entry_hold_transaction_matches,
  assert_deposit_credit_transaction_matches, assert_withdrawal_reserve_transaction_matches,
  assert_withdrawal_refund_transaction_matches,
}

abbrev pub hold_draft : EntryHoldArgs → WalletAccount → Draft
hold_draft args w = record {
  type = entry_hold;
  reference_type = "ENTRY";
  reference_id = some args.entry_id;
  idempotency_key = args.idempotency_key;
  metadata =
      ("userId", args.user_id)
      ∷ ("roundId", args.round_id)
      ∷ ("entryId", args.entry_id)
      ∷ ("amount", to_string args.amount)
      ∷ ("walletAccountId", w.id)
      ∷ ("holdState", "HELD")
      ∷ [];
}

unfoldable pub hold_entry_amount_in_transaction : String → EntryHoldArgs → Tx MoneyMutationResult
hold_entry_amount_in_transaction new_id args =
    unless_done args.idempotency_key
      (λ t. reuse (assert_entry_hold_transaction_matches t args) args.wallet_account_id t)
      (debit_fresh new_id args.wallet_account_id args.user_id args.amount (hold_draft args))

abbrev pub is_main_of : String → WalletAccount → Bool
is_main_of user_id w = opt_str_eq w.user_id (some user_id) && account_eq w.type main

abbrev pub new_main_wallet : String → String → WalletAccount
new_main_wallet id user_id = record {
  id = id;
  user_id = some user_id;
  type = main;
  balance = pos 0;
}

-- `walletAccount.create`: an id that is taken is refused.
unfoldable pub create_wallet : WalletAccount → Tx WalletAccount
create_wallet w = do
  taken ← gets λ db. any (has_id w.id) db.wallets
  throw_if taken unique_constraint
  modify λ db. record db { wallets = db.wallets ++ w ∷ [] }
  pure w

unfoldable pub ensure_main_wallet_for_user_id_in_transaction : String → String → Tx WalletAccount
ensure_main_wallet_for_user_id_in_transaction new_wallet_id user_id = do
  existing ← gets λ db. find (is_main_of user_id) db.wallets
  elim existing [ some w ↦ pure w | none ↦ create_wallet (new_main_wallet new_wallet_id user_id) ]

abbrev pub deposit_key : DepositCreditArgs → String
deposit_key args = elim args.idempotency_key [
  | some key ↦ key
  | none ↦ "deposit-credit:" <> args.deposit_id
]

abbrev pub deposit_draft : DepositCreditArgs → WalletAccount → Draft
deposit_draft args w = record {
  type = deposit;
  reference_type = "DEPOSIT";
  reference_id = some args.deposit_id;
  idempotency_key = deposit_key args;
  metadata =
      ("userId", args.user_id)
      ∷ ("depositId", args.deposit_id)
      ∷ ("amount", to_string args.amount)
      ∷ ("currency", args.currency)
      ∷ ("provider", args.provider)
      ∷ ("walletAccountId", w.id)
      ∷ [];
}

-- A lookup without an id is refused by the database client.
abbrev pub reuse_by_entries :
    DepositCreditArgs → LedgerTransaction → List LedgerEntry → Tx MoneyMutationResult
reuse_by_entries args t [] =
    assert_deposit_credit_transaction_matches t args >> throw (error "PrismaClientValidationError")
reuse_by_entries args t (e ∷ es) =
    reuse (assert_deposit_credit_transaction_matches t args) e.wallet_account_id t

abbrev pub reuse_deposit : DepositCreditArgs → LedgerTransaction → Tx MoneyMutationResult
reuse_deposit args t = reuse_by_entries args t t.entries

unfoldable pub deposit_fresh : String → String → DepositCreditArgs → Tx MoneyMutationResult
deposit_fresh new_wallet_id new_id args = do
  w ← ensure_main_wallet_for_user_id_in_transaction new_wallet_id args.user_id
  credit_fresh new_id w.id args.amount (deposit_draft args)

unfoldable pub credit_deposit_in_transaction :
    String → String → DepositCreditArgs → Tx MoneyMutationResult
credit_deposit_in_transaction new_wallet_id new_id args =
    unless_done (deposit_key args) (reuse_deposit args) (deposit_fresh new_wallet_id new_id args)

abbrev pub reserve_key : WithdrawalArgs → String
reserve_key args = elim args.idempotency_key [
  | some key ↦ key
  | none ↦ "withdrawal-reserve:" <> args.withdrawal_id
]

abbrev pub reserve_draft : WithdrawalArgs → WalletAccount → Draft
reserve_draft args w = record {
  type = withdrawal_request;
  reference_type = "WITHDRAWAL";
  reference_id = some args.withdrawal_id;
  idempotency_key = reserve_key args;
  metadata =
      ("userId", args.user_id)
      ∷ ("withdrawalId", args.withdrawal_id)
      ∷ ("amount", to_string args.amount)
      ∷ ("currency", args.currency)
      ∷ ("provider", args.provider)
      ∷ ("walletAccountId", w.id)
      ∷ ("reserveState", "RESERVED")
      ∷ [];
}

unfoldable pub reserve_withdrawal_in_transaction : String → WithdrawalArgs → Tx MoneyMutationResult
reserve_withdrawal_in_transaction new_id args =
    unless_done (reserve_key args)
      (λ t. reuse (assert_withdrawal_reserve_transaction_matches t args) args.wallet_account_id t)
      (debit_fresh new_id args.wallet_account_id args.user_id args.amount (reserve_draft args))

abbrev pub refund_key : WithdrawalArgs → String
refund_key args = elim args.idempotency_key [
  | some key ↦ key
  | none ↦ "withdrawal-refund:" <> args.withdrawal_id
]

abbrev pub refund_draft : WithdrawalArgs → String → WalletAccount → Draft
refund_draft args reason w = record {
  type = withdrawal_refund;
  reference_type = "WITHDRAWAL";
  reference_id = some args.withdrawal_id;
  idempotency_key = refund_key args;
  metadata =
      ("userId", args.user_id)
      ∷ ("withdrawalId", args.withdrawal_id)
      ∷ ("amount", to_string args.amount)
      ∷ ("currency", args.currency)
      ∷ ("provider", args.provider)
      ∷ ("walletAccountId", w.id)
      ∷ ("reason", reason)
      ∷ [];
}

unfoldable pub refund_withdrawal_in_transaction :
    String → WithdrawalArgs → String → Tx MoneyMutationResult
refund_withdrawal_in_transaction new_id args reason =
    unless_done (refund_key args)
      (λ t. reuse (assert_withdrawal_refund_transaction_matches t args) args.wallet_account_id t)
      (credit_fresh new_id args.wallet_account_id args.amount (refund_draft args reason))
