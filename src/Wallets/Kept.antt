-- ===== src/Wallets/Kept.antt =====
-- The ledger stays in balance through the operations of the wallets service.
use kingspin.Prelude.{String, List, [], ◌∷◌}
use kingspin.Prelude.Int.{pos, ◌≤ℤ◌}
use kingspin.Prelude.Result.{error}
use kingspin.Store.Tables.{LedgerEntry, LedgerTransaction, Db}
use kingspin.Store.Tx.{throw, commit}
use kingspin.Store.Sound.{IsSound}
use kingspin.Store.Sound.Rules.{Quiet-Keeps, Keeps, Keeps-bind, commit-IsSound}
use kingspin.Wallets.{debit_fresh, credit_fresh, reuse}
use kingspin.Wallets.Matches.{
  EntryHoldArgs, DepositCreditArgs, WithdrawalArgs, assert_entry_hold_transaction_matches,
  assert_deposit_credit_transaction_matches, assert_withdrawal_reserve_transaction_matches,
  assert_withdrawal_refund_transaction_matches,
}
use kingspin.Wallets.Money.{
  hold_entry_amount_in_transaction, hold_draft, ensure_main_wallet_for_user_id_in_transaction,
  credit_deposit_in_transaction, deposit_draft, deposit_key, deposit_fresh, reuse_deposit,
  reuse_by_entries, reserve_withdrawal_in_transaction, reserve_draft, reserve_key,
  refund_withdrawal_in_transaction, refund_draft, refund_key,
}
use kingspin.Wallets.Once.{Quiet-hold, Quiet-reserve, Quiet-refund}
use kingspin.Wallets.DepositOnce.{Quiet-deposit}
use kingspin.Wallets.NewWallet.{Keeps-ensure}
use kingspin.Wallets.Sound.{debit_fresh-Keeps, credit_fresh-Keeps, Keeps-unless_done, Keeps-reuse}

pub Keeps-hold :
    (new_id : String) (args : EntryHoldArgs)
    → pos 0 ≤ℤ args.amount
    → Keeps (hold_entry_amount_in_transaction new_id args)
unfolding hold_entry_amount_in_transaction
Keeps-hold new_id args h =
    Keeps-unless_done args.idempotency_key
      (λ t. reuse (assert_entry_hold_transaction_matches t args) args.wallet_account_id t)
      (debit_fresh new_id args.wallet_account_id args.user_id args.amount (hold_draft args))
      (λ t.
        Keeps-reuse (assert_entry_hold_transaction_matches t args) args.wallet_account_id t
          (Quiet-Keeps (assert_entry_hold_transaction_matches t args) (Quiet-hold t args)))
      (debit_fresh-Keeps new_id args.wallet_account_id args.user_id args.amount (hold_draft args) h)

pub Keeps-reserve :
    (new_id : String) (args : WithdrawalArgs)
    → pos 0 ≤ℤ args.amount
    → Keeps (reserve_withdrawal_in_transaction new_id args)
unfolding reserve_withdrawal_in_transaction
Keeps-reserve new_id args h =
    Keeps-unless_done (reserve_key args)
      (λ t. reuse (assert_withdrawal_reserve_transaction_matches t args) args.wallet_account_id t)
      (debit_fresh new_id args.wallet_account_id args.user_id args.amount (reserve_draft args))
      (λ t.
        Keeps-reuse (assert_withdrawal_reserve_transaction_matches t args) args.wallet_account_id t
          (Quiet-Keeps (assert_withdrawal_reserve_transaction_matches t args)
            (Quiet-reserve t args)))
      (debit_fresh-Keeps new_id args.wallet_account_id args.user_id args.amount (reserve_draft args)
        h)

pub Keeps-refund :
    (new_id reason : String) (args : WithdrawalArgs)
    → pos 0 ≤ℤ args.amount
    → Keeps (refund_withdrawal_in_transaction new_id args reason)
unfolding refund_withdrawal_in_transaction
Keeps-refund new_id reason args h =
    Keeps-unless_done (refund_key args)
      (λ t. reuse (assert_withdrawal_refund_transaction_matches t args) args.wallet_account_id t)
      (credit_fresh new_id args.wallet_account_id args.amount (refund_draft args reason))
      (λ t.
        Keeps-reuse (assert_withdrawal_refund_transaction_matches t args) args.wallet_account_id t
          (Quiet-Keeps (assert_withdrawal_refund_transaction_matches t args) (Quiet-refund t args)))
      (credit_fresh-Keeps new_id args.wallet_account_id args.amount (refund_draft args reason) h)

Keeps-reuse_deposit :
    (args : DepositCreditArgs) (t : LedgerTransaction) (es : List LedgerEntry)
    → Keeps (reuse_by_entries args t es)
Keeps-reuse_deposit args t [] =
    Keeps-bind (assert_deposit_credit_transaction_matches t args)
      (λ u. throw (error "PrismaClientValidationError"))
      (Quiet-Keeps (assert_deposit_credit_transaction_matches t args) (Quiet-deposit t args))
      (λ u db s. tt)
Keeps-reuse_deposit args t (e ∷ es) =
    Keeps-reuse (assert_deposit_credit_transaction_matches t args) e.wallet_account_id t
      (Quiet-Keeps (assert_deposit_credit_transaction_matches t args) (Quiet-deposit t args))

pub Keeps-deposit :
    (wallet_id new_id : String) (args : DepositCreditArgs)
    → pos 0 ≤ℤ args.amount
    → Keeps (credit_deposit_in_transaction wallet_id new_id args)
unfolding credit_deposit_in_transaction deposit_fresh
Keeps-deposit wallet_id new_id args h =
    Keeps-unless_done (deposit_key args) (reuse_deposit args) (deposit_fresh wallet_id new_id args)
      (λ t. Keeps-reuse_deposit args t t.entries)
      (Keeps-bind (ensure_main_wallet_for_user_id_in_transaction wallet_id args.user_id)
        (λ w. credit_fresh new_id w.id args.amount (deposit_draft args))
        (Keeps-ensure wallet_id args.user_id)
        (λ w. credit_fresh-Keeps new_id w.id args.amount (deposit_draft args) h))

-- An entry hold of an amount that is not negative, whether it is committed or rolled back, leaves a
-- sound database sound.
pub hold-IsSound :
    (new_id : String) (args : EntryHoldArgs) (db : Db)
    → pos 0 ≤ℤ args.amount
    → IsSound db
    → IsSound (commit (hold_entry_amount_in_transaction new_id args) db).1
hold-IsSound new_id args db h s =
    commit-IsSound (hold_entry_amount_in_transaction new_id args) db (Keeps-hold new_id args h) s

-- The credit of a deposit of an amount that is not negative leaves a sound database sound, the
-- wallet that it may create included.
pub deposit-IsSound :
    (wallet_id new_id : String) (args : DepositCreditArgs) (db : Db)
    → pos 0 ≤ℤ args.amount
    → IsSound db
    → IsSound (commit (credit_deposit_in_transaction wallet_id new_id args) db).1
deposit-IsSound wallet_id new_id args db h s =
    commit-IsSound (credit_deposit_in_transaction wallet_id new_id args) db
      (Keeps-deposit wallet_id new_id args h) s

-- The reserve of a withdrawal of an amount that is not negative leaves a sound database sound.
pub reserve-IsSound :
    (new_id : String) (args : WithdrawalArgs) (db : Db)
    → pos 0 ≤ℤ args.amount
    → IsSound db
    → IsSound (commit (reserve_withdrawal_in_transaction new_id args) db).1
reserve-IsSound new_id args db h s =
    commit-IsSound (reserve_withdrawal_in_transaction new_id args) db (Keeps-reserve new_id args h)
      s

-- The refund of a withdrawal of an amount that is not negative leaves a sound database sound.
pub refund-IsSound :
    (new_id reason : String) (args : WithdrawalArgs) (db : Db)
    → pos 0 ≤ℤ args.amount
    → IsSound db
    → IsSound (commit (refund_withdrawal_in_transaction new_id args reason) db).1
refund-IsSound new_id reason args db h s =
    commit-IsSound (refund_withdrawal_in_transaction new_id args reason) db
      (Keeps-refund new_id reason args h) s
