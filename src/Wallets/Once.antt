-- ===== src/Wallets/Once.antt =====
-- The idempotency of the operations of the wallets service.
use kingspin.Prelude.{◌≡◌, refl, Bool, true, false, String, [], ◌∷◌, arith}
use kingspin.Prelude.Text.{str_eq_self, to_string}
use kingspin.Prelude.Result.{Error, ok}
use kingspin.Store.Tables.{credit, debit, WalletAccount, LedgerTransaction, Db}
use kingspin.Store.Tx.{throw_if}
use kingspin.Store.Queries.{to_transaction, entry_of}
use kingspin.Store.Sound.{IsSound}
use kingspin.Store.Sound.Rules.{Quiet}
use kingspin.Wallets.{MoneyMutationResult, reused_result, reuse, debit_fresh, credit_fresh}
use kingspin.Wallets.Matches.{
  EntryHoldArgs, WithdrawalArgs, assert_entry_hold_transaction_matches,
  assert_withdrawal_reserve_transaction_matches, assert_withdrawal_refund_transaction_matches,
}
use kingspin.Wallets.Money.{
  hold_entry_amount_in_transaction, hold_draft, reserve_withdrawal_in_transaction, reserve_draft,
  reserve_key, refund_withdrawal_in_transaction, refund_draft, refund_key,
}
use kingspin.Wallets.Replay.{replay, reuse-Quiet, debit_again, credit_again}

pub Quiet-throw_if : (b : Bool) (e : Error) → Quiet (throw_if b e)
Quiet-throw_if true e db a next h = cc
Quiet-throw_if false e db a next h = cc

pub Quiet-hold :
    (t : LedgerTransaction) (args : EntryHoldArgs)
    → Quiet (assert_entry_hold_transaction_matches t args)
unfolding assert_entry_hold_transaction_matches
Quiet-hold t args db a next h = ground arith

pub Quiet-reserve :
    (t : LedgerTransaction) (args : WithdrawalArgs)
    → Quiet (assert_withdrawal_reserve_transaction_matches t args)
unfolding assert_withdrawal_reserve_transaction_matches
Quiet-reserve t args db a next h = ground arith

pub Quiet-refund :
    (t : LedgerTransaction) (args : WithdrawalArgs)
    → Quiet (assert_withdrawal_refund_transaction_matches t args)
unfolding assert_withdrawal_refund_transaction_matches
Quiet-refund t args db a next h = ground arith

own_hold :
    (new_id : String) (args : EntryHoldArgs) (w : WalletAccount) (d : Db)
    → w.id ≡ args.wallet_account_id
    → assert_entry_hold_transaction_matches
        (to_transaction new_id (hold_draft args w) (entry_of debit args.amount w ∷ []))
        args
        d
      ≡ ok (tt, d)
unfolding assert_entry_hold_transaction_matches
own_hold new_id args w d same =
    rw
      (
        same,
        str_eq_self args.round_id,
        str_eq_self args.user_id,
        str_eq_self args.wallet_account_id,
        str_eq_self (to_string args.amount),
      )
      refl

own_reserve :
    (new_id : String) (args : WithdrawalArgs) (w : WalletAccount) (d : Db)
    → w.id ≡ args.wallet_account_id
    → assert_withdrawal_reserve_transaction_matches
        (to_transaction new_id (reserve_draft args w) (entry_of debit args.amount w ∷ []))
        args
        d
      ≡ ok (tt, d)
unfolding assert_withdrawal_reserve_transaction_matches
own_reserve new_id args w d same =
    rw
      (
        same,
        str_eq_self args.withdrawal_id,
        str_eq_self args.user_id,
        str_eq_self args.wallet_account_id,
        str_eq_self (to_string args.amount),
        str_eq_self args.currency,
        str_eq_self args.provider,
      )
      refl

own_refund :
    (new_id reason : String) (args : WithdrawalArgs) (w : WalletAccount) (d : Db)
    → w.id ≡ args.wallet_account_id
    → assert_withdrawal_refund_transaction_matches
        (to_transaction new_id (refund_draft args reason w) (entry_of credit args.amount w ∷ []))
        args
        d
      ≡ ok (tt, d)
unfolding assert_withdrawal_refund_transaction_matches
own_refund new_id reason args w d same =
    rw
      (
        same,
        str_eq_self args.withdrawal_id,
        str_eq_self args.user_id,
        str_eq_self args.wallet_account_id,
        str_eq_self (to_string args.amount),
        str_eq_self args.currency,
        str_eq_self args.provider,
      )
      refl

-- On a sound database, an entry hold that went through is not taken twice: the same request again,
-- under any new row id, changes nothing and answers with the first row, marked as reused.
pub hold-replay :
    (new_id other_id : String) (args : EntryHoldArgs) (db : Db) {r : MoneyMutationResult}
    {next : Db}
    → IsSound db
    → hold_entry_amount_in_transaction new_id args db ≡ ok (r, next)
    → hold_entry_amount_in_transaction other_id args next
      ≡ ok (reused_result r.transaction r.wallet, next)
unfolding hold_entry_amount_in_transaction
hold-replay new_id other_id args db {r} {next} s e =
    let fresh = λ (id : String).
      debit_fresh id args.wallet_account_id args.user_id args.amount (hold_draft args) in
    let assertion = λ (t : LedgerTransaction). assert_entry_hold_transaction_matches t args in
    replay args.idempotency_key (λ t. reuse (assertion t) args.wallet_account_id t) (fresh new_id)
      (fresh other_id) db
      (λ t h. reuse-Quiet (assertion t) args.wallet_account_id t db (Quiet-hold t args) h)
      (λ missing h.
        debit_again new_id args.wallet_account_id args.user_id args.amount (hold_draft args)
          assertion args.idempotency_key db s.unique_ids (λ w. refl) (own_hold new_id args) missing
          h)
      e

-- On a sound database, the reserve of a withdrawal that went through is not taken twice: the same
-- request again, under any new row id, changes nothing and answers with the first row, marked as
-- reused.
pub reserve-replay :
    (new_id other_id : String) (args : WithdrawalArgs) (db : Db) {r : MoneyMutationResult}
    {next : Db}
    → IsSound db
    → reserve_withdrawal_in_transaction new_id args db ≡ ok (r, next)
    → reserve_withdrawal_in_transaction other_id args next
      ≡ ok (reused_result r.transaction r.wallet, next)
unfolding reserve_withdrawal_in_transaction
reserve-replay new_id other_id args db {r} {next} s e =
    let fresh = λ (id : String).
      debit_fresh id args.wallet_account_id args.user_id args.amount (reserve_draft args) in
    let assertion =
      λ (t : LedgerTransaction). assert_withdrawal_reserve_transaction_matches t args in
    replay (reserve_key args) (λ t. reuse (assertion t) args.wallet_account_id t) (fresh new_id)
      (fresh other_id) db
      (λ t h. reuse-Quiet (assertion t) args.wallet_account_id t db (Quiet-reserve t args) h)
      (λ missing h.
        debit_again new_id args.wallet_account_id args.user_id args.amount (reserve_draft args)
          assertion (reserve_key args) db s.unique_ids (λ w. refl) (own_reserve new_id args) missing
          h)
      e

-- The refund of a withdrawal that went through is not paid twice: the same request again, under any
-- new row id and with any reason, changes nothing and answers with the first row, marked as reused.
pub refund-replay :
    (new_id other_id reason other_reason : String) (args : WithdrawalArgs) (db : Db)
    {r : MoneyMutationResult} {next : Db}
    → refund_withdrawal_in_transaction new_id args reason db ≡ ok (r, next)
    → refund_withdrawal_in_transaction other_id args other_reason next
      ≡ ok (reused_result r.transaction r.wallet, next)
unfolding refund_withdrawal_in_transaction
refund-replay new_id other_id reason other_reason args db {r} {next} e =
    let fresh = λ (id why : String).
      credit_fresh id args.wallet_account_id args.amount (refund_draft args why) in
    let assertion =
      λ (t : LedgerTransaction). assert_withdrawal_refund_transaction_matches t args in
    replay (refund_key args) (λ t. reuse (assertion t) args.wallet_account_id t)
      (fresh new_id reason) (fresh other_id other_reason) db
      (λ t h. reuse-Quiet (assertion t) args.wallet_account_id t db (Quiet-refund t args) h)
      (λ missing h.
        credit_again new_id args.wallet_account_id args.amount (refund_draft args reason) assertion
          (refund_key args) db (λ w. refl) (own_refund new_id reason args) missing h)
      e
