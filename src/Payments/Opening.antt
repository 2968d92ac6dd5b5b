-- ===== src/Payments/Opening.antt =====
-- The transaction that opens a withdrawal (apps/api/src/modules/payments/withdrawals.service.ts).
use kingspin.Prelude.{⊤, false, not, ◌||◌, String, [], ◌∷◌, ◌++◌, none}
use kingspin.Prelude.Int.{ℤ, ◌==ℤ◌}
use kingspin.Prelude.Lists.{any}
use kingspin.Prelude.Text.{str_eq}
use kingspin.Prelude.Result.{bad_request, unique_constraint}
use kingspin.Store.Tables.{pending_review, Withdrawal}
use kingspin.Store.Tx.{Tx, ◌>>=◌, ◌>>◌, pure, throw_if, gets, modify}
use kingspin.Wallets.Money.{reserve_withdrawal_in_transaction}
use kingspin.Payments.Withdrawals.{WithdrawalResult, has_withdrawal_id, answer, money_of}

pub record WithdrawalRequest : Type 0 where
  pub provider : String
  pub amount : ℤ
  pub currency : String
  pub idempotency_key : String

abbrev pub assert_withdrawal_matches : Withdrawal → String → WithdrawalRequest → Tx ⊤
assert_withdrawal_matches w user_id args =
    throw_if
      (not (str_eq w.user_id user_id)
        || not (str_eq w.provider args.provider)
        || not (w.amount ==ℤ args.amount)
        || not (str_eq w.currency args.currency))
      (bad_request "Idempotency key was already used for a different withdrawal request.")

abbrev pub new_withdrawal : String → String → String → WithdrawalRequest → Withdrawal
new_withdrawal id user_id wallet_id args = record {
  id = id;
  user_id = user_id;
  wallet_account_id = wallet_id;
  provider = args.provider;
  provider_reference = none;
  amount = args.amount;
  currency = args.currency;
  status = pending_review;
  reviewed_by_admin_id = none;
  rejection_reason = none;
  idempotency_key = args.idempotency_key;
}

-- `withdrawal.create`: the id and the idempotency key are unique.
unfoldable pub create_withdrawal : Withdrawal → Tx Withdrawal
create_withdrawal w = do
  taken ← gets λ db.
      any (λ x. has_withdrawal_id w.id x || str_eq x.idempotency_key w.idempotency_key)
        db.withdrawals
  throw_if taken unique_constraint
  modify λ db. record db { withdrawals = db.withdrawals ++ w ∷ [] }
  pure w

-- The transaction of a request: the row, and the reserve of its amount.
unfoldable pub open_withdrawal : String → Withdrawal → Tx WithdrawalResult
open_withdrawal new_id row = do
  w ← create_withdrawal row
  reserve_withdrawal_in_transaction new_id (money_of w) >>= λ reserve. answer false w
