-- ===== src/Payments/Withdrawals.antt =====
-- The statements on withdrawals, and the transaction that ends one without a payout
-- (apps/api/src/modules/payments/withdrawals.service.ts).
use kingspin.Prelude.{Bool, true, ◌||◌, ℕ, ◌==◌, String, map, Option, none, some, if◌then◌else◌}
use kingspin.Prelude.Lists.{find}
use kingspin.Prelude.Text.{str_eq, is_empty}
use kingspin.Prelude.Result.{not_found, record_not_found}
use kingspin.Store.Tables.{
  WithdrawalStatus, pending_review, approved, processing, completed, paid, rejected, failed,
  cancelled, Withdrawal,
}
use kingspin.Store.Tx.{Tx, ◌>>=◌, ◌>>◌, pure, gets, modify, or_throw}
use kingspin.Wallets.Matches.{WithdrawalArgs}
use kingspin.Wallets.Money.{refund_withdrawal_in_transaction}

abbrev status_code : WithdrawalStatus → ℕ
status_code pending_review = 0
status_code approved = 1
status_code processing = 2
status_code completed = 3
status_code paid = 4
status_code rejected = 5
status_code failed = 6
status_code cancelled = 7

abbrev pub status_eq : WithdrawalStatus → WithdrawalStatus → Bool
status_eq a b = status_code a == status_code b

abbrev pub status_text : WithdrawalStatus → String
status_text pending_review = "PENDING_REVIEW"
status_text approved = "APPROVED"
status_text processing = "PROCESSING"
status_text completed = "COMPLETED"
status_text paid = "PAID"
status_text rejected = "REJECTED"
status_text failed = "FAILED"
status_text cancelled = "CANCELLED"

pub record WithdrawalResult : Type 0 where
  pub withdrawal : Withdrawal
  pub reused : Bool

abbrev pub has_withdrawal_id : String → Withdrawal → Bool
has_withdrawal_id id w = str_eq w.id id

abbrev pub set_withdrawal : String → (Withdrawal → Withdrawal) → Withdrawal → Withdrawal
set_withdrawal id f w = if has_withdrawal_id id w then f w else w

unfoldable pub find_withdrawal_or_throw : String → Tx Withdrawal
find_withdrawal_or_throw id = do
  found ← gets λ db. find (has_withdrawal_id id) db.withdrawals
  or_throw found (not_found "Withdrawal not found.")

-- `withdrawal.update` of a row that was read, by the columns that it sets.
unfoldable pub update_withdrawal : Withdrawal → (Withdrawal → Withdrawal) → Tx Withdrawal
update_withdrawal w f = do
  found ← gets λ db. find (has_withdrawal_id w.id) db.withdrawals
  old ← or_throw found record_not_found
  modify λ db. record db { withdrawals = map (set_withdrawal w.id f) db.withdrawals }
  pure (f old)

abbrev pub answer : Bool → Withdrawal → Tx WithdrawalResult
answer reused w = pure (record { withdrawal = w; reused = reused })

-- `reviewedByAdminId ?? id`
abbrev pub or_else : Option String → Option String → Option String
or_else (some a) b = some a
or_else none b = b

abbrev pub is_closed : WithdrawalStatus → Bool
is_closed s = status_eq s paid || status_eq s cancelled || status_eq s rejected

abbrev pub money_of : Withdrawal → WithdrawalArgs
money_of w = record {
  user_id = w.user_id;
  withdrawal_id = w.id;
  wallet_account_id = w.wallet_account_id;
  amount = w.amount;
  currency = w.currency;
  provider = w.provider;
  idempotency_key = none;
}

pub record Transition : Type 0 where
  pub status : WithdrawalStatus
  pub reason : String
  pub reviewer_is_user : Bool

-- `actorId || null`
abbrev pub actor_or_null : String → Option String
actor_or_null actor_id = if is_empty actor_id then none else some actor_id

abbrev pub closed_by : Transition → String → Withdrawal → Withdrawal
closed_by args actor_id w = record w {
  status = args.status;
  rejection_reason = some args.reason;
  reviewed_by_admin_id =
      if args.reviewer_is_user
      then w.reviewed_by_admin_id
      else or_else w.reviewed_by_admin_id (actor_or_null actor_id);
}

unfoldable pub refund_and_transition : String → String → String → Transition → Tx WithdrawalResult
refund_and_transition new_id id actor_id args = do
  w ← find_withdrawal_or_throw id
  if is_closed w.status
      then answer true w
      else (update_withdrawal w (closed_by args actor_id) >>= λ updated.
          refund_withdrawal_in_transaction new_id (money_of updated) args.reason >>= λ refund.
          answer refund.reused updated)
