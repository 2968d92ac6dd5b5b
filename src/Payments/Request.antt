-- ===== src/Payments/Request.antt =====
-- The request of a withdrawal (apps/api/src/modules/payments/withdrawals.service.ts). What the check of
-- the destination gives is an argument; `others i` is what other requests commit at the i-th point
-- between two statements.
use kingspin.Prelude.{ℕ, ⊤, true, ◌||◌, String, none, some}
use kingspin.Prelude.Int.{ℤ, ltb_ℤ}
use kingspin.Prelude.Lists.{find}
use kingspin.Prelude.Text.{str_eq, ◌<>◌, to_string}
use kingspin.Prelude.Result.{Result, bad_request}
use kingspin.Store.Tables.{Db}
use kingspin.Store.Tx as Tx
use kingspin.Store.Tx.{commit}
use kingspin.Store.Service.{Service, ◌>>=◌, ◌>>◌, fail_if, lift, meanwhile}
use kingspin.Wallets.Wins.{ensure_main_wallet_for_user_id}
use kingspin.Payments.Withdrawals.{WithdrawalResult, answer}
use kingspin.Payments.Opening.{
  WithdrawalRequest, assert_withdrawal_matches, new_withdrawal, open_withdrawal,
}

abbrev pub range_text : ℤ → ℤ → String
range_text low high =
    "Withdrawal amount must be between " <> to_string low <> " and " <> to_string high <> " ETB."

-- What the configuration gives: WITHDRAWAL_MIN_ETB and WITHDRAWAL_MAX_ETB.
pub record WithdrawalEnv : Type 0 where
  pub withdrawal_min : ℤ
  pub withdrawal_max : ℤ

-- The ids of the rows that a request may create.
pub record WithdrawalIds : Type 0 where
  pub wallet_id : String
  pub withdrawal_id : String
  pub transaction_id : String

-- A request with a new key: the wallet of the user, and the transaction.
abbrev pub request_new :
    WithdrawalIds → String → WithdrawalRequest → (ℕ → Db → Db) → Service WithdrawalResult
request_new ids user_id args others = do
  meanwhile (others 0)
  wallet ← ensure_main_wallet_for_user_id ids.wallet_id user_id
  meanwhile (others 1)
  commit
      (open_withdrawal ids.transaction_id (new_withdrawal ids.withdrawal_id user_id wallet.id args))

-- A request of an amount within the bounds.
abbrev pub request_fitting :
    Result ⊤ → WithdrawalIds → String → WithdrawalRequest → (ℕ → Db → Db) → Service WithdrawalResult
request_fitting destination ids user_id args others = do
  lift destination
  existing ←
      commit
        (Tx.gets λ db. find (λ w. str_eq w.idempotency_key args.idempotency_key) db.withdrawals)
  elim existing [
    | some w ↦ commit (Tx.◌>>◌ (assert_withdrawal_matches w user_id args) (answer true w))
    | none ↦ request_new ids user_id args others
  ]

unfoldable pub request_withdrawal :
    WithdrawalEnv
    → Result ⊤
    → WithdrawalIds
    → String
    → WithdrawalRequest
    → (ℕ → Db → Db)
    → Service WithdrawalResult
unfolding ensure_main_wallet_for_user_id open_withdrawal
request_withdrawal env destination ids user_id args others =
    fail_if (ltb_ℤ args.amount env.withdrawal_min || ltb_ℤ env.withdrawal_max args.amount)
      (bad_request (range_text env.withdrawal_min env.withdrawal_max))
    >> request_fitting destination ids user_id args others
