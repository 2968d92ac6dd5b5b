-- ===== src/Payments/Requests.antt =====
-- The requests on withdrawals, from players, from administrators and from providers.
use kingspin.Prelude.{ℕ, ◌≡◌, refl, ⊤, Bool, true, false, ◌||◌, String, List, [], ◌∷◌, Option}
use kingspin.Prelude.Int.{ltb_ℤ}
use kingspin.Prelude.Lists.{find}
use kingspin.Prelude.Text.{str_eq}
use kingspin.Prelude.Result.{Error, Result, bad_request}
use kingspin.Store.Tables.{WalletAccount, Withdrawal, Db}
use kingspin.Store.Service as Service
use kingspin.Store.Service.{Service}
use kingspin.Store.Invariant.InTx as InTx
use kingspin.Store.Invariant.InTx.{InTx}
use kingspin.Store.Invariant.Holds.{Holds, ◌>>=◌, ◌>>◌, commits, lifts, others_keep, cases_option}
use kingspin.Wallets.Wins.{ensure_main_wallet_for_user_id}
use kingspin.Payments.Withdrawals.{WithdrawalResult}
use kingspin.Payments.Opening.{
  WithdrawalRequest, assert_withdrawal_matches, new_withdrawal, open_withdrawal,
}
use kingspin.Payments.Request.{
  WithdrawalEnv, WithdrawalIds, range_text, request_fitting, request_withdrawal,
}
use kingspin.Payments.Review.{
  Payout, approve_withdrawal, create_payout, mark_paid, reject_withdrawal, mark_failed,
}
use kingspin.Payments.Webhook.{Verified, cancel_withdrawal, handle_withdrawal_webhook}
use kingspin.Payments.Rules.{OthersKeep}

-- A request, with the ids of the rows that it may make and with what the payment provider answers.
pub data PaymentRequest : Type 0 where
  request : Result ⊤ → WithdrawalIds → String → WithdrawalRequest → PaymentRequest
  approve : String → String → PaymentRequest
  pay_out : String → Result Payout → PaymentRequest
  mark : String → String → Option String → PaymentRequest
  reject give_up : String → String → String → String → PaymentRequest
  cancel : String → String → String → PaymentRequest
  report : String → String → Verified → PaymentRequest

-- What a request leaves of the database, while other requests commit between its statements.
unfoldable pub serve : WithdrawalEnv → (ℕ → Db → Db) → PaymentRequest → Db → Db
serve env others (request destination ids user_id args) db =
    (request_withdrawal env destination ids user_id args others db).1
serve env others (approve id admin_id) db = (approve_withdrawal id admin_id others db).1
serve env others (pay_out id provider) db = (create_payout id provider others db).1
serve env others (mark id admin_id reference) db = (mark_paid id admin_id reference others db).1
serve env others (reject new_id id admin_id reason) db =
    (reject_withdrawal new_id id admin_id reason db).1
serve env others (give_up new_id id admin_id reason) db =
    (mark_failed new_id id admin_id reason db).1
serve env others (cancel new_id id user_id) db = (cancel_withdrawal new_id id user_id others db).1
serve env others (report new_id provider v) db =
    (handle_withdrawal_webhook new_id provider v others db).1

-- Requests one after the other, each with what is committed between its statements.
unfoldable pub serve_all : WithdrawalEnv → List (PaymentRequest × (ℕ → Db → Db)) → Db → Db
unfolding serve
serve_all env [] db = db
serve_all env ((q, others) ∷ qs) db = serve_all env qs (serve env others q db)

pub requests_lem :
    (P : Db → Type 0) (env : WithdrawalEnv) (destination : Result ⊤) (ids : WithdrawalIds)
    (user_id : String) (args : WithdrawalRequest) (others : ℕ → Db → Db)
    → OthersKeep P others
    → Holds P (ensure_main_wallet_for_user_id ids.wallet_id user_id)
    → ((wallet : WalletAccount)
        → ltb_ℤ args.amount env.withdrawal_min ≡ false
        → InTx P (
            open_withdrawal ids.transaction_id
              (new_withdrawal ids.withdrawal_id user_id wallet.id args)))
    → Holds P (request_withdrawal env destination ids user_id args others)
unfolding request_withdrawal
requests_lem P env destination ids user_id args others k ensures opens =
    guarded (ltb_ℤ args.amount env.withdrawal_min || ltb_ℤ env.withdrawal_max args.amount)
      (bad_request (range_text env.withdrawal_min env.withdrawal_max))
      (request_fitting destination ids user_id args others)
      (λ fits.
        lifts destination
        >> (commits (
              InTx.reads (λ db.
                find (λ (w : Withdrawal). str_eq w.idempotency_key args.idempotency_key)
                  db.withdrawals))
            >>= λ existing.
                cases_option existing
                  (others_keep (others 0) (k 0)
                    >> (ensures >>= λ wallet.
                        others_keep (others 1) (k 1) >> commits (opens wallet (first _ _ fits))))
                  (λ w. commits (
                    InTx.◌>>◌ (asserts w)
                      (InTx.pures (record { withdrawal = w; reused = true }))))))
  where
    asserts : (w : Withdrawal) → InTx P (assert_withdrawal_matches w user_id args)
    asserts w = InTx.throws_if _ _

    first : (a b : Bool) → (a || b) ≡ false → a ≡ false
    first true b h = cc
    first false b h = refl

    guarded :
        (b : Bool) (e : Error) (m : Service WithdrawalResult)
        → (b ≡ false → Holds P m)
        → Holds P (Service.◌>>◌ (Service.fail_if b e) m)
    guarded true e m h = record { kept = λ db p. p }
    guarded false e m h = record { kept = λ db p. (h refl).kept db p }
