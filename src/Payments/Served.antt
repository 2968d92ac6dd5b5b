-- ===== src/Payments/Served.antt =====
-- Sequences of requests on withdrawals keep the money.
use kingspin.Prelude.{ℕ, ◌≡◌, refl, ⊤, false, String, List, [], ◌∷◌, Option, arith}
use kingspin.Prelude.Int.{ℤ, pos, ◌≤ℤ◌, ltb_ℤ}
use kingspin.Prelude.Lists.{All}
use kingspin.Prelude.Result.{Result}
use kingspin.Store.Tables.{processing, WalletAccount, Withdrawal, Db}
use kingspin.Store.Queries.{Draft}
use kingspin.Store.Sound.{IsSound}
use kingspin.Store.Invariant.InTx.{InTx}
use kingspin.Store.Invariant.Holds.{Holds}
use kingspin.Wallets.{credit_fresh}
use kingspin.Wallets.Sound.{credit_fresh-Keeps}
use kingspin.Wallets.Credits.{ensures_main}
use kingspin.Rounds.Kept.{pair}
use kingspin.Payments.Withdrawals.{update_withdrawal}
use kingspin.Payments.Review.{mark_paid}
use kingspin.Payments.Opening.{WithdrawalRequest, new_withdrawal}
use kingspin.Payments.Request.{WithdrawalEnv, WithdrawalIds, request_withdrawal}
use kingspin.Payments.Frame.{credits}
use kingspin.Payments.Kept.{Kept, HasAmounts, updates, refunds, creates, opens}
use kingspin.Payments.Rules.{
  IsMinor, OthersKeep, writes, approves, pays_out, marks, rejects, fails_payout, cancels, reports,
}
use kingspin.Payments.Requests.{
  PaymentRequest, request, approve, pay_out, mark, reject, give_up, cancel, report, serve,
  serve_all, requests_lem,
}

credits_kept :
    (new_id id : String) (amount : ℤ) (draft : WalletAccount → Draft)
    → pos 0 ≤ℤ amount
    → InTx Kept (credit_fresh new_id id amount draft)
credits_kept new_id id amount draft low = record {
  kept = λ db p.
      pair IsSound (λ d. HasAmounts d.withdrawals) (credit_fresh new_id id amount draft db)
        (credit_fresh-Keeps new_id id amount draft low db p.0)
        ((credits HasAmounts new_id id amount draft).kept db p.1);
}

at_least : (a b : ℤ) → pos 0 ≤ℤ b → ltb_ℤ a b ≡ false → pos 0 ≤ℤ a
at_least a b low h = ground arith

always :
    (w : Withdrawal) (f : Withdrawal → Withdrawal)
    → ⊤
    → IsMinor f
    → InTx Kept (update_withdrawal w f)
always w f r minor = updates w f minor

marks_any :
    (id admin_id : String) (reference : Option String) (others : ℕ → Db → Db)
    → OthersKeep Kept others
    → Holds Kept (mark_paid id admin_id reference others)
marks_any id admin_id reference others k =
    marks Kept (λ i. ⊤) always id admin_id reference others k tt

module _ (env : WithdrawalEnv) (lowest : pos 0 ≤ℤ env.withdrawal_min) (others : ℕ → Db → Db)
    (k : OthersKeep Kept others) where
  requests_kept :
      (destination : Result ⊤) (ids : WithdrawalIds) (user_id : String) (args : WithdrawalRequest)
      → Holds Kept (request_withdrawal env destination ids user_id args others)
  requests_kept destination ids user_id args =
      requests_lem Kept env destination ids user_id args others k
        (ensures_main Kept credits_kept creates ids.wallet_id user_id)
        (λ wallet fits.
          opens ids.transaction_id (new_withdrawal ids.withdrawal_id user_id wallet.id args)
            (at_least args.amount env.withdrawal_min lowest fits))

  serve-Kept : (q : PaymentRequest) (db : Db) → Kept db → Kept (serve env others q db)
  unfolding serve
  serve-Kept (request destination ids user_id args) db p =
      (requests_kept destination ids user_id args).kept db p
  serve-Kept (approve id admin_id) db p =
      (approves Kept (λ i. ⊤) always id admin_id others k tt).kept db p
  serve-Kept (pay_out id provider) db p =
      (pays_out Kept (λ i. ⊤) always id provider others k tt).kept db p
  serve-Kept (mark id admin_id reference) db p =
      (marks_any id admin_id reference others k).kept db p
  serve-Kept (reject new_id id admin_id reason) db p =
      (rejects Kept marks_any refunds new_id id admin_id reason).kept db p
  serve-Kept (give_up new_id id admin_id reason) db p =
      (fails_payout Kept marks_any refunds new_id id admin_id reason).kept db p
  serve-Kept (cancel new_id id user_id) db p =
      (cancels Kept marks_any refunds new_id id user_id others k).kept db p
  serve-Kept (report new_id provider v) db p =
      (reports Kept marks_any refunds new_id provider v others
          (λ e w.
            writes Kept (λ i. ⊤) always (others 0) w (λ x. record x { status = processing }) (k 0)
              tt (λ x. (refl, refl)))
          k).kept
        db p

serve_all-Kept :
    (env : WithdrawalEnv) (qs : List (PaymentRequest × (ℕ → Db → Db))) (db : Db)
    → pos 0 ≤ℤ env.withdrawal_min
    → All (λ q. OthersKeep Kept q.1) qs
    → Kept db
    → Kept (serve_all env qs db)
unfolding serve_all
serve_all-Kept env [] db low h p = p
serve_all-Kept env ((q, others) ∷ qs) db low h p =
    serve_all-Kept env qs (serve env others q db) low h.1 (serve-Kept env low others h.0 q db p)

-- Any sequence of requests on withdrawals (of players, administrators and providers' webhooks), each
-- with what others commit between its statements, leaves the money of a sound database sound and no
-- withdrawal with a negative amount, if the smallest amount of the configuration is not negative, the
-- withdrawals at the start have no negative amount, and what others commit keeps both.
pub withdrawals-IsSound :
    (env : WithdrawalEnv) (qs : List (PaymentRequest × (ℕ → Db → Db))) (db : Db)
    → pos 0 ≤ℤ env.withdrawal_min
    → All (λ q. OthersKeep Kept q.1) qs
    → IsSound db
    → HasAmounts db.withdrawals
    → IsSound (serve_all env qs db) × HasAmounts (serve_all env qs db).withdrawals
withdrawals-IsSound env qs db low h s a = serve_all-Kept env qs db low h (s, a)
