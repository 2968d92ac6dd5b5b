-- ===== src/Payments/Tests.antt =====
-- Withdrawals on a small database.
use kingspin.Prelude.{ℕ, ◌≡◌, refl, true, false, List, [], ◌∷◌, ◌++◌, map, some, none, arith}
use kingspin.Prelude.Int.{pos, ◌+ℤ◌}
use kingspin.Prelude.Lists.{find}
use kingspin.Prelude.Result.{ok}
use kingspin.Store.Tables.{
  main, approved, paid, withdrawal_refund, WalletAccount, LedgerTransaction, Withdrawal, Db,
}
use kingspin.Store.Sound.{IsSound}
use kingspin.Store.Queries.{adjust, find_transaction, increment_balance, post_credit}
use kingspin.Wallets.Money.{refund_withdrawal_in_transaction}
use kingspin.Payments.Withdrawals.{
  has_withdrawal_id, refund_and_transition, update_withdrawal, find_withdrawal_or_throw,
}
use kingspin.Payments.Review.{mark_failed}
use kingspin.Payments.Request.{WithdrawalEnv}
use kingspin.Payments.Webhook.{Verified, in_progress, handle_withdrawal_webhook}
use kingspin.Payments.Requests.{
  PaymentRequest, approve, pay_out, mark, reject, give_up, cancel, report, serve_all,
}
use kingspin.Payments.Final.{closed-final}
use kingspin.Payments.Late.{mark_while_cancelled, paid-cancelled}
use kingspin.Payments.Kept.{HasAmounts}
use kingspin.Payments.Served.{withdrawals-IsSound}

abbrev closed : Withdrawal
closed = record {
  id = "x1";
  user_id = "u1";
  wallet_account_id = "w1";
  provider = "MOCK";
  provider_reference = some "ref1";
  amount = pos 250;
  currency = "ETB";
  status = paid;
  reviewed_by_admin_id = some "a1";
  rejection_reason = none;
  idempotency_key = "k1";
}

abbrev db : Db
db = record {
  wallets = [];
  ledger = [];
  withdrawals = closed ∷ [];
  users = [];
  categories = [];
  rooms = [];
  rounds = [];
  round_entries = [];
}

abbrev env : WithdrawalEnv
env = record { withdrawal_min = pos 50; withdrawal_max = pos 5000 }

abbrev alone : ℕ → Db → Db
alone i d = d

-- An administrator who approves the withdrawal while others work on it.
abbrev approving : List (PaymentRequest × (ℕ → Db → Db))
approving = (approve "x1" "a2", alone) ∷ []

abbrev late_requests : List (PaymentRequest × (ℕ → Db → Db))
late_requests =
    (cancel "t1" "x1" "u1", λ i d. serve_all env approving d)
    ∷ (pay_out "x1" (ok (record { is_paid = true; provider_reference = "ref2" })), alone)
    ∷ (reject "t2" "x1" "a1" "late", alone)
    ∷ []

closed-final_example :
    find (has_withdrawal_id "x1") (serve_all env late_requests db).withdrawals ≡ some closed
closed-final_example =
    closed-final "x1" closed env late_requests db refl
      (
        (λ i d p. closed-final "x1" closed env approving d refl ((λ j e r. r, refl), tt) p, refl),
        ((λ i d p. p, refl), ((λ i d p. p, refl), tt)),
      )
      refl

abbrev approved_one : Withdrawal
approved_one = record closed { status = approved; provider_reference = none }

abbrev wallet : WalletAccount
wallet = record { id = "w1"; user_id = some "u1"; type = main; balance = pos 0 }

abbrev open_db : Db
open_db = record {
  wallets = wallet ∷ [];
  ledger = [];
  withdrawals = approved_one ∷ [];
  users = [];
  categories = [];
  rooms = [];
  rounds = [];
  round_entries = [];
}

open_db-IsSound : IsSound open_db
open_db-IsSound = record {
  balanced = (refl, tt);
  solvent = (omega arith, tt);
  known = tt;
  amounts = tt;
  unique_keys = tt;
  unique_ids = (refl, tt);
}

abbrev report_of : Verified
report_of = record {
  valid = true;
  provider_reference = some "ref1";
  status = in_progress;
  reason = none;
}

abbrev cancelling : List (PaymentRequest × (ℕ → Db → Db))
cancelling = (cancel "t1" "x1" "u1", alone) ∷ []

abbrev paid_db_of : Db
paid_db_of = record open_db { withdrawals = closed ∷ [] }

-- A report of a payout in progress opens a withdrawal that was paid, and an administrator who marks it
-- as failed then pays its amount back.
abbrev reopened : List (PaymentRequest × (ℕ → Db → Db))
reopened = (report "t3" "MOCK" report_of, alone) ∷ (give_up "t4" "x1" "a1" "no", alone) ∷ []

reopened_pays : map (λ w. w.balance) (serve_all env reopened paid_db_of).wallets ≡ pos 250 ∷ []
unfolding serve_all handle_withdrawal_webhook mark_failed update_withdrawal refund_and_transition
    find_withdrawal_or_throw refund_withdrawal_in_transaction find_transaction increment_balance
    post_credit ◌+ℤ◌
reopened_pays = refl

abbrev busy_requests : List (PaymentRequest × (ℕ → Db → Db))
busy_requests =
    (mark "x1" "a1" none, λ i d. serve_all env cancelling d)
    ∷ (report "t3" "MOCK" report_of, alone)
    ∷ []

withdrawals-IsSound_example :
    IsSound (serve_all env busy_requests open_db)
    × HasAmounts (serve_all env busy_requests open_db).withdrawals
withdrawals-IsSound_example =
    withdrawals-IsSound env busy_requests open_db (omega arith)
      (
        λ i d p. withdrawals-IsSound env cancelling d (omega arith) ((λ j e r. r), tt) p.0 p.1,
        ((λ i d p. p), tt),
      )
      open_db-IsSound (omega arith, tt)

paid-cancelled_example :
    (a : Withdrawal) × (row : LedgerTransaction) × (next : Db) × (mark_while_cancelled "t1" "u1"
        "a1" none approved_one open_db
      ≡ (ok (record { withdrawal = a; reused = false }), next))
    × (a.status ≡ paid)
    × (find (has_withdrawal_id "x1") next.withdrawals ≡ some a)
    × (next.wallets ≡ map (adjust (λ b. b +ℤ pos 250) "w1") open_db.wallets)
    × (next.ledger ≡ open_db.ledger ++ row ∷ [])
    × (row.type ≡ withdrawal_refund)
    × (row.idempotency_key ≡ "withdrawal-refund:x1")
paid-cancelled_example =
    paid-cancelled "t1" "u1" "a1" none approved_one wallet open_db refl refl refl refl refl
