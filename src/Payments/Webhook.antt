-- ===== src/Payments/Webhook.antt =====
-- The ends of a withdrawal that its user and its provider bring about
-- (apps/api/src/modules/payments/withdrawals.service.ts). `others i` is what other requests commit at
-- the i-th point between two statements.
use kingspin.Prelude.{ℕ, suc, Bool, true, false, not, ◌&&◌, String, Option, none, some}
use kingspin.Prelude.Lists.{find}
use kingspin.Prelude.Text.{str_eq, opt_str_eq, ◌<>◌}
use kingspin.Prelude.Result.{bad_request, not_found}
use kingspin.Store.Tables.{WithdrawalStatus, processing, failed, cancelled, Withdrawal, Db}
use kingspin.Store.Tx as Tx
use kingspin.Store.Tx.{commit}
use kingspin.Store.Service.{Service, ◌>>=◌, ◌>>◌, fail_if, need, meanwhile}
use kingspin.Payments.Withdrawals.{
  WithdrawalResult, find_withdrawal_or_throw, refund_and_transition, Transition,
}
use kingspin.Payments.Review.{mark_paid, has_reference, write}

abbrev pub by_user : Transition
by_user = record {
  status = cancelled;
  reason = "Cancelled by user before payout.";
  reviewer_is_user = true;
}

unfoldable pub cancel_withdrawal :
    String → String → String → (ℕ → Db → Db) → Service WithdrawalResult
cancel_withdrawal new_id id user_id others = do
  w ← commit (find_withdrawal_or_throw id)
  fail_if (not (str_eq w.user_id user_id)) (not_found "Withdrawal not found.")
  meanwhile (others 0)
  commit (refund_and_transition new_id id user_id by_user)

-- The status that a provider reports.
pub data Reported : Type 0 where
  paid_out reported_failed reported_cancelled in_progress : Reported

abbrev pub reported_text : Reported → String
reported_text paid_out = "PAID"
reported_text reported_failed = "FAILED"
reported_text reported_cancelled = "CANCELLED"
reported_text in_progress = "PENDING"

pub record Verified : Type 0 where
  pub valid : Bool
  pub provider_reference : Option String
  pub status : Reported
  pub reason : Option String

abbrev pub reviewer_or_empty : Withdrawal → String
reviewer_or_empty w = elim w.reviewed_by_admin_id [ some a ↦ a | none ↦ "" ]

abbrev reported_reason : Verified → String
reported_reason v = elim v.reason [
  | some r ↦ r
  | none ↦ "Provider reported " <> reported_text v.status <> "."
]

-- `where: { provider, providerReference }`
abbrev pub is_reported : String → Verified → Withdrawal → Bool
is_reported provider v w =
    str_eq w.provider provider && opt_str_eq w.provider_reference v.provider_reference

abbrev pub reported_end : Verified → WithdrawalStatus → Transition
reported_end v status = record {
  status = status;
  reason = reported_reason v;
  reviewer_is_user = false;
}

abbrev pub handle_report : String → Withdrawal → Verified → (ℕ → Db → Db) → Service WithdrawalResult
handle_report new_id w v others = elim v.status [
  | paid_out ↦
      meanwhile (others 0) >> mark_paid w.id (reviewer_or_empty w) none (λ i. others (suc i))
  | reported_failed ↦
      meanwhile (others 0)
      >> commit (refund_and_transition new_id w.id (reviewer_or_empty w) (reported_end v failed))
  | reported_cancelled ↦
      meanwhile (others 0)
      >> commit (refund_and_transition new_id w.id (reviewer_or_empty w) (reported_end v cancelled))
  | in_progress ↦ write (others 0) w (λ x. record x { status = processing })
]

unfoldable pub handle_withdrawal_webhook :
    String → String → Verified → (ℕ → Db → Db) → Service WithdrawalResult
unfolding mark_paid
handle_withdrawal_webhook new_id provider v others = do
  fail_if (not (v.valid && has_reference v.provider_reference))
      (bad_request "Invalid withdrawal webhook.")
  found ← commit (Tx.gets λ db. find (is_reported provider v) db.withdrawals)
  w ← need found (not_found "Withdrawal not found for provider reference.")
  handle_report new_id w v others
