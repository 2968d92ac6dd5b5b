-- ===== src/Payments/Review.antt =====
-- The review and the payout of a withdrawal (apps/api/src/modules/payments/withdrawals.service.ts).
-- What a payment provider answers, or throws, is an argument; `others i` is what other requests commit
-- at the i-th point between two statements.
use kingspin.Prelude.{ℕ, Bool, true, false, not, ◌||◌, String, Option, none, some, if◌then◌else◌}
use kingspin.Prelude.Text.{is_empty, ◌<>◌}
use kingspin.Prelude.Result.{Result, bad_request}
use kingspin.Store.Tables.{
  WithdrawalStatus, pending_review, approved, processing, paid, rejected, failed, Withdrawal, Db,
}
use kingspin.Store.Tx.{commit}
use kingspin.Store.Service.{Service, ◌>>=◌, ◌>>◌, done, fail_if, lift, meanwhile}
use kingspin.Payments.Withdrawals.{
  status_eq, status_text, WithdrawalResult, find_withdrawal_or_throw, update_withdrawal, or_else,
  refund_and_transition,
}

abbrev pub answered : Bool → Withdrawal → Service WithdrawalResult
answered reused w = done (record { withdrawal = w; reused = reused })

-- The update that ends a handler, after what others commit since the row was read.
abbrev pub write : (Db → Db) → Withdrawal → (Withdrawal → Withdrawal) → Service WithdrawalResult
write others w f = do meanwhile others; x ← commit (update_withdrawal w f); answered false x

abbrev pub approved_by : String → Withdrawal → Withdrawal
approved_by admin_id x = record x { status = approved; reviewed_by_admin_id = some admin_id }

-- The approval, once the withdrawal was read.
abbrev pub approve_found : String → (ℕ → Db → Db) → Withdrawal → Service WithdrawalResult
approve_found admin_id others w =
    if status_eq w.status approved
    then answered true w
    else (fail_if (not (status_eq w.status pending_review))
          (bad_request ("Withdrawal cannot be approved from " <> status_text w.status <> "."))
        >> write (others 0) w (approved_by admin_id))

unfoldable pub approve_withdrawal : String → String → (ℕ → Db → Db) → Service WithdrawalResult
approve_withdrawal id admin_id others =
    commit (find_withdrawal_or_throw id) >>= approve_found admin_id others

-- What a provider answers to a payout.
pub record Payout : Type 0 where
  pub is_paid : Bool
  pub provider_reference : String

abbrev pub can_pay_out : WithdrawalStatus → Bool
can_pay_out s = status_eq s approved || status_eq s processing || status_eq s failed

abbrev pub has_reference : Option String → Bool
has_reference none = false
has_reference (some r) = not (is_empty r)

abbrev pub sent_out : Payout → Withdrawal → Withdrawal
sent_out payout x = record x {
  status = if payout.is_paid then paid else processing;
  provider_reference = some payout.provider_reference;
}

-- The payout, once the withdrawal was read.
abbrev pub pay_out_found : Result Payout → (ℕ → Db → Db) → Withdrawal → Service WithdrawalResult
pay_out_found provider others w =
    if status_eq w.status paid
    then answered true w
    else (fail_if (not (can_pay_out w.status))
          (bad_request ("Withdrawal payout cannot start from " <> status_text w.status <> "."))
        >> (if has_reference w.provider_reference
            then answered true w
            else (lift provider >>= λ payout. write (others 0) w (sent_out payout))))

unfoldable pub create_payout : String → Result Payout → (ℕ → Db → Db) → Service WithdrawalResult
create_payout id provider others =
    commit (find_withdrawal_or_throw id) >>= pay_out_found provider others

-- The columns of a payment that was made: what is not given is taken from the row that was read, and a
-- reference that neither has is not written.
abbrev pub paid_by : String → Option String → Withdrawal → Withdrawal → Withdrawal
paid_by admin_id provider_reference w x = record x {
  status = paid;
  provider_reference =
      or_else (or_else provider_reference w.provider_reference) x.provider_reference;
  reviewed_by_admin_id = or_else w.reviewed_by_admin_id (some admin_id);
}

-- The mark as paid, once the withdrawal was read.
abbrev pub mark_found :
    String → Option String → (ℕ → Db → Db) → Withdrawal → Service WithdrawalResult
mark_found admin_id provider_reference others w =
    if status_eq w.status paid
    then answered true w
    else (fail_if (not (status_eq w.status approved || status_eq w.status processing))
          (bad_request ("Withdrawal cannot be marked paid from " <> status_text w.status <> "."))
        >> write (others 0) w (paid_by admin_id provider_reference w))

unfoldable pub mark_paid :
    String → String → Option String → (ℕ → Db → Db) → Service WithdrawalResult
mark_paid id admin_id provider_reference others =
    commit (find_withdrawal_or_throw id) >>= mark_found admin_id provider_reference others

unfoldable pub reject_withdrawal : String → String → String → String → Service WithdrawalResult
reject_withdrawal new_id id admin_id reason = commit (
    refund_and_transition new_id id admin_id
      (record { status = rejected; reason = reason; reviewer_is_user = false }))

unfoldable pub mark_failed : String → String → String → String → Service WithdrawalResult
mark_failed new_id id admin_id reason = commit (
    refund_and_transition new_id id admin_id
      (record { status = failed; reason = reason; reviewer_is_user = false }))
