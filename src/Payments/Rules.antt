-- ===== src/Payments/Rules.antt =====
-- What the handlers of withdrawals keep: every condition on the database that their updates keep.
use mathlib.Core.Path.{subst}
use kingspin.Prelude.{
  ℕ, ◌≡◌, refl, sym, Bool, not, String, Option, none, some, arith, inl, inr, Option-cases, suc,
}
use kingspin.Prelude.Lists.{find}
use kingspin.Prelude.Result.{Result, ok, err, not_found}
use kingspin.Store.Tables.{processing, paid, Withdrawal, Db}
use kingspin.Store.Tx.{commit}
use kingspin.Store.Service as Service
use kingspin.Store.Service.{Service}
use kingspin.Store.Invariant.InTx as InTx
use kingspin.Store.Invariant.InTx.{InTx}
use kingspin.Store.Invariant.Holds.{
  Holds, ◌>>=◌, ◌>>◌, commits, dones, fails_if, lifts, needs, either, others_keep,
}
use kingspin.Payments.Withdrawals.{
  has_withdrawal_id, status_eq, find_withdrawal_or_throw, update_withdrawal, refund_and_transition,
  Transition,
}
use kingspin.Payments.Transition.{at_id}
use kingspin.Payments.Review.{
  write, approve_found, pay_out_found, mark_found, approved_by, approve_withdrawal, Payout,
  can_pay_out, has_reference, sent_out, create_payout, paid_by, mark_paid, reject_withdrawal,
  mark_failed,
}
use kingspin.Payments.Webhook.{
  by_user, cancel_withdrawal, Reported, paid_out, reported_failed, reported_cancelled, in_progress,
  Verified, reviewer_or_empty, is_reported, handle_report, handle_withdrawal_webhook,
}

-- What others commit keeps a condition.
abbrev pub OthersKeep : (Db → Type 0) → (ℕ → Db → Db) → Type 0
OthersKeep P others = (i : ℕ) (db : Db) → P db → P (others i db)

-- An update leaves the id and the amount.
abbrev pub IsMinor : (Withdrawal → Withdrawal) → Type 0
IsMinor f = (x : Withdrawal) → ((f x).id ≡ x.id) × ((f x).amount ≡ x.amount)

read_found :
    (id : String) (db : Db) (w : Withdrawal)
    → find (has_withdrawal_id id) db.withdrawals ≡ some w
    → commit (find_withdrawal_or_throw id) db ≡ (ok w, db)
unfolding find_withdrawal_or_throw
read_found id db w found = ground arith

read_missing :
    (id : String) (db : Db)
    → find (has_withdrawal_id id) db.withdrawals ≡ none
    → commit (find_withdrawal_or_throw id) db ≡ (err (not_found "Withdrawal not found."), db)
unfolding find_withdrawal_or_throw
read_missing id db missing = ground arith

-- The handlers that read one withdrawal and update it, for the ids whose updates keep the condition.
module _ (P : Db → Type 0) (R : String → Type 0)
    (updates : (w : Withdrawal) (f : Withdrawal → Withdrawal)
      → R w.id
      → IsMinor f
      → InTx P (update_withdrawal w f)) where
  abbrev Goes : {B : Type 0} → (Withdrawal → Service B) → Result Withdrawal × Db → Type 0
  Goes {B} f q = P (elim q.0 as (λ x. Result B × Db) [ ok a ↦ f a q.1 | err e ↦ (err e, q.1) ]).1

  reading :
      {B : Type 0} (id : String) (f : Withdrawal → Service B)
      → R id
      → ((w : Withdrawal) → R w.id → Holds P (f w))
      → Holds P (Service.◌>>=◌ (commit (find_withdrawal_or_throw id)) f)
  reading {B} id f r h = record {
    kept = λ db p. elim (Option-cases (find (has_withdrawal_id id) db.withdrawals)) [
      | inl missing ↦ subst (Goes f) (sym (read_missing id db missing)) p
      | inr (w, found) ↦
          subst (Goes f) (sym (read_found id db w found))
            ((h w (subst R (sym (at_id id db found)) r)).kept db p)
    ];
  }

  pub writes :
      (others : Db → Db) (w : Withdrawal) (f : Withdrawal → Withdrawal)
      → ((db : Db) → P db → P (others db))
      → R w.id
      → IsMinor f
      → Holds P (write others w f)
  writes others w f k r minor = do others_keep others k; x ← commits (updates w f r minor); dones _

  pub approves :
      (id admin_id : String) (others : ℕ → Db → Db)
      → OthersKeep P others
      → R id
      → Holds P (approve_withdrawal id admin_id others)
  unfolding approve_withdrawal
  approves id admin_id others k r = reading id (approve_found admin_id others) r λ w s.
      either _ (dones _)
        (fails_if _ _ >> writes (others 0) w (approved_by admin_id) (k 0) s (λ x. (refl, refl)))

  pub pays_out :
      (id : String) (provider : Result Payout) (others : ℕ → Db → Db)
      → OthersKeep P others
      → R id
      → Holds P (create_payout id provider others)
  unfolding create_payout
  pays_out id provider others k r = reading id (pay_out_found provider others) r λ w s.
      either (status_eq w.status paid) (dones _) (
        fails_if (not (can_pay_out w.status)) _
        >> either (has_reference w.provider_reference) (dones _) (
            lifts provider >>= λ payout.
            writes (others 0) w (sent_out payout) (k 0) s (λ x. (refl, refl))))

  pub marks :
      (id admin_id : String) (reference : Option String) (others : ℕ → Db → Db)
      → OthersKeep P others
      → R id
      → Holds P (mark_paid id admin_id reference others)
  unfolding mark_paid
  marks id admin_id reference others k r =
      reading id (mark_found admin_id reference others) r λ w s. either _ (dones _) (
        fails_if _ _
        >> writes (others 0) w (paid_by admin_id reference w) (k 0) s (λ x. (refl, refl)))

-- The handlers whose refunds are transactions, and the report of a provider.
module _ (P : Db → Type 0)
    (marks_any : (id admin_id : String) (reference : Option String) (others : ℕ → Db → Db)
      → OthersKeep P others
      → Holds P (mark_paid id admin_id reference others))
    (refunds : (new_id id actor_id : String) (args : Transition)
      → InTx P (refund_and_transition new_id id actor_id args)) where
  pub rejects :
      (new_id id admin_id reason : String) → Holds P (reject_withdrawal new_id id admin_id reason)
  unfolding reject_withdrawal
  rejects new_id id admin_id reason = commits (refunds new_id id admin_id _)

  pub fails_payout :
      (new_id id admin_id reason : String) → Holds P (mark_failed new_id id admin_id reason)
  unfolding mark_failed
  fails_payout new_id id admin_id reason = commits (refunds new_id id admin_id _)

  pub cancels :
      (new_id id user_id : String) (others : ℕ → Db → Db)
      → OthersKeep P others
      → Holds P (cancel_withdrawal new_id id user_id others)
  unfolding cancel_withdrawal find_withdrawal_or_throw
  cancels new_id id user_id others k = do
    w ← commits (
        InTx.◌>>=◌ (InTx.reads (λ db. find (has_withdrawal_id id) db.withdrawals))
          λ found. InTx.needs found (not_found "Withdrawal not found."))
    fails_if _ _
    others_keep (others 0) (k 0)
    commits (refunds new_id id user_id by_user)

  after_report :
      (new_id : String) (w : Withdrawal) (valid : Bool) (reference reason : Option String)
      (status : Reported) (others : ℕ → Db → Db)
      → (status ≡ in_progress
          → Holds P (write (others 0) w (λ x. record x { status = processing })))
      → OthersKeep P others
      → Holds P (
          handle_report new_id w
            (record {
              valid = valid;
              provider_reference = reference;
              status = status;
              reason = reason;
            })
            others)
  after_report new_id w valid reference reason paid_out others progress k =
      others_keep (others 0) (k 0)
      >> marks_any w.id (reviewer_or_empty w) none (λ i. others (suc i)) (λ i. k (suc i))
  after_report new_id w valid reference reason reported_failed others progress k =
      others_keep (others 0) (k 0) >> commits (refunds new_id w.id (reviewer_or_empty w) _)
  after_report new_id w valid reference reason reported_cancelled others progress k =
      others_keep (others 0) (k 0) >> commits (refunds new_id w.id (reviewer_or_empty w) _)
  after_report new_id w valid reference reason in_progress others progress k = progress refl

  pub reports :
      (new_id provider : String) (v : Verified) (others : ℕ → Db → Db)
      → (v.status ≡ in_progress
          → (w : Withdrawal) → Holds P (write (others 0) w (λ x. record x { status = processing })))
      → OthersKeep P others
      → Holds P (handle_withdrawal_webhook new_id provider v others)
  unfolding handle_withdrawal_webhook
  reports new_id provider v others progress k = do
    fails_if _ _
    found ← commits (InTx.reads (λ db. find (is_reported provider v) db.withdrawals))
    w ← needs found (not_found "Withdrawal not found for provider reference.")
    after_report new_id w v.valid v.provider_reference v.reason v.status others (λ e. progress e w)
        k
