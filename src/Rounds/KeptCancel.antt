-- ===== src/Rounds/KeptCancel.antt =====
-- The cancellations keep the money sound and move rounds along the state machine.
use kingspin.Prelude.{
  ◌≡◌, refl, Bool, true, not, ◌&&◌, String, List, [], ◌∷◌, Option, none, some, ◌==◌, arith,
}
use kingspin.Prelude.Int.{ℤ}
use kingspin.Prelude.Result.{bad_request, not_found, conflict}
use kingspin.Store.Tables.{Round, Entry}
use kingspin.Store.Invariant.InTx.{InTx, ◌>>=◌, ◌>>◌, pures, throws_if, needs, either}
use kingspin.Engine.Machine.{open_round, cancelled, status_eq, can_transition_round}
use kingspin.Rounds.Rows.{Env, cancellable_round_statuses, has_status, in_room, is_round}
use kingspin.Rounds.Tickets.{set_locked}
use kingspin.Rounds.Open.{Fresh}
use kingspin.Rounds.Cancel.{
  set_cancelled, is_due, refund_entries, refund_and_cancel, same_room, cancel_expired_tx,
  CancelArgs, stop_entries, check_cancellable, find_to_cancel, cancel_round_and_start_next_tx,
}
use kingspin.Rounds.History.{IsLater, one_step}
use kingspin.Rounds.Kept.{
  Kept, refunds, finds_latest, finds_round, finds_entries, finds_round_or_throw, updates_rounds,
}
use kingspin.Rounds.KeptTx.{and_both, locks, finds_or_creates, requires_active_room}

pub cancellable :
    (r : Round)
    → has_status cancellable_round_statuses r ≡ true
    → can_transition_round r.status cancelled ≡ true
unfolding can_transition_round
cancellable r h = ground arith

open_cancellable :
    (r : Round)
    → status_eq r.status open_round ≡ true
    → can_transition_round r.status cancelled ≡ true
unfolding can_transition_round
open_cancellable r h = ground arith

pub cancels :
    (now : ℤ) (r : Round)
    → can_transition_round r.status cancelled ≡ true
    → IsLater r (set_cancelled now r)
cancels now r h = record {
  same_id = refl;
  same_room = refl;
  same_number = refl;
  same_seed = refl;
  same_commitment = refl;
  reached = one_step r.status cancelled h;
}

module _ (start : List Round) where
  refunds_entries :
      (ids : String → String) (round_id : String) (es : List Entry)
      → InTx (Kept start) (refund_entries ids round_id es)
  unfolding refund_entries
  refunds_entries ids round_id [] = record { kept = λ db h. h }
  refunds_entries ids round_id (e ∷ es) = do
    r ← refunds start (ids e.id) e.id round_id
    rest ← refunds_entries ids round_id es
    pures (r ∷ rest)

  refunds_and_cancels :
      (env : Env) (ids : String → String) (now : ℤ) (r : Round) (still : Round → Bool)
      → ((s : Round) → still s ≡ true → can_transition_round s.status cancelled ≡ true)
      → InTx (Kept start) (refund_and_cancel env ids now r still)
  unfolding refund_and_cancel
  refunds_and_cancels env ids now r still k = do
    entries ← finds_entries start env r.id
    refunds ← refunds_entries ids r.id entries
    count ←
        updates_rounds start (λ s. is_round r.id s && still s) (set_cancelled now)
          (λ s h. cancels now s (k s (and_both (is_round r.id s) (still s) h).1))
    throws_if (not (count == 1))
        (bad_request "Round could not be marked CANCELLED. Manual review required.")
    pures refunds

  pub cancels_expired_tx :
      (env : Env) (ids : String → String) (now : ℤ) (room_id round_id : String)
      → InTx (Kept start) (cancel_expired_tx env ids now room_id round_id)
  unfolding cancel_expired_tx
  cancels_expired_tx env ids now room_id round_id = do
    found ← finds_round start round_id
    r ← needs (same_room room_id found) (not_found "Round not found.")
    either (status_eq r.status cancelled) (pures (r, [])) (do
      throws_if (not (status_eq r.status open_round))
          (bad_request "Round changed before expired OPEN cancellation could start.")
      throws_if (not (is_due now r.locks_at)) (bad_request "Round is not an expired OPEN round.")
      refunds ←
          refunds_and_cancels env ids now r (λ s. status_eq s.status open_round) open_cancellable
      final ← finds_round_or_throw start r.id
      pures (final, refunds))

  stops_entries : (now : ℤ) (r : Round) → InTx (Kept start) (stop_entries now r)
  stops_entries now r = do
    count ←
        updates_rounds start (λ s. is_round r.id s && status_eq s.status open_round)
          (set_locked now) (λ s h. locks now (is_round r.id s) s h)
    next ← finds_round_or_throw start r.id
    throws_if (not (count == 1) && not (has_status cancellable_round_statuses next))
        (bad_request "Round changed while cancellation was starting. Retry cancel.")
    pures next

  checks_cancellable :
      (args : CancelArgs) (now : ℤ) (r : Round) → InTx (Kept start) (check_cancellable args now r)
  checks_cancellable args now r = do
    throws_if (not (has_status cancellable_round_statuses r))
        (bad_request "Round changed before cancellation could start.")
    throws_if (args.require_expired_open && not (status_eq r.status open_round))
        (bad_request "Round changed before expired OPEN cancellation could start.")
    throws_if (args.require_expired_open && not (is_due now r.locks_at))
        (bad_request "Round is not an expired OPEN round.")
    either (status_eq r.status open_round && not args.require_expired_open) (stops_entries now r)
        (pures r)

  finds_to_cancel :
      (args : CancelArgs) (id : Option String) → InTx (Kept start) (find_to_cancel args id)
  finds_to_cancel args none = finds_latest start (in_room args.room_id cancellable_round_statuses)
  finds_to_cancel args (some id) = finds_round start id

  pub cancels_round_tx :
      (env : Env) (fresh : Fresh) (ids : String → String) (args : CancelArgs)
      → InTx (Kept start) (cancel_round_and_start_next_tx env fresh ids args)
  unfolding cancel_round_and_start_next_tx
  cancels_round_tx env fresh ids args = do
    room ← requires_active_room start args.has_room_lock args.room_id
    found ← finds_to_cancel args args.round_id
    seen ← needs (same_room args.room_id found) (not_found "Round not found.")
    throws_if (not args.has_round_lock)
        (conflict "Another round transition is already running for this round.")
    read ← finds_round_or_throw start seen.id
    r ←
        either (status_eq read.status cancelled) (pures read)
          (checks_cancellable args fresh.now read)
    refunds ← either (status_eq r.status cancelled) (pures []) (
        refunds_and_cancels env ids fresh.now r (has_status cancellable_round_statuses) cancellable)
    final ← finds_round_or_throw start r.id
    next ← finds_or_creates start env fresh args.room_id room.round_duration_ms
    pures (final, refunds, next)
