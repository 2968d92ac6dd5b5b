-- ===== src/Rounds/Cancellation.antt =====
-- The cancellations that other parts ask for (apps/api/src/modules/rounds/rounds.service.ts), and their
-- summary. `others i` is what other requests commit between two statements.
use kingspin.Prelude.{
  ℕ, Bool, true, false, not, ◌&&◌, String, List, [], ◌∷◌, Option, none, some, ◌==◌, if◌then◌else◌,
}
use kingspin.Prelude.Int.{ℤ, pos, ◌+ℤ◌}
use kingspin.Prelude.Lists.{length, select}
use kingspin.Prelude.Text.{is_empty}
use kingspin.Prelude.Result.{bad_request}
use kingspin.Store.Tables.{Round, Entry, Db}
use kingspin.Store.Tx.{commit}
use kingspin.Store.Service.{Service, ◌>>=◌, ◌>>◌, meanwhile, fail_if, done, fail}
use kingspin.Engine.Machine.{open_round, cancelled, status_eq}
use kingspin.Wallets.EntryRefund.{
  EntryRefundResult, RefundReason, no_hold_found, already_refunded, refund_entry_holds,
}
use kingspin.Rounds.Rows.{
  Env, cancellable_round_statuses, has_status, in_room, is_round, find_latest_round,
  find_round_or_throw, update_rounds, find_entries,
}
use kingspin.Rounds.Open.{Fresh}
use kingspin.Rounds.Tickets.{set_locked}
use kingspin.Rounds.Cancel.{
  set_cancelled, cancel_expired_tx, CancelArgs, cancel_round_and_start_next_tx,
}

pub record CancellationResult : Type 0 where
  pub round : Round
  pub refunded_count : ℕ
  pub skipped_count : ℕ
  pub already_refunded_count : ℕ
  pub refunded_amount : ℤ
  pub refund_results : List EntryRefundResult
  pub reused : Bool

abbrev is_skipped : RefundReason → Bool
is_skipped no_hold_found = true
is_skipped _ = false

abbrev is_again : RefundReason → Bool
is_again already_refunded = true
is_again _ = false

-- `reduce` over the amounts.
abbrev pub sum_from : ℤ → List EntryRefundResult → ℤ
sum_from sum [] = sum
sum_from sum (r ∷ rs) = sum_from (sum +ℤ r.amount) rs

unfoldable pub to_round_cancellation_result :
    Round → List EntryRefundResult → Bool → CancellationResult
to_round_cancellation_result round refunds reused = record {
  round = round;
  refunded_count = length (select (λ r. r.is_refunded) refunds);
  skipped_count = length (select (λ r. is_skipped r.reason) refunds);
  already_refunded_count = length (select (λ r. is_again r.reason) refunds);
  refunded_amount = sum_from (pos 0) refunds;
  refund_results = refunds;
  reused = reused;
}

unfoldable pub cancel_expired_open_round_for_room :
    Env → (String → String) → ℤ → String → String → Service CancellationResult
unfolding cancel_expired_tx to_round_cancellation_result
cancel_expired_open_round_for_room env ids now room_id round_id = do
  fail_if (is_empty room_id) (bad_request "roomId is required.")
  fail_if (is_empty round_id) (bad_request "roundId is required.")
  stopped ← commit (cancel_expired_tx env ids now room_id round_id)
  done (to_round_cancellation_result stopped.0 stopped.1 false)

abbrev pub expired_args : Bool → Bool → String → String → CancelArgs
expired_args has_room_lock has_round_lock room_id round_id = record {
  room_id = room_id;
  round_id = some round_id;
  require_expired_open = true;
  has_room_lock = has_room_lock;
  has_round_lock = has_round_lock;
}

abbrev pub current_args : Bool → Bool → String → CancelArgs
current_args has_room_lock has_round_lock room_id = record {
  room_id = room_id;
  round_id = none;
  require_expired_open = false;
  has_room_lock = has_room_lock;
  has_round_lock = has_round_lock;
}

-- The cancelled round with the summary of its refunds, and the round that is open next.
unfoldable pub cancel_expired_open_round_and_start_next_for_room :
    Env
    → Fresh
    → (String → String)
    → Bool
    → Bool
    → String
    → String
    → Service (CancellationResult × Round)
unfolding cancel_round_and_start_next_tx to_round_cancellation_result
cancel_expired_open_round_and_start_next_for_room env fresh ids has_room_lock has_round_lock room_id
      round_id =
    do
      fail_if (is_empty room_id) (bad_request "roomId is required.")
      fail_if (is_empty round_id) (bad_request "roundId is required.")
      r ← commit (
          cancel_round_and_start_next_tx env fresh ids
            (expired_args has_room_lock has_round_lock room_id round_id))
      done (to_round_cancellation_result r.0 r.1 false, r.2)

unfoldable pub cancel_current_round_and_start_next_for_room :
    Env → Fresh → (String → String) → Bool → Bool → String → Service (CancellationResult × Round)
unfolding cancel_round_and_start_next_tx to_round_cancellation_result
cancel_current_round_and_start_next_for_room env fresh ids has_room_lock has_round_lock room_id = do
  fail_if (is_empty room_id) (bad_request "roomId is required.")
  r ← commit (
      cancel_round_and_start_next_tx env fresh ids
        (current_args has_room_lock has_round_lock room_id))
  done (to_round_cancellation_result r.0 r.1 false, r.2)

-- `refundEntryHoldsByEntryId` for each entry, each in a transaction of its own.
unfoldable pub refund_each :
    (String → String) → String → List Entry → Service (List EntryRefundResult)
unfolding refund_entry_holds
refund_each ids round_id [] = done []
refund_each ids round_id (e ∷ es) = do
  r ← commit (refund_entry_holds (ids e.id) e.id round_id)
  rest ← refund_each ids round_id es
  done (r ∷ rest)

abbrev pub check_cancelled : ℕ → String → Service Unit
check_cancelled count id =
    if not (count == 1)
    then (do
      raced ← commit (find_round_or_throw id)
      fail_if (not (status_eq raced.status cancelled))
          (bad_request "Round could not be marked CANCELLED. Manual review required."))
    else done tt

-- The refunds of a round that takes no more entries, and its cancellation.
unfoldable pub cancel_stopped :
    Env → (String → String) → ℤ → (ℕ → Db → Db) → Round → Service CancellationResult
unfolding find_entries refund_each update_rounds find_round_or_throw to_round_cancellation_result
cancel_stopped env ids now others r = do
  meanwhile (others 2)
  entries ← commit (find_entries env r.id)
  meanwhile (others 3)
  refunds ← refund_each ids r.id entries
  meanwhile (others 4)
  count ← commit (
      update_rounds (λ s. is_round r.id s && has_status cancellable_round_statuses s)
        (set_cancelled now))
  meanwhile (others 5)
  check_cancelled count r.id
  meanwhile (others 6)
  final ← commit (find_round_or_throw r.id)
  done (to_round_cancellation_result final refunds false)

-- An open round is locked first.
unfoldable pub stop_and_cancel :
    Env → (String → String) → ℤ → (ℕ → Db → Db) → Round → Service CancellationResult
unfolding cancel_stopped update_rounds find_round_or_throw to_round_cancellation_result
stop_and_cancel env ids now others current = do
  count ←
      commit (
        update_rounds (λ s. is_round current.id s && status_eq s.status open_round)
          (set_locked now))
  meanwhile (others 1)
  next ← commit (find_round_or_throw current.id)
  if count == 1
      then cancel_stopped env ids now others next
      else if status_eq next.status cancelled
      then done (to_round_cancellation_result next [] true)
      else if not (has_status cancellable_round_statuses next)
      then fail (bad_request "Round changed while cancellation was starting. Retry cancel.")
      else cancel_stopped env ids now others next

-- Nothing can be cancelled: a round that was cancelled before is answered again.
abbrev pub already_cancelled : Option Round → Service CancellationResult
already_cancelled none = fail (bad_request "Room does not have a cancellable round.")
already_cancelled (some r) = done (to_round_cancellation_result r [] true)

unfoldable pub cancel_current_round_for_room :
    Env → (String → String) → ℤ → (ℕ → Db → Db) → String → Service CancellationResult
unfolding find_latest_round cancel_stopped stop_and_cancel to_round_cancellation_result
cancel_current_round_for_room env ids now others room_id = do
  fail_if (is_empty room_id) (bad_request "roomId is required.")
  found ← commit (find_latest_round (in_room room_id cancellable_round_statuses))
  meanwhile (others 0)
  elim found [
    | none ↦ do
      before ← commit (find_latest_round (in_room room_id (cancelled ∷ [])))
      already_cancelled before
    | some current ↦
        if status_eq current.status open_round
        then stop_and_cancel env ids now others current
        else cancel_stopped env ids now others current
  ]
