-- ===== src/Rounds/Cancel.antt =====
-- The cancellation of a round (apps/api/src/modules/rounds/rounds.service.ts): its entries are
-- refunded, and the round is cancelled, in one transaction or statement by statement.
use kingspin.Prelude.{
  Bool, false, not, ◌&&◌, String, List, [], ◌∷◌, Option, none, some, ◌==◌, if◌then◌else◌,
}
use kingspin.Prelude.Int.{ℤ, ltb_ℤ}
use kingspin.Prelude.Text.{str_eq}
use kingspin.Prelude.Result.{bad_request, not_found, conflict}
use kingspin.Store.Tables.{Round, Entry}
use kingspin.Store.Tx.{Tx, ◌>>=◌, ◌>>◌, pure, throw_if, or_throw}
use kingspin.Engine.Machine.{open_round, cancelled, status_eq}
use kingspin.Wallets.EntryRefund.{EntryRefundResult, refund_entry_holds}
use kingspin.Rounds.Rows.{
  Env, cancellable_round_statuses, has_status, in_room, is_round, find_latest_round, find_round,
  find_round_or_throw, update_rounds, find_entries,
}
use kingspin.Rounds.Tickets.{set_locked}
use kingspin.Rounds.Open.{Fresh, require_active_room, find_or_create_open_round_for_room_tx}

abbrev pub set_cancelled : ℤ → Round → Round
set_cancelled now r = record r { status = cancelled; cancelled_at = some now }

-- `locksAt` is there, and not in the future.
abbrev pub is_due : ℤ → Option ℤ → Bool
is_due now none = false
is_due now (some t) = not (ltb_ℤ now t)

-- The loop over the entries. `ids` makes the id of the refund of an entry.
unfoldable pub refund_entries :
    (String → String) → String → List Entry → Tx (List EntryRefundResult)
refund_entries ids round_id [] = pure []
refund_entries ids round_id (e ∷ es) = do
  r ← refund_entry_holds (ids e.id) e.id round_id
  rest ← refund_entries ids round_id es
  pure (r ∷ rest)

-- The refunds, and the change of a round that is still in one of the statuses.
unfoldable pub refund_and_cancel :
    Env → (String → String) → ℤ → Round → (Round → Bool) → Tx (List EntryRefundResult)
unfolding find_entries update_rounds refund_entries
refund_and_cancel env ids now r still = do
  entries ← find_entries env r.id
  refunds ← refund_entries ids r.id entries
  count ← update_rounds (λ s. is_round r.id s && still s) (set_cancelled now)
  throw_if (not (count == 1))
      (bad_request "Round could not be marked CANCELLED. Manual review required.")
  pure refunds

abbrev pub same_room : String → Option Round → Option Round
same_room room_id none = none
same_room room_id (some r) = if str_eq r.room_id room_id then some r else none

unfoldable pub cancel_expired_tx :
    Env → (String → String) → ℤ → String → String → Tx (Round × List EntryRefundResult)
unfolding find_round find_round_or_throw refund_and_cancel
cancel_expired_tx env ids now room_id round_id = do
  found ← find_round round_id
  r ← or_throw (same_room room_id found) (not_found "Round not found.")
  if status_eq r.status cancelled then pure (r, []) else (do
    throw_if (not (status_eq r.status open_round))
        (bad_request "Round changed before expired OPEN cancellation could start.")
    throw_if (not (is_due now r.locks_at)) (bad_request "Round is not an expired OPEN round.")
    refunds ← refund_and_cancel env ids now r (λ s. status_eq s.status open_round)
    final ← find_round_or_throw r.id
    pure (final, refunds))

-- What the cancellation with a next round is asked for.
pub record CancelArgs : Type 0 where
  pub room_id : String
  pub round_id : Option String
  pub require_expired_open : Bool
  pub has_room_lock : Bool
  pub has_round_lock : Bool

-- An open round is locked first, so that no entry is added.
abbrev pub stop_entries : ℤ → Round → Tx Round
stop_entries now r = do
  count ← update_rounds (λ s. is_round r.id s && status_eq s.status open_round) (set_locked now)
  next ← find_round_or_throw r.id
  throw_if (not (count == 1) && not (has_status cancellable_round_statuses next))
      (bad_request "Round changed while cancellation was starting. Retry cancel.")
  pure next

abbrev pub check_cancellable : CancelArgs → ℤ → Round → Tx Round
check_cancellable args now r = do
  throw_if (not (has_status cancellable_round_statuses r))
      (bad_request "Round changed before cancellation could start.")
  throw_if (args.require_expired_open && not (status_eq r.status open_round))
      (bad_request "Round changed before expired OPEN cancellation could start.")
  throw_if (args.require_expired_open && not (is_due now r.locks_at))
      (bad_request "Round is not an expired OPEN round.")
  if status_eq r.status open_round && not args.require_expired_open
      then stop_entries now r
      else pure r

abbrev pub find_to_cancel : CancelArgs → Option String → Tx (Option Round)
find_to_cancel args none = find_latest_round (in_room args.room_id cancellable_round_statuses)
find_to_cancel args (some id) = find_round id

unfoldable pub cancel_round_and_start_next_tx :
    Env → Fresh → (String → String) → CancelArgs → Tx (Round × List EntryRefundResult × Round)
unfolding find_latest_round find_round find_round_or_throw refund_and_cancel update_rounds
    require_active_room find_or_create_open_round_for_room_tx
cancel_round_and_start_next_tx env fresh ids args = do
  room ← require_active_room args.has_room_lock args.room_id
  found ← find_to_cancel args args.round_id
  seen ← or_throw (same_room args.room_id found) (not_found "Round not found.")
  throw_if (not args.has_round_lock)
      (conflict "Another round transition is already running for this round.")
  read ← find_round_or_throw seen.id
  r ← if status_eq read.status cancelled then pure read else check_cancellable args fresh.now read
  refunds ←
      if status_eq r.status cancelled
      then pure []
      else refund_and_cancel env ids fresh.now r (has_status cancellable_round_statuses)
  final ← find_round_or_throw r.id
  next ← find_or_create_open_round_for_room_tx env fresh args.room_id room.round_duration_ms
  pure (final, refunds, next)
