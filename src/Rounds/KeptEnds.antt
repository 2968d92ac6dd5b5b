-- ===== src/Rounds/KeptEnds.antt =====
-- The settlement and the cancellations of a round keep the money sound and move rounds along the state
-- machine, whatever other requests that do so commit between their statements.
use kingspin.Prelude.{
  ℕ, refl, Bool, true, false, not, ◌&&◌, ◌||◌, String, List, [], ◌∷◌, Option, none, some, ◌==◌,
}
use kingspin.Prelude.Int.{ℤ, pos, leb_ℤ}
use kingspin.Prelude.Text.{is_empty, str_eq}
use kingspin.Prelude.Result.{bad_request, record_not_found}
use kingspin.Store.Tables.{Round, Entry, Db}
use kingspin.Store.Invariant.InTx as InTx
use kingspin.Store.Invariant.Holds.{
  Holds, ◌>>=◌, ◌>>◌, commits, dones, fails, fails_if, needs, others_keep, either, cases_option,
}
use kingspin.Engine.Machine.{
  open_round, settling, completed, cancelled, status_eq, can_transition_round,
}
use kingspin.Engine.Proof.{is_truthy, text_or_empty}
use kingspin.Wallets.Credits.{credits_round_win, credits_platform_fee}
use kingspin.Rounds.Rows.{Env, cancellable_round_statuses, has_status, in_room, is_round}
use kingspin.Rounds.Tickets.{set_locked}
use kingspin.Rounds.Open.{Fresh, start_open_round_for_room}
use kingspin.Rounds.Cancel.{set_cancelled}
use kingspin.Rounds.Cancellation.{
  to_round_cancellation_result, expired_args, current_args, cancel_expired_open_round_for_room,
  cancel_expired_open_round_and_start_next_for_room, cancel_current_round_and_start_next_for_room,
  refund_each, check_cancelled, cancel_stopped, stop_and_cancel, already_cancelled,
  cancel_current_round_for_room,
}
use kingspin.Rounds.Settle.{
  SettleIds, win_args, fee_args, is_completed_with_winner, already_settled, set_completed,
  check_completed, pay_out, settle_round, settle_current_round_for_room,
}
use kingspin.Rounds.Kept.{
  Kept, credits, creates, refunds, finds_latest, finds_entries, finds_entry, finds_round_or_throw,
  updates_rounds,
}
use kingspin.Rounds.KeptTx.{and_both, moves, locks, finds_or_creates, requires_active_room}
use kingspin.Rounds.KeptCancel.{cancellable, cancels, cancels_expired_tx, cancels_round_tx}

module _ (start : List Round) (others : ℕ → Db → Db)
    (keep : (i : ℕ) (db : Db) → Kept start db → Kept start (others i db)) where
  pub starts_open :
      (env : Env) (fresh : Fresh) (has_lock : Bool) (room_id : String)
      → Holds (Kept start) (start_open_round_for_room env fresh has_lock room_id)
  unfolding start_open_round_for_room
  starts_open env fresh has_lock room_id = do
    fails_if (is_empty room_id) (bad_request "roomId is required.")
    commits (
        InTx.◌>>=◌ (requires_active_room start has_lock room_id)
          (λ room. finds_or_creates start env fresh room_id room.round_duration_ms))

  answers_settled : (r : Option Round) → Holds (Kept start) (already_settled r)
  answers_settled none =
      fails (bad_request "Room does not have a SETTLING round ready to complete.")
  answers_settled (some r) =
      either (is_completed_with_winner r)
        (do
          winner ← commits (finds_entry start (text_or_empty r.winner_entry_id))
          dones (record {
            round = r;
            winner_entry = winner;
            payout = none;
            platform_fee = none;
            reused = true;
          }))
        (fails (bad_request "Room does not have a SETTLING round ready to complete."))

  checks_completed : (count : ℕ) (id : String) → Holds (Kept start) (check_completed count id)
  checks_completed count id =
      either (not (count == 1))
        (do
          raced ← commits (finds_round_or_throw start id)
          fails_if (not (status_eq raced.status completed)) (
              bad_request
                "Payout was created but round could not be marked COMPLETED. Retry settlement."))
        (dones tt)

  pays_out : (ids : SettleIds) (current : Round) → Holds (Kept start) (pay_out ids others current)
  unfolding pay_out
  pays_out ids current = do
    payout ←
        credits_round_win (Kept start) (credits start) (creates start) ids.wallet_id ids.win_id
          (win_args current) (others 2) (keep 2)
    others_keep (others 3) (keep 3)
    fee ←
        credits_platform_fee (Kept start) (credits start) (creates start) ids.fee_id
          (fee_args current) (others 4) (keep 4)
    dones (payout, fee)

  settles_round :
      (ids : SettleIds) (now : ℤ) (current : Round)
      → Holds (Kept start) (settle_round ids now others current)
  unfolding settle_round can_transition_round
  settles_round ids now current = do
    fails_if (not (is_truthy current.winner_entry_id) || not (is_truthy current.winner_user_id))
        (bad_request "Round has no winner yet. Draw the round before settlement.")
    fails_if (leb_ℤ current.payout_amount (pos 0))
        (bad_request "Round payout amount must be greater than zero.")
    others_keep (others 0) (keep 0)
    found ← commits (finds_entry start (text_or_empty current.winner_entry_id))
    winner ← needs found (bad_request "Winner entry not found.")
    fails_if (not (str_eq winner.user_id (text_or_empty current.winner_user_id)))
        (bad_request "Winner entry user does not match round winner user. Manual review required.")
    others_keep (others 1) (keep 1)
    paid ← pays_out ids current
    others_keep (others 5) (keep 5)
    count ← commits (
        updates_rounds start (λ r. is_round current.id r && status_eq r.status settling)
          (set_completed now)
          (λ r h. record {
            same_id = refl;
            same_room = refl;
            same_number = refl;
            same_seed = refl;
            same_commitment = refl;
            reached = moves (is_round current.id r) r settling completed h refl;
          }))
    others_keep (others 6) (keep 6)
    checks_completed count current.id
    others_keep (others 7) (keep 7)
    final ← commits (finds_round_or_throw start current.id)
    others_keep (others 8) (keep 8)
    entry ← commits (
        InTx.◌>>=◌ (finds_entry start (text_or_empty current.winner_entry_id))
          (λ e. InTx.needs e record_not_found))
    dones (record {
      round = final;
      winner_entry = some entry;
      payout = some paid.0;
      platform_fee = paid.1;
      reused = paid.0.reused;
    })

  pub settles :
      (ids : SettleIds) (now : ℤ) (room_id : String)
      → Holds (Kept start) (settle_current_round_for_room ids now others room_id)
  unfolding settle_current_round_for_room
  settles ids now room_id = do
    fails_if (is_empty room_id) (bad_request "roomId is required.")
    found ← commits (finds_latest start (in_room room_id (settling ∷ [])))
    cases_option found
        (do
          others_keep (others 0) (keep 0)
          last ← commits (finds_latest start (λ r. str_eq r.room_id room_id))
          answers_settled last)
        (λ current. settles_round ids now current)

  pub cancels_expired :
      (env : Env) (ids : String → String) (now : ℤ) (room_id round_id : String)
      → Holds (Kept start) (cancel_expired_open_round_for_room env ids now room_id round_id)
  unfolding cancel_expired_open_round_for_room
  cancels_expired env ids now room_id round_id = do
    fails_if (is_empty room_id) (bad_request "roomId is required.")
    fails_if (is_empty round_id) (bad_request "roundId is required.")
    stopped ← commits (cancels_expired_tx start env ids now room_id round_id)
    dones (to_round_cancellation_result stopped.0 stopped.1 false)

  pub cancels_expired_and_starts :
      (env : Env) (fresh : Fresh) (ids : String → String) (room_lock round_lock : Bool)
      (room_id round_id : String)
      → Holds (Kept start) (
          cancel_expired_open_round_and_start_next_for_room env fresh ids room_lock round_lock
            room_id round_id)
  unfolding cancel_expired_open_round_and_start_next_for_room
  cancels_expired_and_starts env fresh ids room_lock round_lock room_id round_id = do
    fails_if (is_empty room_id) (bad_request "roomId is required.")
    fails_if (is_empty round_id) (bad_request "roundId is required.")
    r ←
        commits (
          cancels_round_tx start env fresh ids (expired_args room_lock round_lock room_id round_id))
    dones (to_round_cancellation_result r.0 r.1 false, r.2)

  pub cancels_and_starts :
      (env : Env) (fresh : Fresh) (ids : String → String) (room_lock round_lock : Bool)
      (room_id : String)
      → Holds
          (Kept start)
          (cancel_current_round_and_start_next_for_room env fresh ids room_lock round_lock room_id)
  unfolding cancel_current_round_and_start_next_for_room
  cancels_and_starts env fresh ids room_lock round_lock room_id = do
    fails_if (is_empty room_id) (bad_request "roomId is required.")
    r ← commits (cancels_round_tx start env fresh ids (current_args room_lock round_lock room_id))
    dones (to_round_cancellation_result r.0 r.1 false, r.2)

  refunds_each :
      (ids : String → String) (round_id : String) (es : List Entry)
      → Holds (Kept start) (refund_each ids round_id es)
  unfolding refund_each
  refunds_each ids round_id [] = dones []
  refunds_each ids round_id (e ∷ es) = do
    r ← commits (refunds start (ids e.id) e.id round_id)
    rest ← refunds_each ids round_id es
    dones (r ∷ rest)

  checks_cancelled : (count : ℕ) (id : String) → Holds (Kept start) (check_cancelled count id)
  checks_cancelled count id =
      either (not (count == 1))
        (do
          raced ← commits (finds_round_or_throw start id)
          fails_if (not (status_eq raced.status cancelled))
              (bad_request "Round could not be marked CANCELLED. Manual review required."))
        (dones tt)

  cancels_stopped :
      (env : Env) (ids : String → String) (now : ℤ) (r : Round)
      → Holds (Kept start) (cancel_stopped env ids now others r)
  unfolding cancel_stopped
  cancels_stopped env ids now r = do
    others_keep (others 2) (keep 2)
    entries ← commits (finds_entries start env r.id)
    others_keep (others 3) (keep 3)
    refunds ← refunds_each ids r.id entries
    others_keep (others 4) (keep 4)
    count ← commits (
        updates_rounds start (λ s. is_round r.id s && has_status cancellable_round_statuses s)
          (set_cancelled now)
          (λ s h. cancels now s (
            cancellable s
              (and_both (is_round r.id s) (has_status cancellable_round_statuses s) h).1)))
    others_keep (others 5) (keep 5)
    checks_cancelled count r.id
    others_keep (others 6) (keep 6)
    final ← commits (finds_round_or_throw start r.id)
    dones (to_round_cancellation_result final refunds false)

  stops_and_cancels :
      (env : Env) (ids : String → String) (now : ℤ) (current : Round)
      → Holds (Kept start) (stop_and_cancel env ids now others current)
  unfolding stop_and_cancel
  stops_and_cancels env ids now current = do
    count ← commits (
        updates_rounds start (λ s. is_round current.id s && status_eq s.status open_round)
          (set_locked now) (λ s h. locks now (is_round current.id s) s h))
    others_keep (others 1) (keep 1)
    next ← commits (finds_round_or_throw start current.id)
    either (count == 1) (cancels_stopped env ids now next) (
        either (status_eq next.status cancelled) (dones (to_round_cancellation_result next [] true))
          (either (not (has_status cancellable_round_statuses next))
            (fails (bad_request "Round changed while cancellation was starting. Retry cancel."))
            (cancels_stopped env ids now next)))

  answers_cancelled : (r : Option Round) → Holds (Kept start) (already_cancelled r)
  answers_cancelled none = fails (bad_request "Room does not have a cancellable round.")
  answers_cancelled (some r) = dones (to_round_cancellation_result r [] true)

  pub cancels_current :
      (env : Env) (ids : String → String) (now : ℤ) (room_id : String)
      → Holds (Kept start) (cancel_current_round_for_room env ids now others room_id)
  unfolding cancel_current_round_for_room
  cancels_current env ids now room_id = do
    fails_if (is_empty room_id) (bad_request "roomId is required.")
    found ← commits (finds_latest start (in_room room_id cancellable_round_statuses))
    others_keep (others 0) (keep 0)
    cases_option found
        (do
          before ← commits (finds_latest start (in_room room_id (cancelled ∷ [])))
          answers_cancelled before)
        (λ current.
          either (status_eq current.status open_round) (stops_and_cancels env ids now current)
            (cancels_stopped env ids now current))
