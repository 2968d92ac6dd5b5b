-- ===== src/Rounds/KeptSteps.antt =====
-- The operations on the current round keep the money sound and move rounds along the state machine,
-- whatever other requests that do so commit between their statements.
use kingspin.Prelude.{
  ℕ, refl, true, false, not, ◌&&◌, ◌||◌, String, List, [], ◌∷◌, Option, none, some, ltb, ◌==◌,
}
use kingspin.Prelude.Int.{ℤ, pos, leb_ℤ}
use kingspin.Prelude.Lists.{any, length}
use kingspin.Prelude.Text.{is_empty}
use kingspin.Prelude.Result.{bad_request}
use kingspin.Store.Tables.{Round, Entry, Db}
use kingspin.Store.Invariant.Holds.{
  Holds, ◌>>=◌, ◌>>◌, commits, dones, fails_if, needs, lifts, others_keep, either,
}
use kingspin.Engine.Machine.{
  open_round, locked, drawing, spinning, settling, status_eq, can_transition_round,
}
use kingspin.Engine.Proof.{is_truthy, text_or_empty}
use kingspin.Rounds.Rows.{Env, in_room, is_round}
use kingspin.Rounds.Lock.{lock_current_round_for_room}
use kingspin.Rounds.Draw.{prepare_draw, is_drawn}
use kingspin.Rounds.Advance.{
  lacks_range, already_drawn, draw_fresh, draw_current_round_for_room, has_draw, winner_of,
  set_spinning, was_spun, check_spun, start_spinning_current_round_for_room, set_settling,
  check_settling, start_settling_current_round_for_room,
}
use kingspin.Rounds.Kept.{
  Kept, finds_latest, finds_entries, finds_entry, finds_round_or_throw, updates_rounds,
}
use kingspin.Rounds.KeptTx.{and_both, moves, locks_tx, draws_tx}

module _ (start : List Round) (others : ℕ → Db → Db)
    (keep : (i : ℕ) (db : Db) → Kept start db → Kept start (others i db)) where
  pub locks_current :
      (env : Env) (now : ℤ) (room_id : String)
      → Holds (Kept start) (lock_current_round_for_room env now others room_id)
  unfolding lock_current_round_for_room
  locks_current env now room_id = do
    fails_if (is_empty room_id) (bad_request "roomId is required.")
    found ← commits (finds_latest start (in_room room_id (open_round ∷ [])))
    current ← needs found (bad_request "Room does not have an OPEN round to lock.")
    others_keep (others 0) (keep 0)
    final ← commits (locks_tx start env now current)
    others_keep (others 1) (keep 1)
    entries ← commits (finds_entries start env current.id)
    dones (final, entries)

  draws_fresh :
      (env : Env) (now : ℤ) (current : Round) (entries : List Entry)
      → Holds (Kept start) (draw_fresh env now others current entries)
  unfolding draw_fresh
  draws_fresh env now current entries = do
    data_of_draw ← lifts (prepare_draw env current entries)
    others_keep (others 1) (keep 1)
    commits (draws_tx start env now current entries data_of_draw)

  pub draws_current :
      (env : Env) (now : ℤ) (room_id : String)
      → Holds (Kept start) (draw_current_round_for_room env now others room_id)
  unfolding draw_current_round_for_room
  draws_current env now room_id = do
    fails_if (is_empty room_id) (bad_request "roomId is required.")
    found ← commits (finds_latest start (in_room room_id (locked ∷ drawing ∷ [])))
    current ← needs found (bad_request "Room does not have a LOCKED round ready to draw.")
    others_keep (others 0) (keep 0)
    entries ← commits (finds_entries start env current.id)
    fails_if (ltb (length entries) 2)
        (bad_request "Cannot draw a round with fewer than two entries.")
    fails_if (leb_ℤ current.total_entry_amount (pos 0))
        (bad_request "Cannot draw a round with zero total.")
    fails_if (any lacks_range entries)
        (bad_request "Cannot draw before ticket ranges are assigned. Lock the round first.")
    fails_if (not (is_truthy current.server_seed_reveal))
        (bad_request "Round is missing server seed reveal. Cannot draw safely.")
    either (is_drawn current) (dones (already_drawn current entries))
        (draws_fresh env now current entries)

  winners_of : (id : Option String) → Holds (Kept start) (winner_of id)
  winners_of none = dones none
  winners_of (some id) = either (is_empty id) (dones none) (commits (finds_entry start id))

  checks_spun : (count : ℕ) (id : String) → Holds (Kept start) (check_spun count id)
  checks_spun count id =
      either (not (count == 1))
        (do
          raced ← commits (finds_round_or_throw start id)
          fails_if (not (was_spun raced)) (
              bad_request "Round changed while starting SPINNING phase. Retry or review manually."))
        (dones tt)

  pub spins :
      (now : ℤ) (room_id : String)
      → Holds (Kept start) (start_spinning_current_round_for_room now others room_id)
  unfolding start_spinning_current_round_for_room can_transition_round
  spins now room_id = do
    fails_if (is_empty room_id) (bad_request "roomId is required.")
    found ←
        commits
          (finds_latest start (λ r. in_room room_id (drawing ∷ spinning ∷ []) r && has_draw r))
    current ← needs found (bad_request "Room does not have a DRAWING round ready to spin.")
    others_keep (others 0) (keep 0)
    either (status_eq current.status spinning)
        (do
          winner ← winners_of current.winner_entry_id
          dones (record { round = current; winner_entry = winner; reused = true }))
        (do
          count ← commits (
              updates_rounds start
                (λ r. is_round current.id r && status_eq r.status drawing && has_draw r)
                (set_spinning now)
                (λ r h. record {
                  same_id = refl;
                  same_room = refl;
                  same_number = refl;
                  same_seed = refl;
                  same_commitment = refl;
                  reached =
                      moves (is_round current.id r) r drawing spinning
                        (and_both (is_round current.id r && status_eq r.status drawing) (has_draw r)
                          h).0
                        refl;
                }))
          others_keep (others 1) (keep 1)
          checks_spun count current.id
          others_keep (others 2) (keep 2)
          spun ← commits (finds_round_or_throw start current.id)
          others_keep (others 3) (keep 3)
          winner ← winners_of spun.winner_entry_id
          dones (record { round = spun; winner_entry = winner; reused = false }))

  checks_settling : (count : ℕ) (id : String) → Holds (Kept start) (check_settling count id)
  checks_settling count id =
      either (not (count == 1))
        (do
          raced ← commits (finds_round_or_throw start id)
          fails_if (not (status_eq raced.status settling)) (
              bad_request "Round changed while starting SETTLING phase. Retry or review manually."))
        (dones tt)

  pub starts_settling :
      (now : ℤ) (room_id : String)
      → Holds (Kept start) (start_settling_current_round_for_room now others room_id)
  unfolding start_settling_current_round_for_room can_transition_round
  starts_settling now room_id = do
    fails_if (is_empty room_id) (bad_request "roomId is required.")
    found ←
        commits
          (finds_latest start (λ r. in_room room_id (spinning ∷ settling ∷ []) r && has_draw r))
    current ←
        needs found (bad_request "Room does not have a SPINNING round ready to start settlement.")
    fails_if (leb_ℤ current.payout_amount (pos 0))
        (bad_request "Round payout amount must be greater than zero.")
    fails_if (not (is_truthy current.winner_entry_id) || not (is_truthy current.winner_user_id))
        (bad_request "Round has no winner yet. Draw/spin the round before settlement.")
    others_keep (others 0) (keep 0)
    either (status_eq current.status settling)
        (do
          winner ← commits (finds_entry start (text_or_empty current.winner_entry_id))
          dones (record { round = current; winner_entry = winner; reused = true }))
        (do
          count ← commits (
              updates_rounds start
                (λ r. is_round current.id r && status_eq r.status spinning && has_draw r)
                (set_settling now)
                (λ r h. record {
                  same_id = refl;
                  same_room = refl;
                  same_number = refl;
                  same_seed = refl;
                  same_commitment = refl;
                  reached =
                      moves (is_round current.id r) r spinning settling
                        (and_both (is_round current.id r && status_eq r.status spinning)
                          (has_draw r) h).0
                        refl;
                }))
          others_keep (others 1) (keep 1)
          checks_settling count current.id
          others_keep (others 2) (keep 2)
          next ← commits (finds_round_or_throw start current.id)
          others_keep (others 3) (keep 3)
          winner ← commits (finds_entry start (text_or_empty current.winner_entry_id))
          dones (record { round = next; winner_entry = winner; reused = false }))
