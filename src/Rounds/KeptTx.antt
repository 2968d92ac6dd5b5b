-- ===== src/Rounds/KeptTx.antt =====
-- The transactions on rounds keep the money sound and move rounds along the state machine. Each proof
-- follows the statements of its transaction.
use kingspin.Prelude.{
  ℕ, ◌≡◌, refl, Bool, true, false, not, ◌&&◌, String, List, map, some, ltb, ◌==◌, arith,
}
use kingspin.Prelude.Int.{ℤ, pos, ◌==ℤ◌, ◌+ℤ◌}
use kingspin.Prelude.Lists.{find, length}
use kingspin.Prelude.Text.{str_eq}
use kingspin.Prelude.Result.{bad_request, not_found, conflict, record_not_found}
use kingspin.Store.Tables.{Round, Entry}
use kingspin.Store.Invariant.InTx.{
  InTx, ◌>>=◌, ◌>>◌, pures, throws, throws_if, needs, reads, lifts, cases_option, either,
}
use kingspin.Engine.Machine.{
  RoundStatus, open_round, locked, drawing, status_eq, can_transition_round,
}
use kingspin.Engine.Machine.Paths.{Run}
use kingspin.Engine.EntriesHash.{calculate_entries_hash}
use kingspin.Rounds.Rows.{
  Env, is_round, in_room, active_round_statuses, entries_in, has_entry_id, to_fairness_entries,
}
use kingspin.Rounds.Tickets.{
  running, total_amount, assign, assign_tickets, set_locked, set_finals, lock_tx,
}
use kingspin.Rounds.Open.{
  Fresh, new_round, create_open_round_for_room_tx, number_or_zero,
  find_or_create_open_round_for_room_tx, is_active, require_active_room,
}
use kingspin.Rounds.Draw.{
  DrawData, is_drawn, set_drawn, mark_winner, update_winner, raced_draw, stored_draw, draw_tx,
}
use kingspin.Rounds.History.{IsLater, IsLater-refl, one_step}
use kingspin.Rounds.Kept.{
  Kept, finds_latest, finds_room, finds_entries, finds_round_or_throw, updates_rounds,
  updates_round, changes_entries, creates_round,
}

pub and_both : (a b : Bool) → (a && b) ≡ true → (a ≡ true) × (b ≡ true)
and_both true b h = (refl, h)
and_both false b h = cc

pub status_of : (s t : RoundStatus) → status_eq s t ≡ true → s ≡ t
status_of s t h = ground arith

-- A transition that the table allows from the status that a statement asks for.
pub moves :
    (p : Bool) (r : Round) (from to : RoundStatus)
    → (p && status_eq r.status from) ≡ true
    → can_transition_round from to ≡ true
    → (n : ℕ) × Run r.status n to
moves p r from to h k =
    one_step r.status to (rw (status_of r.status from (and_both p (status_eq r.status from) h).1) k)

pub locks :
    (now : ℤ) (p : Bool) (r : Round)
    → (p && status_eq r.status open_round) ≡ true
    → IsLater r (set_locked now r)
unfolding can_transition_round
locks now p r h = record {
  same_id = refl;
  same_room = refl;
  same_number = refl;
  same_seed = refl;
  same_commitment = refl;
  reached = moves p r open_round locked h refl;
}

draws :
    (now : ℤ) (d : DrawData) (p : Bool) (r : Round)
    → (p && status_eq r.status locked) ≡ true
    → IsLater r (set_drawn now d r)
unfolding can_transition_round
draws now d p r h = record {
  same_id = refl;
  same_room = refl;
  same_number = refl;
  same_seed = refl;
  same_commitment = refl;
  reached = moves p r locked drawing h refl;
}

module _ (start : List Round) where
  assigns_tickets : (env : Env) (id : String) → InTx (Kept start) (assign_tickets env id)
  unfolding assign_tickets
  assigns_tickets env id = do
    ordered ← reads (λ db. running (pos 0) (entries_in env id db))
    changes_entries start (λ db. map (assign ordered) db.round_entries)
    pures (length ordered, total_amount ordered)

  pub locks_tx :
      (env : Env) (now : ℤ) (current : Round) → InTx (Kept start) (lock_tx env now current)
  unfolding lock_tx
  locks_tx env now current = do
    count ←
        updates_rounds start (λ r. is_round current.id r && status_eq r.status open_round)
          (set_locked now) (λ r h. locks now (is_round current.id r) r h)
    throws_if (not (count == 1)) (bad_request "Round is no longer OPEN.")
    assignment ← assigns_tickets env current.id
    throws_if (ltb assignment.0 2) (bad_request "Cannot lock a round with fewer than two entries.")
    entries ← finds_entries start env current.id
    fairness ← lifts (to_fairness_entries entries)
    hash ← lifts (calculate_entries_hash env.sha256 fairness)
    updated ← updates_round start current.id (set_finals env current assignment.1 hash) (λ r.
        record {
          same_id = refl;
          same_room = refl;
          same_number = refl;
          same_seed = refl;
          same_commitment = refl;
          reached = (IsLater-refl r).reached;
        })
    throws_if (not (assignment.1 ==ℤ updated.total_entry_amount))
        (bad_request "Ticket assignment mismatch. Round total does not equal assigned tickets.")
    pures updated

  updates_winner : (id : String) → InTx (Kept start) (update_winner id)
  unfolding update_winner
  updates_winner id = do
    found ← reads (λ db. find (has_entry_id id) db.round_entries)
    e ← needs found record_not_found
    changes_entries start (λ db. map (mark_winner id) db.round_entries)
    pures (record e { is_winner = true })

  races :
      (current : Round) (entries : List Entry) (d : DrawData)
      → InTx (Kept start) (raced_draw current entries d)
  races current entries d = do
    raced ← finds_round_or_throw start current.id
    either (is_drawn raced)
        (pures (record {
          round = raced;
          winner_entry = some d.winner;
          entries = entries;
          reused = true;
        }))
        (throws (bad_request "Round changed while drawing. Retry or review manually."))

  stores :
      (env : Env) (current : Round) (d : DrawData) → InTx (Kept start) (stored_draw env current d)
  stores env current d = do
    updated ← updates_winner d.winner.id
    final ← finds_round_or_throw start current.id
    entries ← finds_entries start env current.id
    winner ←
        needs (find (has_entry_id d.winner.id) entries)
          (bad_request "Winner entry disappeared after draw.")
    pures (record { round = final; winner_entry = some winner; entries = entries; reused = false })

  pub draws_tx :
      (env : Env) (now : ℤ) (current : Round) (entries : List Entry) (d : DrawData)
      → InTx (Kept start) (draw_tx env now current entries d)
  unfolding draw_tx
  draws_tx env now current entries d = do
    count ←
        updates_rounds start (λ r. is_round current.id r && status_eq r.status locked)
          (set_drawn now d) (λ r h. draws now d (is_round current.id r) r h)
    either (not (count == 1)) (races current entries d) (stores env current d)

  pub finds_or_creates :
      (env : Env) (fresh : Fresh) (room_id : String) (round_duration_ms : ℤ)
      → InTx
          (Kept start)
          (find_or_create_open_round_for_room_tx env fresh room_id round_duration_ms)
  unfolding find_or_create_open_round_for_room_tx create_open_round_for_room_tx
  finds_or_creates env fresh room_id round_duration_ms = do
    existing ← finds_latest start (in_room room_id active_round_statuses)
    cases_option existing
        (do
          last ← finds_latest start (λ r. str_eq r.room_id room_id)
          creates_round start
              (new_round env fresh room_id round_duration_ms (number_or_zero last +ℤ pos 1)))
        (λ r. pures r)

  pub requires_active_room :
      (has_lock : Bool) (room_id : String)
      → InTx (Kept start) (require_active_room has_lock room_id)
  unfolding require_active_room
  requires_active_room has_lock room_id = do
    throws_if (not has_lock) (conflict "Another round start is already running for this room.")
    found ← finds_room start room_id
    room ← needs found (not_found "Room not found.")
    throws_if (not (is_active room.status)) (bad_request "Only ACTIVE rooms can start rounds.")
    pures room
