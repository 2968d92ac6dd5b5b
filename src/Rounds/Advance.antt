-- ===== src/Rounds/Advance.antt =====
-- The steps of a round from the draw to the settlement (apps/api/src/modules/rounds/rounds.service.ts).
-- `others i` is what other requests commit between two statements of one step.
use kingspin.Prelude.{
  ℕ, Bool, true, false, not, ◌&&◌, ◌||◌, String, List, [], ◌∷◌, Option, none, some, ltb, ◌==◌,
  if◌then◌else◌, is_some,
}
use kingspin.Prelude.Int.{ℤ, pos, leb_ℤ}
use kingspin.Prelude.Lists.{find, any, length}
use kingspin.Prelude.Text.{is_empty}
use kingspin.Prelude.Result.{bad_request}
use kingspin.Store.Tables.{Round, Entry, Db}
use kingspin.Store.Tx.{commit}
use kingspin.Store.Service as Service
use kingspin.Store.Service.{Service, ◌>>=◌, ◌>>◌, meanwhile, fail_if, need, done, fail}
use kingspin.Engine.Machine.{locked, drawing, spinning, settling, status_eq}
use kingspin.Engine.Proof.{is_truthy, text_or_empty}
use kingspin.Rounds.Rows.{
  Env, in_room, is_round, has_entry_id, find_latest_round, find_round_or_throw, update_rounds,
  find_entries, find_entry,
}
use kingspin.Rounds.Draw.{DrawResult, prepare_draw, draw_tx, is_drawn}

abbrev pub lacks_range : Entry → Bool
lacks_range e = not (is_some e.ticket_start) || not (is_some e.ticket_end)

unfoldable pub draw_fresh : Env → ℤ → (ℕ → Db → Db) → Round → List Entry → Service DrawResult
unfolding prepare_draw draw_tx
draw_fresh env now others current entries = do
  data_of_draw ← Service.lift (prepare_draw env current entries)
  meanwhile (others 1)
  commit (draw_tx env now current entries data_of_draw)

abbrev names : Option String → Entry → Bool
names none e = false
names (some id) e = has_entry_id id e

-- A draw that was stored before is answered again.
abbrev pub already_drawn : Round → List Entry → DrawResult
already_drawn current entries = record {
  round = current;
  winner_entry = find (names current.winner_entry_id) entries;
  entries = entries;
  reused = true;
}

unfoldable pub draw_current_round_for_room : Env → ℤ → (ℕ → Db → Db) → String → Service DrawResult
unfolding find_latest_round find_entries draw_fresh
draw_current_round_for_room env now others room_id = do
  fail_if (is_empty room_id) (bad_request "roomId is required.")
  found ← commit (find_latest_round (in_room room_id (locked ∷ drawing ∷ [])))
  current ← need found (bad_request "Room does not have a LOCKED round ready to draw.")
  meanwhile (others 0)
  entries ← commit (find_entries env current.id)
  fail_if (ltb (length entries) 2) (bad_request "Cannot draw a round with fewer than two entries.")
  fail_if (leb_ℤ current.total_entry_amount (pos 0))
      (bad_request "Cannot draw a round with zero total.")
  fail_if (any lacks_range entries)
      (bad_request "Cannot draw before ticket ranges are assigned. Lock the round first.")
  fail_if (not (is_truthy current.server_seed_reveal))
      (bad_request "Round is missing server seed reveal. Cannot draw safely.")
  if is_drawn current
      then done (already_drawn current entries)
      else draw_fresh env now others current entries

-- `{ not: null }` on the columns that a draw sets.
abbrev pub has_draw : Round → Bool
has_draw r =
    is_some r.winning_ticket
    && is_some r.winner_entry_id
    && is_some r.winner_user_id
    && is_some r.spin_angle

pub record StepResult : Type 0 where
  pub round : Round
  pub winner_entry : Option Entry
  pub reused : Bool

-- The winner's entry, which is read where the round names one.
abbrev pub winner_of : Option String → Service (Option Entry)
winner_of none = done none
winner_of (some id) = if is_empty id then done none else commit (find_entry id)

abbrev pub set_spinning : ℤ → Round → Round
set_spinning now r = record r { status = spinning; spinning_at = some now }

-- `racedRound` is in the phase, with its draw.
abbrev pub was_spun : Round → Bool
was_spun r =
    status_eq r.status spinning
    && is_some r.winning_ticket
    && is_truthy r.winner_entry_id
    && is_truthy r.winner_user_id
    && is_some r.spin_angle

abbrev pub check_spun : ℕ → String → Service Unit
check_spun count id =
    if not (count == 1)
    then (do
      raced ← commit (find_round_or_throw id)
      fail_if (not (was_spun raced))
          (bad_request "Round changed while starting SPINNING phase. Retry or review manually."))
    else done tt

unfoldable pub start_spinning_current_round_for_room :
    ℤ → (ℕ → Db → Db) → String → Service StepResult
unfolding find_latest_round find_entry update_rounds find_round_or_throw
start_spinning_current_round_for_room now others room_id = do
  fail_if (is_empty room_id) (bad_request "roomId is required.")
  found ←
      commit (find_latest_round (λ r. in_room room_id (drawing ∷ spinning ∷ []) r && has_draw r))
  current ← need found (bad_request "Room does not have a DRAWING round ready to spin.")
  meanwhile (others 0)
  if status_eq current.status spinning
      then (do
        winner ← winner_of current.winner_entry_id
        done (record { round = current; winner_entry = winner; reused = true }))
      else (do
        count ← commit (
            update_rounds (λ r. is_round current.id r && status_eq r.status drawing && has_draw r)
              (set_spinning now))
        meanwhile (others 1)
        check_spun count current.id
        meanwhile (others 2)
        spun ← commit (find_round_or_throw current.id)
        meanwhile (others 3)
        winner ← winner_of spun.winner_entry_id
        done (record { round = spun; winner_entry = winner; reused = false }))

abbrev pub set_settling : ℤ → Round → Round
set_settling now r = record r { status = settling; settling_at = some now }

abbrev pub check_settling : ℕ → String → Service Unit
check_settling count id =
    if not (count == 1)
    then (do
      raced ← commit (find_round_or_throw id)
      fail_if (not (status_eq raced.status settling))
          (bad_request "Round changed while starting SETTLING phase. Retry or review manually."))
    else done tt

unfoldable pub start_settling_current_round_for_room :
    ℤ → (ℕ → Db → Db) → String → Service StepResult
unfolding find_latest_round find_entry update_rounds find_round_or_throw
start_settling_current_round_for_room now others room_id = do
  fail_if (is_empty room_id) (bad_request "roomId is required.")
  found ←
      commit (find_latest_round (λ r. in_room room_id (spinning ∷ settling ∷ []) r && has_draw r))
  current ←
      need found (bad_request "Room does not have a SPINNING round ready to start settlement.")
  fail_if (leb_ℤ current.payout_amount (pos 0))
      (bad_request "Round payout amount must be greater than zero.")
  fail_if (not (is_truthy current.winner_entry_id) || not (is_truthy current.winner_user_id))
      (bad_request "Round has no winner yet. Draw/spin the round before settlement.")
  meanwhile (others 0)
  if status_eq current.status settling
      then (do
        winner ← commit (find_entry (text_or_empty current.winner_entry_id))
        done (record { round = current; winner_entry = winner; reused = true }))
      else (do
        count ← commit (
            update_rounds (λ r. is_round current.id r && status_eq r.status spinning && has_draw r)
              (set_settling now))
        meanwhile (others 1)
        check_settling count current.id
        meanwhile (others 2)
        next ← commit (find_round_or_throw current.id)
        meanwhile (others 3)
        winner ← commit (find_entry (text_or_empty current.winner_entry_id))
        done (record { round = next; winner_entry = winner; reused = false }))
