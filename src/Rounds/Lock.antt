-- ===== src/Rounds/Lock.antt =====
-- The locking of a round (apps/api/src/modules/rounds/rounds.service.ts). `others i` is what other
-- requests commit between two statements of this one; a transaction is one step. The rows are
-- returned as they are: the snapshots of the source only print them.
use kingspin.Prelude.{ℕ, String, List, [], ◌∷◌}
use kingspin.Prelude.Int.{ℤ}
use kingspin.Prelude.Text.{is_empty}
use kingspin.Prelude.Result.{bad_request}
use kingspin.Store.Tables.{Round, Entry, Db}
use kingspin.Store.Tx.{commit}
use kingspin.Store.Service.{Service, ◌>>=◌, ◌>>◌, meanwhile, fail_if, need, done}
use kingspin.Engine.Machine.{open_round}
use kingspin.Rounds.Rows.{Env, in_room, find_latest_round, find_entries}
use kingspin.Rounds.Tickets.{lock_tx}

unfoldable pub lock_current_round_for_room :
    Env → ℤ → (ℕ → Db → Db) → String → Service (Round × List Entry)
unfolding find_latest_round lock_tx find_entries
lock_current_round_for_room env now others room_id = do
  fail_if (is_empty room_id) (bad_request "roomId is required.")
  found ← commit (find_latest_round (in_room room_id (open_round ∷ [])))
  current ← need found (bad_request "Room does not have an OPEN round to lock.")
  meanwhile (others 0)
  final ← commit (lock_tx env now current)
  meanwhile (others 1)
  entries ← commit (find_entries env current.id)
  done (final, entries)
