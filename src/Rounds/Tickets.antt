-- ===== src/Rounds/Tickets.antt =====
-- The transaction that locks a round (apps/api/src/modules/rounds/rounds.service.ts): no more entries,
-- and every entry gets its tickets.
use kingspin.Prelude.{
  ℕ, not, ◌&&◌, String, List, [], ◌∷◌, map, Option, none, some, ltb, ◌==◌, if◌then◌else◌,
}
use kingspin.Prelude.Int.{ℤ, pos, ◌+ℤ◌, ◌-ℤ◌, ltb_ℤ, ◌==ℤ◌}
use kingspin.Prelude.Lists.{find, length}
use kingspin.Prelude.Text.{str_eq}
use kingspin.Prelude.Result.{bad_request}
use kingspin.Store.Tables.{Round, Entry}
use kingspin.Store.Tx.{Tx, ◌>>=◌, ◌>>◌, pure, throw_if, gets, modify, lift}
use kingspin.Engine.Machine.{open_round, locked, status_eq}
use kingspin.Engine.Draw.{fairness_algorithm}
use kingspin.Engine.EntriesHash.{calculate_entries_hash}
use kingspin.Rounds.Rows.{
  Env, is_round, update_rounds, update_round, entries_in, find_entries, to_fairness_entries,
}

-- A row of the common table `ordered`.
pub record Assignment : Type 0 where
  pub entry_id : String
  pub first_ticket : ℤ
  pub last_ticket : ℤ

-- The running sums over the ordered entries: those before an entry, and those up to it less one.
abbrev pub running : ℤ → List Entry → List Assignment
running sum [] = []
running sum (e ∷ es) =
    record { entry_id = e.id; first_ticket = sum; last_ticket = sum +ℤ e.amount -ℤ pos 1 }
    ∷ running (sum +ℤ e.amount) es

-- `COALESCE(MAX("ticketEnd") + 1, 0)`
abbrev pub max_last : Assignment → List Assignment → ℤ
max_last a [] = a.last_ticket
max_last a (b ∷ bs) =
    let rest = max_last b bs in if ltb_ℤ rest a.last_ticket then a.last_ticket else rest

abbrev pub total_amount : List Assignment → ℤ
total_amount [] = pos 0
total_amount (a ∷ rest) = max_last a rest +ℤ pos 1

-- The `UPDATE … FROM ordered`.
abbrev pub assign : List Assignment → Entry → Entry
assign rows e = elim (find (λ a. str_eq a.entry_id e.id) rows) [
  | none ↦ e
  | some a ↦ record e { ticket_start = some a.first_ticket; ticket_end = some a.last_ticket }
]

-- The statement that assigns the tickets: the number of entries, and the total.
unfoldable pub assign_tickets : Env → String → Tx (ℕ × ℤ)
assign_tickets env round_id = do
  ordered ← gets λ db. running (pos 0) (entries_in env round_id db)
  modify λ db. record db { round_entries = map (assign ordered) db.round_entries }
  pure (length ordered, total_amount ordered)

abbrev pub or_env : Env → Option ℤ → ℤ
or_env env none = env.platform_fee_bps
or_env env (some bps) = bps

abbrev pub set_locked : ℤ → Round → Round
set_locked now r = record r { status = locked; locked_at = some now }

abbrev pub set_finals : Env → Round → ℤ → String → Round → Round
set_finals env current total hash r = record r {
  total_entry_amount = total;
  house_fee_amount = pos 0;
  payout_amount = total;
  platform_fee_bps = some (or_env env current.platform_fee_bps);
  fairness_algorithm = some fairness_algorithm;
  entries_hash = some hash;
}

unfoldable pub lock_tx : Env → ℤ → Round → Tx Round
lock_tx env now current = do
  count ←
      update_rounds (λ r. is_round current.id r && status_eq r.status open_round) (set_locked now)
  throw_if (not (count == 1)) (bad_request "Round is no longer OPEN.")
  assignment ← assign_tickets env current.id
  throw_if (ltb assignment.0 2) (bad_request "Cannot lock a round with fewer than two entries.")
  entries ← find_entries env current.id
  fairness ← lift (to_fairness_entries entries)
  hash ← lift (calculate_entries_hash env.sha256 fairness)
  updated ← update_round current.id (set_finals env current assignment.1 hash)
  throw_if (not (assignment.1 ==ℤ updated.total_entry_amount))
      (bad_request "Ticket assignment mismatch. Round total does not equal assigned tickets.")
  pure updated
