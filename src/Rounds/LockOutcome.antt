-- ===== src/Rounds/LockOutcome.antt =====
-- What a committed lock has done.
use kingspin.Prelude.{◌≡◌, false, ◌&&◌, String, List, map, some, ltb, arith, inl, inr, Option-cases}
use kingspin.Prelude.Int.{ℤ, pos}
use kingspin.Prelude.Lists.{find, length}
use kingspin.Prelude.Result.{ok, Result-cases}
use kingspin.Store.Tables.{Round, Entry, Db}
use kingspin.Engine.Machine.{open_round, status_eq}
use kingspin.Engine.EntriesHash.{FairnessEntry, calculate_entries_hash}
use kingspin.Rounds.Rows.{
  Env, change, is_round, update_rounds, update_round, entries_in, find_entries, find_round,
  find_round_or_throw, to_fairness_entries,
}
use kingspin.Rounds.Tickets.{
  running, total_amount, assign, assign_tickets, set_locked, set_finals, lock_tx,
}

-- The rows of a lock: the round's entries with their tickets, and its row as it is found again.
abbrev pub assigned_rows : Env → String → Db → List Entry
assigned_rows env id db = map (assign (running (pos 0) (entries_in env id db))) db.round_entries

abbrev pub after_lock : Env → ℤ → String → Db → Db
after_lock env now id db = record db {
  rounds =
      map (change (λ r. is_round id r && status_eq r.status open_round) (set_locked now)) db.rounds;
  round_entries = assigned_rows env id db;
}

pub record IsLocked (env : Env) (now : ℤ) (current : Round) (db : Db) (r : Round) (next : Db)
    : Type 0 where
  pub entries : List FairnessEntry
  pub hash : String
  pub old : Round
  pub listed :
      to_fairness_entries (entries_in env current.id (after_lock env now current.id db))
      ≡ ok entries
  pub hashed : calculate_entries_hash env.sha256 entries ≡ ok hash
  pub found : find (is_round current.id) (after_lock env now current.id db).rounds ≡ some old
  pub row :
      r
      ≡ set_finals env current
          (total_amount (running (pos 0) (entries_in env current.id db)))
          hash
          old
  pub rows : next.round_entries ≡ assigned_rows env current.id db
  pub enough : ltb (length (running (pos 0) (entries_in env current.id db))) 2 ≡ false

pub lock_cases :
    (env : Env) (now : ℤ) (current : Round) (db : Db) (r : Round) (next : Db)
    → lock_tx env now current db ≡ ok (r, next)
    → IsLocked env now current db r next
unfolding lock_tx assign_tickets update_rounds update_round find_round_or_throw find_round
    find_entries
lock_cases env now current db r next h =
    let es = entries_in env current.id (after_lock env now current.id db) in
    let as1 = running (pos 0) (entries_in env current.id db) in
    elim (Result-cases (to_fairness_entries es)) [
      | inr (e, q) ↦ ground arith
      | inl (fs, q) ↦ elim (Result-cases (calculate_entries_hash env.sha256 fs)) [
        | inr (e, k) ↦ ground arith
        | inl (hash, k) ↦
            elim (Option-cases
              (find (is_round current.id) (after_lock env now current.id db).rounds)) [
                | inl missing ↦ ground arith
                | inr (old, f) ↦ record {
                  entries = fs;
                  hash = hash;
                  old = old;
                  listed = q;
                  hashed = k;
                  found = f;
                  row = ground arith;
                  rows = ground arith;
                  enough = ground arith;
                }
              ]
      ]
    ]
