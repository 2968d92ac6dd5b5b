-- ===== src/Entries/RaceTests.antt =====
-- Placements whose snapshot is older than the database that they write to, and a placement in a
-- sequence of requests.
use kingspin.Prelude.{ℕ, List, ◌≡◌, refl, true, false, [], ◌∷◌, some, none, ◌==◌, if◌then◌else◌}
use kingspin.Prelude.Int.{pos, ◌+ℤ◌, ◌-ℤ◌}
use kingspin.Prelude.Text.{to_string}
use kingspin.Prelude.Result.{ok}
use kingspin.Store.Tables.{entry_hold, debit, Round, Entry, LedgerTransaction, Db}
use kingspin.Store.Queries.{entry_of}
use kingspin.Engine.Machine.{locked}
use kingspin.Prelude.Trim.{trim}
use kingspin.Engine.Draw.{is_safe_integer, max_safe_integer}
use kingspin.Entries.{Placement}
use kingspin.Entries.Request.{request_rows, tx_matches, target_entry_id}
use kingspin.Entries.Rules.{held_entry_mismatch}
use kingspin.Entries.Statement.{writable_request, top_up}
use kingspin.Entries.Ledger.{apply_hold, applied_fields}
use kingspin.Entries.Place.{write_entry_placement_in_transaction}
use kingspin.Entries.Handler.{place_entry_for_user}
use kingspin.Store.Sound.{IsSound}
use kingspin.Rounds.Rows.{Env}
use kingspin.Rounds.History.{Follows}
use kingspin.Rounds.Requests.{
  Request, lock, cancel, place, serve, serve_all, serve-Kept, requests-IsSound,
}
use kingspin.Entries.Tests.{
  db-IsSound, player, current, opening, db, bet, paid, placed, after_bet, request, answer,
}

-- Another request with the same key commits between the snapshot and the writes: the debit is rolled
-- back, and the entry that is there is the answer.
race_runs :
    place_entry_for_user none (λ i d. if i == 1 then after_bet else d) request db
    ≡ (ok (record answer { reused = true }), after_bet)
unfolding place_entry_for_user ◌+ℤ◌ ◌-ℤ◌ writable_request tx_matches request_rows
    held_entry_mismatch to_string is_safe_integer max_safe_integer trim
race_runs = refl

abbrev locked_round : Round
locked_round = record current { status = locked; locked_at = some (pos 1001) }

-- The round was locked after the snapshot: the entry is placed all the same, without tickets.
late_runs :
    write_entry_placement_in_transaction bet db (record db { rounds = locked_round ∷ [] })
    ≡ ok (answer, record after_bet { rounds = locked_round ∷ [] })
unfolding write_entry_placement_in_transaction ◌+ℤ◌ ◌-ℤ◌ writable_request tx_matches request_rows
    held_entry_mismatch
late_runs = refl

-- A hold of an entry that was not written yet.
abbrev held : LedgerTransaction
held = record {
  id = "t2";
  type = entry_hold;
  reference_type = some "ENTRY";
  reference_id = some "e1";
  idempotency_key = "k1";
  metadata =
      ("userId", "u1")
      ∷ ("roundId", "r1")
      ∷ ("entryId", "e1")
      ∷ ("amount", "100")
      ∷ ("walletAccountId", "w1")
      ∷ ("holdState", "HELD")
      ∷ [];
  entries = entry_of debit (pos 100) paid ∷ [];
}

abbrev held_db : Db
held_db = record db { wallets = paid ∷ []; ledger = opening ∷ held ∷ [] }

abbrev applied : Entry → LedgerTransaction → LedgerTransaction
applied e t = apply_hold (applied_fields bet "r1" "w1" e (pos 0)) "e1" t

abbrev held_answer : Entry → Placement
held_answer e = record {
  entry = e;
  player = player;
  wallet = paid;
  round = current;
  reused = false;
}

abbrev once : Db
once = record held_db { ledger = opening ∷ applied placed held ∷ []; round_entries = placed ∷ [] }

held_runs : write_entry_placement_in_transaction bet held_db held_db ≡ ok (held_answer placed, once)
unfolding write_entry_placement_in_transaction ◌+ℤ◌ ◌-ℤ◌ writable_request tx_matches request_rows
    held_entry_mismatch to_string target_entry_id
held_runs = refl

-- A second retry, whose snapshot is that of the first, adds the amount of the one hold again.
held_twice_runs :
    write_entry_placement_in_transaction bet held_db once
    ≡ ok (
      held_answer (top_up (pos 100) placed),
      record held_db {
        ledger = opening ∷ applied (top_up (pos 100) placed) (applied placed held) ∷ [];
        round_entries = top_up (pos 100) placed ∷ [];
      },
    )
unfolding write_entry_placement_in_transaction ◌+ℤ◌ ◌-ℤ◌ writable_request tx_matches request_rows
    held_entry_mismatch to_string target_entry_id
held_twice_runs = refl

abbrev env : Env
env = record {
  sha256 = λ s. s;
  hmac = λ k s. k;
  sorts_before = λ a b. true;
  platform_fee_bps = pos 500;
}

-- The round is cancelled in the gaps of its lock.
abbrev others : ℕ → Db → Db
others i d = serve env (λ j e. e) (cancel (λ id. id) (pos 70000) "room1") d

-- An entry is placed, and then the round is locked.
abbrev requests : List (Request × (ℕ → Db → Db))
requests = (place none request, λ i d. d) ∷ (lock (pos 60000) "room1", others) ∷ []

requests-IsSound_example :
    IsSound (serve_all env requests db) × Follows db.rounds (serve_all env requests db).rounds
requests-IsSound_example =
    requests-IsSound env requests db
      (
        λ start i d h. h,
        (
          λ start i d h.
              serve-Kept start env (λ j e. e) (cancel (λ id. id) (pos 70000) "room1") d (λ j e k. k)
                h,
          tt,
        ),
      )
      db-IsSound
