-- ===== src/Entries/Tests.antt =====
-- Placements in a room with one open round, by a player with a balance of 1000.
use kingspin.Prelude.{◌≡◌, refl, true, false, [], ◌∷◌, some, none, arith}
use kingspin.Prelude.Int.{pos, ◌+ℤ◌, ◌-ℤ◌}
use kingspin.Prelude.Result.{ok}
use kingspin.Store.Tables.{
  main, admin_credit, credit, active, flexible_proportional, User, Category, Room, Round, Entry,
  WalletAccount, LedgerTransaction, Db,
}
use kingspin.Store.Queries.{entry_of}
use kingspin.Store.Sound.{IsSound}
use kingspin.Engine.Machine.{open_round}
use kingspin.Entries.{PlacementArgs, Placement}
use kingspin.Prelude.Text.{to_string}
use kingspin.Prelude.Lists.{find}
use kingspin.Rounds.Rows.{is_round}
use kingspin.Entries.Status.{shown_round, replay_entry, replay_round}
use kingspin.Entries.Replay.{retried, placement-replay}
use kingspin.Entries.Accepted.{placement-succeeds}
use kingspin.Entries.Handler.{EntryRequest, integer, place_entry_for_user}
use kingspin.Entries.Kept.{place_entry-IsSound}
use kingspin.Entries.Effect.{placement-effect}
use kingspin.Entries.Outcome.{IsPlaced}
use kingspin.Entries.Limits.{IsAdmitted, placement-IsAdmitted}
use kingspin.Entries.Request.{request_rows, tx_matches}
use kingspin.Entries.Rules.{held_entry_mismatch}
use kingspin.Entries.Statement.{writable_request, new_entry}
use kingspin.Entries.Ledger.{hold_transaction}
use kingspin.Entries.Place.{write_entry_placement_in_transaction}

abbrev pub player : User
player = record { id = "u1"; email = "a@b.c"; username = "abel"; full_name = "Abel B." }

abbrev category : Category
category = record {
  id = "c1";
  min_entry_amount = pos 10;
  max_entry_amount = pos 500;
  is_active = true;
}

abbrev room : Room
room = record {
  id = "room1";
  category_id = "c1";
  status = active;
  game_mode = flexible_proportional;
  fixed_entry_amount = none;
  round_duration_ms = pos 45000;
}

abbrev pub current : Round
current = record {
  id = "r1";
  room_id = "room1";
  round_number = pos 7;
  status = open_round;
  opened_at = pos 0;
  locks_at = some (pos 60000);
  locked_at = none;
  drawing_at = none;
  spinning_at = none;
  settling_at = none;
  completed_at = none;
  cancelled_at = none;
  total_entry_amount = pos 0;
  house_fee_amount = pos 0;
  payout_amount = pos 0;
  platform_fee_bps = some (pos 500);
  server_seed_hash = none;
  server_seed_reveal = none;
  fairness_algorithm = none;
  entries_hash = none;
  draw_hash = none;
  draw_nonce = none;
  winning_ticket = none;
  winner_user_id = none;
  winner_entry_id = none;
  spin_angle = none;
  idempotency_key = none;
}

abbrev pub wallet : WalletAccount
wallet = record { id = "w1"; user_id = some "u1"; type = main; balance = pos 1000 }

abbrev pub opening : LedgerTransaction
opening = record {
  id = "t1";
  type = admin_credit;
  reference_type = some "ADMIN_DEV_CREDIT";
  reference_id = some "u1";
  idempotency_key = "opening";
  metadata = [];
  entries = entry_of credit (pos 1000) wallet ∷ [];
}

abbrev pub db : Db
db = record {
  wallets = wallet ∷ [];
  ledger = opening ∷ [];
  withdrawals = [];
  users = player ∷ [];
  categories = category ∷ [];
  rooms = room ∷ [];
  rounds = current ∷ [];
  round_entries = [];
}

abbrev pub bet : PlacementArgs
bet = record {
  room_id = "room1";
  user_id = "u1";
  amount = pos 100;
  idempotency_key = "k1";
  request_accepted_at = pos 1000;
  entry_id = "e1";
  ledger_transaction_id = "t2";
  now = pos 1001;
}

abbrev pub paid : WalletAccount
paid = record wallet { balance = pos 900 }

abbrev pub placed : Entry
placed = new_entry bet "r1" "e1"

abbrev pub after_bet : Db
after_bet = record db {
  wallets = paid ∷ [];
  ledger = opening ∷ hold_transaction bet "r1" paid placed (pos 0) ∷ [];
  round_entries = placed ∷ [];
}

bet_runs :
    write_entry_placement_in_transaction bet db db
    ≡ ok (
      record { entry = placed; player = player; wallet = paid; round = current; reused = false },
      after_bet,
    )
unfolding write_entry_placement_in_transaction ◌+ℤ◌ ◌-ℤ◌ writable_request tx_matches request_rows
    held_entry_mismatch
bet_runs = refl

-- The same request again answers the same entry, and changes nothing.
bet_again_runs :
    write_entry_placement_in_transaction bet after_bet after_bet
    ≡ ok (
      record {
        entry = placed;
        player = player;
        wallet = paid;
        round = record current { total_entry_amount = pos 100; payout_amount = pos 100 };
        reused = true;
      },
      after_bet,
    )
unfolding write_entry_placement_in_transaction ◌+ℤ◌ ◌-ℤ◌ writable_request tx_matches request_rows
    to_string replay_entry replay_round
bet_again_runs = refl

pub db-IsSound : IsSound db
unfolding ◌+ℤ◌ ◌-ℤ◌
db-IsSound = record {
  balanced = (refl, tt);
  solvent = (omega arith, tt);
  known = ((refl, tt), tt);
  amounts = ((omega arith, tt), tt);
  unique_keys = (refl, tt);
  unique_ids = (refl, tt);
}

abbrev pub request : EntryRequest
request = record {
  room_id = "room1";
  user_id = "u1";
  raw_amount = integer (pos 100);
  idempotency_key = some " k1 ";
  accepted_at = pos 1000;
  now = pos 1001;
  random_key = "x";
  entry_id = "e1";
  ledger_transaction_id = "t2";
}

place_entry-IsSound_example : IsSound (place_entry_for_user none (λ i d. d) request db).1
place_entry-IsSound_example = place_entry-IsSound none (λ i d. d) request db (λ i d s. s) db-IsSound

abbrev pub answer : Placement
answer = record { entry = placed; player = player; wallet = paid; round = current; reused = false }

placement-effect_example : IsPlaced bet db db answer after_bet
placement-effect_example = placement-effect bet db db answer after_bet refl bet_runs

placement-IsAdmitted_example : IsAdmitted bet db answer
placement-IsAdmitted_example = placement-IsAdmitted bet db db answer after_bet tt refl bet_runs

placement-replay_example :
    (r : Round) × (find (is_round "r1") db.rounds ≡ some r)
    × (write_entry_placement_in_transaction
          (retried bet (pos 2000) (pos 2001) "e7" "t7")
          after_bet
          after_bet
        ≡ ok (record answer { round = shown_round after_bet r; reused = true }, after_bet))
placement-replay_example =
    placement-replay bet (pos 2000) (pos 2001) "e7" "t7" db answer after_bet db-IsSound tt
      (refl, tt) refl bet_runs

placement-succeeds_example :
    (p : Placement) × (n : Db) × (write_entry_placement_in_transaction bet db db ≡ ok (p, n))
    × (p.reused ≡ false)
unfolding request_rows
placement-succeeds_example =
    placement-succeeds bet db player current wallet refl refl refl (omega arith) refl refl refl refl
      refl refl refl tt
