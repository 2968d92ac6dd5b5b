-- ===== src/Rounds/LifeTests.antt =====
-- The life of a round with two entries: it is locked, drawn, spun, settled and completed.
use kingspin.Prelude.{
  ◌<◌, arith, ◌≡◌, refl, true, false, String, List, [], ◌∷◌, map, some, none, Option, ◌↔◌,
}
use kingspin.Prelude.Int.{leb_ℤ, ℤ, pos, ◌+ℤ◌, ◌-ℤ◌, ◌*ℤ◌, ◌/ℤ◌, ◌%ℤ◌}
use kingspin.Prelude.Result.{ok}
use kingspin.Store.Tables.{active, flexible_proportional, Room, Round, Entry, Db}
use kingspin.Engine.Machine.{open_round, locked}
use kingspin.Engine.Draw.{
  fairness_algorithm, WinnerSelectionResult, draw_text, select_winner, select_winning_ticket,
  select_from, assert_draw_parts, is_safe_integer, max_safe_integer, sha256_space, acceptance_limit,
  build_draw_input,
}
use kingspin.Engine.EntriesHash.{
  FairnessEntry, calculate_entries_hash, canonicalize_entries, assert_entries, assert_entry,
}
use kingspin.Engine.Ranges.{verify_ticket_ranges, find_range_by_winning_ticket}
use kingspin.Engine.Proof.{FairnessProofResult, ranges_of, verify_fairness_proof, FairnessProofArgs}
use mathlib.Core.List.{Permᴰ}
use kingspin.Prelude.Json.{to_lower_case, hex_value, is_sha256_hex}
use kingspin.Engine.SpinAngle.{calculate_spin_angle}
use kingspin.Engine.Proof.Flags.{IsHonest}
use kingspin.Engine.Proof.Checked.{verify-iff-IsHonest}
use kingspin.Engine.Proof.Commitment.{hash_any_order}
use kingspin.Rounds.Payout.{calculate_platform_fee_amount}
use kingspin.Rounds.Rows.{
  Env, entries_in, find_entries, find_round, find_round_or_throw, update_rounds, update_round,
  to_fairness_entries, to_ticket_ranges_from_entries,
}
use kingspin.Rounds.Tickets.{lock_tx, assign_tickets}
use kingspin.Rounds.Draw.{DrawData, prepare_draw, parts_of, mark_winner}
use kingspin.Rounds.Published.{published_proof, proof_args}
use kingspin.Rounds.Assigned.{Distinct}
use kingspin.Engine.Draw.Ticket as Ticket
use kingspin.Rounds.Drawable.{locked-draws}
use kingspin.Rounds.Honest.{IsDigest, completed_row, lock-covers, locked-and-drawn-verifies}

abbrev digest : String
digest = "000000000000000000000000000000000000000000000000000000000000ffff"

abbrev env : Env
env = record {
  sha256 = λ s. digest;
  hmac = λ k s. digest;
  sorts_before = λ a b. true;
  platform_fee_bps = pos 500;
}

abbrev room : Room
room = record {
  id = "room1";
  category_id = "c1";
  status = active;
  game_mode = flexible_proportional;
  fixed_entry_amount = none;
  round_duration_ms = pos 45000;
}

abbrev current : Round
current = record {
  id = "r1";
  room_id = "room1";
  round_number = pos 7;
  status = open_round;
  opened_at = pos 0;
  locks_at = some (pos 60000);
  locked_at = none;
  drawing_at = none;
  spinning_at = none;
  settling_at = none;
  completed_at = none;
  cancelled_at = none;
  total_entry_amount = pos 0;
  house_fee_amount = pos 0;
  payout_amount = pos 0;
  platform_fee_bps = some (pos 500);
  server_seed_hash = some digest;
  server_seed_reveal = some "seed";
  fairness_algorithm = some fairness_algorithm;
  entries_hash = none;
  draw_hash = none;
  draw_nonce = none;
  winning_ticket = none;
  winner_user_id = none;
  winner_entry_id = none;
  spin_angle = none;
  idempotency_key = some "round:start:room1:7";
}

abbrev entry : String → String → ℤ → ℤ → Entry
entry id user_id amount created_at = record {
  id = id;
  round_id = "r1";
  user_id = user_id;
  amount = amount;
  ticket_start = none;
  ticket_end = none;
  is_winner = false;
  created_at = created_at;
}

abbrev first : Entry
first = entry "e1" "u1" (pos 100) (pos 10)

abbrev second : Entry
second = entry "e2" "u2" (pos 250) (pos 20)

-- The second entry stands first in the table.
abbrev db : Db
db = record {
  wallets = [];
  ledger = [];
  withdrawals = [];
  users = [];
  categories = [];
  rooms = room ∷ [];
  rounds = current ∷ [];
  round_entries = second ∷ first ∷ [];
}

abbrev row : Round
row = record current {
  status = locked;
  locked_at = some (pos 60000);
  total_entry_amount = pos 350;
  payout_amount = pos 350;
  entries_hash = some digest;
}

abbrev first_assigned : Entry
first_assigned = record first { ticket_start = some (pos 0); ticket_end = some (pos 99) }

abbrev second_assigned : Entry
second_assigned = record second { ticket_start = some (pos 100); ticket_end = some (pos 349) }

abbrev locked_db : Db
locked_db = record db { rounds = row ∷ []; round_entries = second_assigned ∷ first_assigned ∷ [] }

went : lock_tx env (pos 60000) current db ≡ ok (row, locked_db)
unfolding lock_tx assign_tickets update_rounds update_round find_round_or_throw find_round
    find_entries to_fairness_entries calculate_entries_hash canonicalize_entries assert_entries
    assert_entry ◌+ℤ◌ ◌-ℤ◌
went = refl

distinct : Distinct db.round_entries
distinct = ((refl, tt), (tt, tt))

-- 65535 leaves 85 over 350, which is a ticket of the first entry.
abbrev drawn : DrawData
drawn = record {
  entries_hash = digest;
  drawn = record {
    selection = record {
      draw_input = draw_text (parts_of row digest) 0;
      draw_hash = digest;
      nonce_used = 0;
      winning_ticket = pos 85;
    };
    winner_range = record {
      id = "e1";
      user_id = "u1";
      amount = pos 100;
      ticket_start = pos 0;
      ticket_end = pos 99;
    };
  };
  winner = first_assigned;
  spin_angle = pos 874285;
  platform_fee_bps = pos 500;
  amounts = record {
    losing_pool_amount = pos 250;
    platform_fee_amount = pos 12;
    payout_amount = pos 338;
  };
}

drew : prepare_draw env row (entries_in env "r1" locked_db) ≡ ok drawn
unfolding prepare_draw to_ticket_ranges_from_entries to_fairness_entries calculate_entries_hash
    canonicalize_entries assert_entries assert_entry to_lower_case select_winner
    select_winning_ticket select_from assert_draw_parts is_safe_integer max_safe_integer
    sha256_space is_sha256_hex acceptance_limit build_draw_input hex_value
    find_range_by_winning_ticket calculate_spin_angle calculate_platform_fee_amount ◌+ℤ◌ ◌-ℤ◌ ◌*ℤ◌
    ◌/ℤ◌ ◌%ℤ◌
drew = refl

digests : IsDigest env
unfolding to_lower_case
digests = record { sha256_lower = λ s. refl; sha256_text = λ s. refl; hmac_text = λ k s. refl }

lock-covers_example :
    (fs : List FairnessEntry) × (to_fairness_entries (entries_in env "r1" locked_db) ≡ ok fs)
    × ((verify_ticket_ranges (ranges_of fs) (pos 350)).ranges_cover_total ≡ true)
    × ((hash : String) × (calculate_entries_hash env.sha256 fs ≡ ok hash)
        × (◌≡◌ {A = Option String} (some digest) (some hash)))
lock-covers_example = lock-covers env (pos 60000) current db row locked_db went distinct

locked-and-drawn-verifies_example :
    (proof : FairnessProofResult) × (published_proof env
        (completed_row (pos 1) (pos 2) (pos 3) (pos 4) drawn row)
        (map (mark_winner "e1") (entries_in env "r1" locked_db))
      ≡ ok proof)
    × (proof.verification_passed ≡ true)
locked-and-drawn-verifies_example =
    locked-and-drawn-verifies env (pos 60000) (pos 1) (pos 2) (pos 3) (pos 4) current db row
      locked_db drawn "seed" digests distinct went drew refl refl

accepts : assert_draw_parts (parts_of row digest) ≡ ok tt
unfolding assert_draw_parts is_safe_integer max_safe_integer sha256_space is_sha256_hex ◌+ℤ◌ ◌-ℤ◌
accepts = refl

below : 0 < max_safe_integer
unfolding max_safe_integer
below = omega arith

hits :
    leb_ℤ (acceptance_limit (pos 350)) (Ticket.digest env.hmac "seed" (parts_of row digest) 0)
    ≡ false
unfolding acceptance_limit sha256_space hex_value ◌+ℤ◌ ◌-ℤ◌ ◌%ℤ◌
hits = refl

locked-draws_example :
    (d : DrawData) × (prepare_draw env row (entries_in env "r1" locked_db) ≡ ok d)
locked-draws_example =
    locked-draws env (pos 60000) current db row locked_db digest 0 digests distinct went refl refl
      accepts below hits

-- The entries of the round as they are published.
abbrev published : List FairnessEntry
published =
    record {
      entry_id = "e1";
      user_id = "u1";
      amount = pos 100;
      ticket_start = pos 0;
      ticket_end = pos 99;
      round_id = "r1";
    }
    ∷ record {
      entry_id = "e2";
      user_id = "u2";
      amount = pos 250;
      ticket_start = pos 100;
      ticket_end = pos 349;
      round_id = "r1";
    }
    ∷ []

abbrev swapped : List FairnessEntry
swapped =
    record {
      entry_id = "e2";
      user_id = "u2";
      amount = pos 250;
      ticket_start = pos 100;
      ticket_end = pos 349;
      round_id = "r1";
    }
    ∷ record {
      entry_id = "e1";
      user_id = "u1";
      amount = pos 100;
      ticket_start = pos 0;
      ticket_end = pos 99;
      round_id = "r1";
    }
    ∷ []

covers : (verify_ticket_ranges (ranges_of published) (pos 350)).ranges_cover_total ≡ true
unfolding verify_ticket_ranges ◌+ℤ◌ ◌-ℤ◌
covers = refl

hashes : calculate_entries_hash env.sha256 published ≡ ok digest
unfolding calculate_entries_hash canonicalize_entries assert_entries assert_entry
hashes = refl

hash_any_order_example : calculate_entries_hash env.sha256 swapped ≡ ok digest
hash_any_order_example =
    hash_any_order env.sha256 published swapped (pos 350) digest covers (Permᴰ.swap refl refl)
      hashes

-- What is published of the round when it is completed.
abbrev finished : FairnessProofArgs
unfolding proof_args
finished =
    proof_args (completed_row (pos 1) (pos 2) (pos 3) (pos 4) drawn row)
      (entries_in env "r1" locked_db)

verify-iff-IsHonest_example :
    ((r : FairnessProofResult) × (verify_fairness_proof env.sha256 env.hmac (finished) ≡ ok r)
      × (r.verification_passed ≡ true))
    ↔ ((seed hash : String) × (w : WinnerSelectionResult) × IsHonest env.sha256 env.hmac
          (finished)
          seed
          hash
          w)
verify-iff-IsHonest_example = verify-iff-IsHonest env.sha256 env.hmac (finished)
