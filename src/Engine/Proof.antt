-- ===== src/Engine/Proof.antt =====
-- The verification of a published round (packages/game-engine/src/fairness-proof.ts). The digest and
-- the keyed hash of the platform are parameters.
pub mod Flags
pub mod Branches
pub mod Checked
pub mod Commitment
use kingspin.Prelude.{
  Bool, true, false, not, ◌&&◌, ◌||◌, String, List, Option, none, some, map, if◌then◌else◌,
}
use kingspin.Prelude.Int.{ℤ, pos, negsuc, leb_ℤ, ◌==ℤ◌}
use kingspin.Prelude.Text.{str_eq, opt_str_eq, is_empty}
use kingspin.Prelude.Json.{to_lower_case}
use kingspin.Prelude.Result.{
  Error, error, bad_request, not_found, conflict, unique_constraint, record_not_found, Result, ok,
  err, ◌>>=◌, forbidden, entry_idempotency_race,
}
use kingspin.Engine.Ranges.{
  TicketRange, TicketRangeVerification, verify_ticket_ranges, find_range_by_winning_ticket,
}
use kingspin.Engine.Draw.{DrawInputParts, Selection, fairness_algorithm, select_winning_ticket}
use kingspin.Engine.EntriesHash.{FairnessEntry, calculate_entries_hash}

-- `error.message`. (The messages of the database client are its own.)
abbrev pub message : Error → Option String
message (error m) = some m
message (bad_request m) = some m
message (not_found m) = some m
message (conflict m) = some m
message (forbidden m) = some m
message unique_constraint = none
message record_not_found = none
message entry_idempotency_race = some "Entry idempotency key raced with another request."

-- `!!value`
abbrev pub is_truthy : Option String → Bool
is_truthy none = false
is_truthy (some s) = not (is_empty s)

-- `===` where either side may be `null`
abbrev pub opt_int_eq : Option ℤ → Option ℤ → Bool
opt_int_eq none none = true
opt_int_eq (some a) (some b) = a ==ℤ b
opt_int_eq _ _ = false

abbrev pub text_or_empty : Option String → String
text_or_empty none = ""
text_or_empty (some s) = s

abbrev int_or : ℤ → Option ℤ → ℤ
int_or d none = d
int_or d (some n) = n

-- `Omit<DrawInputParts, "entriesHash">`
pub record ProofDrawParts : Type 0 where
  pub round_id : String
  pub round_number : ℤ
  pub total_entry_amount : ℤ

abbrev pub with_hash : ProofDrawParts → String → DrawInputParts
with_hash parts hash = record {
  round_id = parts.round_id;
  round_number = parts.round_number;
  total_entry_amount = parts.total_entry_amount;
  entries_hash = hash;
}

pub record FairnessProofArgs : Type 0 where
  pub algorithm : Option String
  pub server_seed_reveal : Option String
  pub server_seed_hash : Option String
  pub entries_hash : Option String
  pub entries : List FairnessEntry
  pub winning_ticket : Option ℤ
  pub draw_hash : Option String
  pub nonce_used : Option ℤ
  pub winner_entry_id : Option String
  pub draw_parts : ProofDrawParts

pub record FairnessProofResult : Type 0 where
  pub algorithm : Option String
  pub algorithm_matches : Bool
  pub server_seed_hash : Option String
  pub server_seed_reveal : Option String
  pub recomputed_server_seed_hash : Option String
  pub seed_hash_matches : Bool
  pub entries_hash : Option String
  pub recomputed_entries_hash : Option String
  pub entries_hash_matches : Bool
  pub total_entry_amount : ℤ
  pub winning_ticket : Option ℤ
  pub draw_input : Option String
  pub draw_hash : Option String
  pub recomputed_draw_hash : Option String
  pub draw_hash_matches : Bool
  pub nonce_used : Option ℤ
  pub recomputed_winning_ticket : Option ℤ
  pub winning_ticket_matches : Bool
  pub winner_ticket_inside_range : Bool
  pub ranges_cover_total : Bool
  pub range_error : Option String
  pub verification_passed : Bool

abbrev pub range_of : FairnessEntry → TicketRange
range_of entry = record {
  id = entry.entry_id;
  user_id = entry.user_id;
  amount = entry.amount;
  ticket_start = entry.ticket_start;
  ticket_end = entry.ticket_end;
}

abbrev pub ranges_of : List FairnessEntry → List TicketRange
ranges_of entries = map range_of entries

module _ (sha256 : String → String) (hmac : String → String → String) where
  unfoldable pub sha256_hex : String → String
  sha256_hex input = sha256 input

  -- The `try` block: the recomputed hash of the entries, and the verification of their ranges. What is
  -- thrown becomes the message of the ranges.
  unfoldable pub check_entries : FairnessProofArgs → Option String × TicketRangeVerification
  check_entries args = elim (calculate_entries_hash sha256 args.entries) [
    | ok hash ↦ (
      some hash,
      verify_ticket_ranges (ranges_of args.entries) args.draw_parts.total_entry_amount,
    )
    | err e ↦ (none, record { ranges_cover_total = false; range_error = message e })
  ]

  unfoldable pub recomputed_seed_hash : FairnessProofArgs → Option String
  recomputed_seed_hash args =
      if is_truthy args.server_seed_reveal
      then some (sha256_hex (text_or_empty args.server_seed_reveal))
      else none

  unfoldable pub seed_matches : FairnessProofArgs → Bool
  seed_matches args =
      is_truthy args.server_seed_reveal
      && is_truthy args.server_seed_hash
      && opt_str_eq (recomputed_seed_hash args) args.server_seed_hash

  unfoldable pub hash_matches : FairnessProofArgs → Option String → Bool
  hash_matches args recomputed =
      is_truthy args.entries_hash
      && opt_str_eq recomputed (some (to_lower_case (text_or_empty args.entries_hash)))

  unfoldable pub algorithm_is_known : FairnessProofArgs → Bool
  algorithm_is_known args = opt_str_eq args.algorithm (some fairness_algorithm)

  -- The guard of the early return.
  unfoldable pub is_rejected_early : FairnessProofArgs → Option String → Bool
  is_rejected_early args recomputed =
      not (algorithm_is_known args)
      || not (is_truthy args.server_seed_reveal)
      || not (is_truthy args.server_seed_hash)
      || not (is_truthy args.entries_hash)
      || not (hash_matches args recomputed)
      || leb_ℤ args.draw_parts.total_entry_amount (pos 0)

  unfoldable pub early_result :
      FairnessProofArgs → Option String → TicketRangeVerification → FairnessProofResult
  early_result args recomputed check = record {
    algorithm = args.algorithm;
    algorithm_matches = algorithm_is_known args;
    server_seed_hash = args.server_seed_hash;
    server_seed_reveal = args.server_seed_reveal;
    recomputed_server_seed_hash = recomputed_seed_hash args;
    seed_hash_matches = seed_matches args;
    entries_hash = args.entries_hash;
    recomputed_entries_hash = recomputed;
    entries_hash_matches = hash_matches args recomputed;
    total_entry_amount = args.draw_parts.total_entry_amount;
    winning_ticket = args.winning_ticket;
    draw_input = none;
    draw_hash = args.draw_hash;
    recomputed_draw_hash = none;
    draw_hash_matches = false;
    nonce_used = args.nonce_used;
    recomputed_winning_ticket = none;
    winning_ticket_matches = false;
    winner_ticket_inside_range = false;
    ranges_cover_total = check.ranges_cover_total;
    range_error = check.range_error;
    verification_passed = false;
  }

  unfoldable pub draw_matches : FairnessProofArgs → Selection → Bool
  draw_matches args selection =
      is_truthy args.draw_hash
      && opt_str_eq args.draw_hash (some selection.draw_hash)
      && opt_int_eq args.nonce_used (some (pos selection.nonce_used))

  unfoldable pub ticket_matches : FairnessProofArgs → Selection → Bool
  ticket_matches args selection = opt_int_eq (some selection.winning_ticket) args.winning_ticket

  unfoldable pub winner_is_inside : FairnessProofArgs → Bool
  winner_is_inside args =
      elim (find_range_by_winning_ticket (ranges_of args.entries)
        (int_or (negsuc 0) args.winning_ticket)) [
          | none ↦ false
          | some winner_range ↦
              is_truthy args.winner_entry_id
              && opt_str_eq (some winner_range.id) args.winner_entry_id
        ]

  unfoldable pub full_result :
      FairnessProofArgs → Option String → TicketRangeVerification → Selection → FairnessProofResult
  full_result args recomputed check selection = record {
    algorithm = args.algorithm;
    algorithm_matches = algorithm_is_known args;
    server_seed_hash = args.server_seed_hash;
    server_seed_reveal = args.server_seed_reveal;
    recomputed_server_seed_hash = recomputed_seed_hash args;
    seed_hash_matches = seed_matches args;
    entries_hash = args.entries_hash;
    recomputed_entries_hash = recomputed;
    entries_hash_matches = hash_matches args recomputed;
    total_entry_amount = args.draw_parts.total_entry_amount;
    winning_ticket = args.winning_ticket;
    draw_input = some selection.draw_input;
    draw_hash = args.draw_hash;
    recomputed_draw_hash = some selection.draw_hash;
    draw_hash_matches = draw_matches args selection;
    nonce_used = args.nonce_used;
    recomputed_winning_ticket = some selection.winning_ticket;
    winning_ticket_matches = ticket_matches args selection;
    winner_ticket_inside_range = winner_is_inside args;
    ranges_cover_total = check.ranges_cover_total;
    range_error = check.range_error;
    verification_passed =
        algorithm_is_known args
        && seed_matches args
        && hash_matches args recomputed
        && draw_matches args selection
        && ticket_matches args selection
        && winner_is_inside args
        && check.ranges_cover_total;
  }

  unfoldable pub verify_fairness_proof : FairnessProofArgs → Result FairnessProofResult
  verify_fairness_proof args =
      let (recomputed, check) = check_entries args in
      if is_rejected_early args recomputed
      then ok (early_result args recomputed check)
      else (select_winning_ticket hmac (text_or_empty args.server_seed_reveal)
            (with_hash args.draw_parts (text_or_empty args.entries_hash))
          >>= λ selection. ok (full_result args recomputed check selection))
