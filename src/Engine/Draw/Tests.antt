-- ===== src/Engine/Draw/Tests.antt =====
-- A draw over two entries. The stand-in for the keyed hash gives a digest above the acceptance limit
-- for nonce 0 and a small one for all others.
use kingspin.Prelude.{
  ℕ, ◌/◌, ◌<◌, ◌^◌, ◌≡◌, refl, true, false, String, List, [], ◌∷◌, arith, if◌then◌else◌,
}
use kingspin.Prelude.Int.{pos, ◌+ℤ◌, ◌-ℤ◌, ◌%ℤ◌, ◌≤ℤ◌, ◌<ℤ◌, leb_ℤ}
use kingspin.Prelude.Count.{count_below}
use kingspin.Prelude.Lists.{select}
use kingspin.Prelude.Text.{str_eq, to_string}
use kingspin.Prelude.Json.{quote, object_text, to_lower_case, hex_value, is_sha256_hex}
use kingspin.Prelude.Result.{ok}
use kingspin.Engine.Ranges.{TicketRange, verify_ticket_ranges, holds_ticket}
use kingspin.Engine.Draw.{
  DrawInputParts, Selection, assert_draw_parts, draw_text, build_draw_input, acceptance_limit,
  sha256_space, max_safe_integer, is_safe_integer, select_from, select_winning_ticket,
  select_winner,
}
use kingspin.Engine.Draw.Fair.{draws, draws_uniform}
use kingspin.Engine.Draw.Ticket.{digest, IsDrawn, Rejected, select_winning_ticket-IsDrawn}
use kingspin.Engine.Draw.Winner.{winning_ticket_bounds, select_winner_total}

abbrev parts : DrawInputParts
parts = record {
  round_id = "r1";
  round_number = pos 7;
  total_entry_amount = pos 350;
  entries_hash = "00112233445566778899AABBCCDDEEFF00112233445566778899aabbccddeeff";
}

abbrev first_input : String
first_input =
    "{\"algorithm\":\"HMAC_SHA256_REJECTION_SAMPLING_V1\",\"roundId\":\"r1\",\"roundNumber\":\"7\",\"totalEntryAmount\":\"350\",\"entriesHash\":\"00112233445566778899aabbccddeeff00112233445566778899aabbccddeeff\",\"nonce\":\"0\"}"

hmac : String → String → String
hmac key text =
    if str_eq text first_input
    then "ffffffffffffffffffffffffffffffffffffffffffffffffffffffffffffffff"
    else "000000000000000000000000000000000000000000000000000000000000ffff"

abbrev selection : Selection
selection = record {
  draw_input = draw_text parts 1;
  draw_hash = hmac "seed" (draw_text parts 1);
  nonce_used = 1;
  winning_ticket = pos 85;
}

first_text : draw_text parts 0 ≡ first_input
unfolding draw_text object_text quote to_string to_lower_case
first_text = refl

valid : assert_draw_parts parts ≡ ok tt
unfolding assert_draw_parts is_safe_integer max_safe_integer sha256_space is_sha256_hex ◌-ℤ◌
valid = refl

drawn : select_winning_ticket hmac "seed" parts ≡ ok selection
unfolding select_winning_ticket select_from assert_draw_parts is_safe_integer max_safe_integer
    sha256_space is_sha256_hex ◌-ℤ◌ ◌%ℤ◌ acceptance_limit build_draw_input draw_text object_text
    quote to_string to_lower_case hmac hex_value
drawn = refl

abbrev ranges : List TicketRange
ranges =
    record {
      id = "e1";
      user_id = "u1";
      amount = pos 100;
      ticket_start = pos 0;
      ticket_end = pos 99;
    }
    ∷ record {
      id = "e2";
      user_id = "u2";
      amount = pos 250;
      ticket_start = pos 100;
      ticket_end = pos 349;
    }
    ∷ []

covered : (verify_ticket_ranges ranges (pos 350)).ranges_cover_total ≡ true
unfolding verify_ticket_ranges ◌+ℤ◌ ◌-ℤ◌
covered = refl

second_accepted : leb_ℤ (acceptance_limit (pos 350)) (digest hmac "seed" parts 1) ≡ false
unfolding acceptance_limit sha256_space ◌-ℤ◌ ◌%ℤ◌ hmac hex_value draw_text object_text quote
    to_string to_lower_case
second_accepted = refl

draws_uniform_example : count_below (2 ^ 256) (draws (pos 350) (pos 85)) ≡ 2 ^ 256 / 350
draws_uniform_example = draws_uniform 350 85 (omega arith)

select_winning_ticket-IsDrawn_example :
    IsDrawn hmac "seed" parts selection × ((k : ℕ) → k < 1 → Rejected hmac "seed" parts k)
select_winning_ticket-IsDrawn_example =
    select_winning_ticket-IsDrawn hmac "seed" parts selection drawn

winning_ticket_bounds_example : (pos 0 ≤ℤ pos 85) × (pos 85 <ℤ pos 350)
winning_ticket_bounds_example = winning_ticket_bounds hmac "seed" parts selection drawn

select_winner_total_example :
    (r : TicketRange) × (select_winner hmac ranges "seed" parts
      ≡ ok (record { selection = selection; winner_range = r }))
    × (holds_ticket (pos 85) r ≡ true)
    × (select (holds_ticket (pos 85)) ranges ≡ r ∷ [])
select_winner_total_example = select_winner_total hmac "seed" parts ranges selection drawn covered
