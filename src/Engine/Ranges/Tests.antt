-- ===== src/Engine/Ranges/Tests.antt =====
-- Ticket ranges at concrete entries.
use kingspin.Prelude.{◌≡◌, ◌↔◌, refl, true, false, List, [], ◌∷◌, none, some, arith}
use kingspin.Prelude.Int.{pos, ◌≤ℤ◌, ◌<ℤ◌, ◌+ℤ◌, ◌-ℤ◌}
use kingspin.Prelude.Lists.{select}
use kingspin.Prelude.Result.{ok}
use kingspin.Engine.Ranges.{
  TicketRangeInput, TicketRange, build_ticket_ranges, verify_ticket_ranges, holds_ticket,
  find_range_by_winning_ticket,
}
use kingspin.Engine.Ranges.Cover.{Chain, inputs, total, verify-iff-Chain, build-verify, build_total}
use kingspin.Engine.Ranges.Winner.{find-range_exact}

abbrev entries : List TicketRangeInput
entries =
    record { id = "e1"; user_id = "u1"; amount = pos 100 }
    ∷ record { id = "e2"; user_id = "u2"; amount = pos 250 }
    ∷ []

abbrev ranges : List TicketRange
ranges =
    record {
      id = "e1";
      user_id = "u1";
      amount = pos 100;
      ticket_start = pos 0;
      ticket_end = pos 99;
    }
    ∷ record {
      id = "e2";
      user_id = "u2";
      amount = pos 250;
      ticket_start = pos 100;
      ticket_end = pos 349;
    }
    ∷ []

built : build_ticket_ranges entries ≡ ok ranges
unfolding build_ticket_ranges ◌+ℤ◌ ◌-ℤ◌
built = refl

covered : (verify_ticket_ranges ranges (pos 350)).ranges_cover_total ≡ true
unfolding verify_ticket_ranges ◌+ℤ◌ ◌-ℤ◌
covered = refl

short_total : (verify_ticket_ranges ranges (pos 351)).ranges_cover_total ≡ false
unfolding verify_ticket_ranges ◌+ℤ◌ ◌-ℤ◌
short_total = refl

verify-iff-Chain_example :
    ((verify_ticket_ranges ranges (pos 350)).ranges_cover_total ≡ true)
    ↔ Chain (pos 0) ranges (pos 350)
verify-iff-Chain_example = verify-iff-Chain ranges (pos 350)

build-verify_example :
    ((verify_ticket_ranges ranges (total entries)).ranges_cover_total ≡ true)
    × (inputs ranges ≡ entries)
build-verify_example = build-verify entries ranges built

build_total_example : (rs : List TicketRange) × (build_ticket_ranges entries ≡ ok rs)
build_total_example = build_total entries (omega arith)

find-range_exact_example :
    (pos 0 ≤ℤ pos 120
      → pos 120 <ℤ pos 350
      → (r : TicketRange) × (find_range_by_winning_ticket ranges (pos 120) ≡ some r)
        × (select (holds_ticket (pos 120)) ranges ≡ r ∷ []))
    × (pos 350 ≤ℤ pos 120 → find_range_by_winning_ticket ranges (pos 120) ≡ none)
    × (pos 120 <ℤ pos 0 → find_range_by_winning_ticket ranges (pos 120) ≡ none)
find-range_exact_example = find-range_exact ranges (pos 350) (pos 120) covered
