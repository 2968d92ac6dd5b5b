-- ===== src/Engine/Ranges.antt =====
-- Ticket ranges (packages/game-engine/src/ticket-ranges.ts): every entry owns as many consecutive
-- tickets as its amount. A `bigint` is an integer with no bound.
pub mod Cover
pub mod Winner
mod Tests
use kingspin.Prelude.{
  Bool, true, false, not, ◌&&◌, String, List, [], ◌∷◌, Option, none, some, if◌then◌else◌,
}
use kingspin.Prelude.Int.{ℤ, pos, ◌+ℤ◌, ◌-ℤ◌, leb_ℤ, ◌==ℤ◌}
use kingspin.Prelude.Lists.{find}
use kingspin.Prelude.Text.{◌<>◌, to_string}
use kingspin.Prelude.Result.{Result, ok, err, error, ◌>>=◌}

pub record TicketRangeInput : Type 0 where
  pub id : String
  pub user_id : String
  pub amount : ℤ

pub record TicketRange : Type 0 where
  pub id : String
  pub user_id : String
  pub amount : ℤ
  pub ticket_start : ℤ
  pub ticket_end : ℤ

pub record TicketRangeVerification : Type 0 where
  pub ranges_cover_total : Bool
  pub range_error : Option String

-- The body of the `map`, with the variable `cursor` of its closure.
unfoldable pub build_from : ℤ → List TicketRangeInput → Result (List TicketRange)
build_from cursor [] = ok []
build_from cursor (entry ∷ entries) =
    if leb_ℤ entry.amount (pos 0)
    then err (error ("Entry " <> entry.id <> " amount must be greater than zero."))
    else (let ticket_end = cursor +ℤ entry.amount -ℤ pos 1 in
        build_from (ticket_end +ℤ pos 1) entries >>= λ ranges. ok (
          record {
            id = entry.id;
            user_id = entry.user_id;
            amount = entry.amount;
            ticket_start = cursor;
            ticket_end = ticket_end;
          }
          ∷ ranges))

unfoldable pub build_ticket_ranges : List TicketRangeInput → Result (List TicketRange)
unfolding build_from
build_ticket_ranges entries = build_from (pos 0) entries

abbrev rejected : String → TicketRangeVerification
rejected message = record { ranges_cover_total = false; range_error = some message }

-- The loop, with the check of the final cursor behind it.
unfoldable pub verify_from : ℤ → List TicketRange → ℤ → TicketRangeVerification
verify_from cursor [] expected_total =
    if not (cursor ==ℤ expected_total)
    then rejected (
        "Final cursor "
        <> to_string cursor
        <> " does not match expected total "
        <> to_string expected_total
        <> ".")
    else record { ranges_cover_total = true; range_error = none }
verify_from cursor (range ∷ ranges) expected_total =
    let expected_end = cursor +ℤ range.amount -ℤ pos 1 in
    let rest = verify_from (range.ticket_end +ℤ pos 1) ranges expected_total in
    if leb_ℤ range.amount (pos 0)
    then rejected ("Entry " <> range.id <> " amount must be greater than zero.")
    else if not (range.ticket_start ==ℤ cursor)
    then rejected (
        "Entry "
        <> range.id
        <> " starts at "
        <> to_string range.ticket_start
        <> " but expected "
        <> to_string cursor
        <> ".")
    else if not (range.ticket_end ==ℤ expected_end)
    then rejected (
        "Entry "
        <> range.id
        <> " ends at "
        <> to_string range.ticket_end
        <> " but expected "
        <> to_string expected_end
        <> ".")
    else rest

unfoldable pub verify_ticket_ranges : List TicketRange → ℤ → TicketRangeVerification
unfolding verify_from
verify_ticket_ranges ranges expected_total = verify_from (pos 0) ranges expected_total

abbrev pub holds_ticket : ℤ → TicketRange → Bool
holds_ticket ticket range = leb_ℤ range.ticket_start ticket && leb_ℤ ticket range.ticket_end

unfoldable pub find_range_by_winning_ticket : List TicketRange → ℤ → Option TicketRange
find_range_by_winning_ticket ranges ticket = find (holds_ticket ticket) ranges
