-- ===== src/Engine/Draw/Winner.antt =====
-- The winner of a draw over verified ranges.
use kingspin.Prelude.{◌≡◌, refl, ⊤, true, String, List, [], ◌∷◌, arith}
use kingspin.Prelude.Int.{ℤ, pos, negsuc, ◌%ℤ◌, ◌≤ℤ◌, ◌<ℤ◌}
use kingspin.Prelude.Lists.{select, All-find, every}
use kingspin.Prelude.Result.{ok, bind_ok}
use kingspin.Engine.Ranges.{
  TicketRange, verify_ticket_ranges, holds_ticket, find_range_by_winning_ticket,
}
use kingspin.Engine.Ranges.Winner.{find-range_exact}
use kingspin.Engine.Draw.{
  DrawInputParts, Selection, assert_draw_parts, select_winning_ticket, select_winner,
}
use kingspin.Engine.Draw.Ticket.{select_steps, select_winning_ticket-IsDrawn}

mod_bounds : (d : ℤ) (n : ℤ) → pos 0 ≤ℤ d → pos 1 ≤ℤ n → (pos 0 ≤ℤ d %ℤ n) × (d %ℤ n <ℤ n)
unfolding ◌%ℤ◌
mod_bounds (pos d) (pos n) h k = ground arith
mod_bounds (pos d) (negsuc n) h k = absurd (omega arith)
mod_bounds (negsuc d) n h k = absurd (omega arith)

assert_positive :
    (parts : DrawInputParts) → assert_draw_parts parts ≡ ok tt → pos 1 ≤ℤ parts.total_entry_amount
unfolding assert_draw_parts
assert_positive parts h = ground arith

-- The ticket of a selection lies below the total entry amount.
pub winning_ticket_bounds :
    (hmac : String → String → String) (seed : String) (parts : DrawInputParts) (s : Selection)
    → select_winning_ticket hmac seed parts ≡ ok s
    → (pos 0 ≤ℤ s.winning_ticket) × (s.winning_ticket <ℤ parts.total_entry_amount)
winning_ticket_bounds hmac seed parts s h =
    let valid = (select_steps hmac seed parts s h).1 in
    let drawn = (select_winning_ticket-IsDrawn hmac seed parts s h).0 in
    rw drawn.ticket (mod_bounds _ _ (omega arith) (assert_positive parts valid))

-- Over ranges that cover the total, a selected ticket always has a winner: the one range that holds
-- the ticket, and no other range holds it.
pub select_winner_total :
    (hmac : String → String → String) (seed : String) (parts : DrawInputParts)
    (ranges : List TicketRange) (s : Selection)
    → select_winning_ticket hmac seed parts ≡ ok s
    → (verify_ticket_ranges ranges parts.total_entry_amount).ranges_cover_total ≡ true
    → (r : TicketRange) × (select_winner hmac ranges seed parts
        ≡ ok (record { selection = s; winner_range = r }))
      × (holds_ticket s.winning_ticket r ≡ true)
      × (select (holds_ticket s.winning_ticket) ranges ≡ r ∷ [])
unfolding select_winner find_range_by_winning_ticket
select_winner_total hmac seed parts ranges s h covers =
    let (low, high) = winning_ticket_bounds hmac seed parts s h in
    let (r, found, alone) =
      (find-range_exact ranges parts.total_entry_amount s.winning_ticket covers).0 low high in
    let holds = (All-find (λ x. ⊤) (holds_ticket s.winning_ticket) ranges (every ranges) found).1 in
    (r, bind_ok _ _ h (rw found refl), holds, alone)
