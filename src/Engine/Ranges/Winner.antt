-- ===== src/Engine/Ranges/Winner.antt =====
-- Which range a ticket falls into.
use kingspin.Prelude.{
  ◌+◌, ◌≡◌, refl, true, false, List, [], ◌∷◌, none, some, arith, Bool-cases, inl, inr,
}
use kingspin.Prelude.Int.{ℤ, pos, pos_part, neg_part, ◌+ℤ◌, ◌-ℤ◌, ◌≤ℤ◌, ◌<ℤ◌, leb_ℤ, int_laws}
use kingspin.Prelude.Lists.{find, select}
use kingspin.Engine.Ranges.{
  TicketRange, verify_ticket_ranges, holds_ticket, find_range_by_winning_ticket,
}
use kingspin.Engine.Ranges.Cover.{Chain, verify-iff-Chain}

succ_lt : (t e : ℤ) → leb_ℤ t e ≡ true → t <ℤ e +ℤ pos 1
succ_lt t e h = let k : t ≤ℤ e = ground arith in omega int_laws

lt_succ : (t e : ℤ) → leb_ℤ t e ≡ false → e +ℤ pos 1 ≤ℤ t
lt_succ t e h = let k : e <ℤ t = ground arith in omega int_laws

-- The last ticket of a range, in terms of the two parts of the integers.
pub end_parts :
    (c a e : ℤ)
    → e ≡ c +ℤ a -ℤ pos 1
    → pos_part e + neg_part c + neg_part a + 1 ≡ neg_part e + pos_part c + pos_part a
end_parts c a e h = rw h (omega int_laws)

Chain-le : (c : ℤ) (rs : List TicketRange) (stop : ℤ) → Chain c rs stop → c ≤ℤ stop
Chain-le c [] stop h = ground arith
Chain-le c (r ∷ rs) stop h =
    omega (
      int_laws,
      end_parts c r.amount r.ticket_end h.2,
      Chain-le (r.ticket_end +ℤ pos 1) rs stop h.3,
    )

-- A ticket below the cursor, or from the end on, is in no range.
none_below :
    (c : ℤ) (rs : List TicketRange) (stop t : ℤ)
    → Chain c rs stop
    → t <ℤ c
    → (find (holds_ticket t) rs ≡ none) × (select (holds_ticket t) rs ≡ [])
none_below c [] stop t h k = (refl, refl)
none_below c (r ∷ rs) stop t h k =
    let rest =
      none_below (r.ticket_end +ℤ pos 1) rs stop t h.3
        (omega (int_laws, end_parts c r.amount r.ticket_end h.2)) in
    let out : holds_ticket t r ≡ false = rw h.1 (ground arith) in rw out rest

none_above :
    (c : ℤ) (rs : List TicketRange) (stop t : ℤ)
    → Chain c rs stop
    → stop ≤ℤ t
    → find (holds_ticket t) rs ≡ none
none_above c [] stop t h k = refl
none_above c (r ∷ rs) stop t h k =
    let last = Chain-le (r.ticket_end +ℤ pos 1) rs stop h.3 in
    let past : r.ticket_end <ℤ t = omega (int_laws, last) in
    let out : holds_ticket t r ≡ false = ground arith in
    rw out (none_above (r.ticket_end +ℤ pos 1) rs stop t h.3 k)

owner :
    (c : ℤ) (rs : List TicketRange) (stop t : ℤ)
    → Chain c rs stop
    → c ≤ℤ t
    → t <ℤ stop
    → (r : TicketRange) × (find (holds_ticket t) rs ≡ some r)
      × (select (holds_ticket t) rs ≡ r ∷ [])
owner c [] stop t h lo hi = absurd (omega (arith, rw (← h) at hi))
owner c (r ∷ rs) stop t h lo hi = elim (Bool-cases (leb_ℤ t r.ticket_end)) [
  | inl inside ↦
      let before =
        none_below (r.ticket_end +ℤ pos 1) rs stop t h.3 (ground (arith, succ_lt t r.ticket_end)) in
      let hit : holds_ticket t r ≡ true = rw h.1 (ground arith) in
      (r, rw hit refl, rw (hit, before.1) refl)
  | inr outside ↦
      let miss : holds_ticket t r ≡ false = ground arith in
      let (w, f, g) =
        owner (r.ticket_end +ℤ pos 1) rs stop t h.3 (ground (arith, lt_succ t r.ticket_end)) hi in
      (w, rw miss f, rw miss g)
]

-- Over ranges that the verification accepts, a ticket of the total lies in exactly one range, which
-- the search returns, and any other ticket is in none.
pub find-range_exact :
    (rs : List TicketRange) (total t : ℤ)
    → (verify_ticket_ranges rs total).ranges_cover_total ≡ true
    → (pos 0 ≤ℤ t
        → t <ℤ total
        → (r : TicketRange) × (find_range_by_winning_ticket rs t ≡ some r)
          × (select (holds_ticket t) rs ≡ r ∷ []))
      × (total ≤ℤ t → find_range_by_winning_ticket rs t ≡ none)
      × (t <ℤ pos 0 → find_range_by_winning_ticket rs t ≡ none)
unfolding find_range_by_winning_ticket
find-range_exact rs total t ok =
    let chain = (verify-iff-Chain rs total).0 ok in
    (
      λ lo hi. owner (pos 0) rs total t chain lo hi,
      λ k. none_above (pos 0) rs total t chain k,
      λ k. (none_below (pos 0) rs total t chain k).0,
    )
