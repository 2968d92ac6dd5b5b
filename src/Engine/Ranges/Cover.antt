-- ===== src/Engine/Ranges/Cover.antt =====
-- The ranges that are built are those that are verified, and they share out the tickets.
use mathlib.Core.Path.{subst}
use kingspin.Prelude.{◌≡◌, refl, ap, true, false, List, [], ◌∷◌, ◌↔◌, inl, inr, arith, Bool-cases}
use kingspin.Prelude.Int.{ℤ, pos, ◌+ℤ◌, ◌-ℤ◌, ◌≤ℤ◌, leb_ℤ, int_laws}
use kingspin.Prelude.Lists.{All}
use kingspin.Prelude.Result.{ok, Result-cases, err-ne-ok, ok_eq}
use kingspin.Engine.Ranges.{
  TicketRangeInput, TicketRange, build_from, build_ticket_ranges, verify_from, verify_ticket_ranges,
}

-- The sum of the amounts.
abbrev pub total : List TicketRangeInput → ℤ
total [] = pos 0
total (e ∷ es) = e.amount +ℤ total es

-- The ranges lie one behind the other from `c` up to `stop`, each as long as its positive amount.
abbrev pub Chain : ℤ → List TicketRange → ℤ → Type 0
Chain c [] stop = c ≡ stop
Chain c (r ∷ rs) stop =
    (pos 1 ≤ℤ r.amount)
    × (r.ticket_start ≡ c)
    × (r.ticket_end ≡ c +ℤ r.amount -ℤ pos 1)
    × Chain (r.ticket_end +ℤ pos 1) rs stop

-- What the ranges say of their entries.
abbrev pub inputs : List TicketRange → List TicketRangeInput
inputs [] = []
inputs (r ∷ rs) = record { id = r.id; user_id = r.user_id; amount = r.amount } ∷ inputs rs

build_from-Chain :
    (c : ℤ) (es : List TicketRangeInput) (rs : List TicketRange)
    → build_from c es ≡ ok rs
    → Chain c rs (c +ℤ total es) × (inputs rs ≡ es)
unfolding build_from
build_from-Chain c [] [] h = (omega int_laws, refl)
build_from-Chain c [] (r ∷ rs) h = cc
build_from-Chain c (e ∷ es) rs h = elim (Bool-cases (leb_ℤ e.amount (pos 0))) [
  | inl low ↦ absurd (err-ne-ok (rw low at h))
  | inr fine ↦ elim (Result-cases (build_from (c +ℤ e.amount -ℤ pos 1 +ℤ pos 1) es)) [
    | inl (rest, q) ↦
        let (chain, same) = build_from-Chain (c +ℤ e.amount -ℤ pos 1 +ℤ pos 1) es rest q in
        let stop : c +ℤ e.amount -ℤ pos 1 +ℤ pos 1 +ℤ total es ≡ c +ℤ (e.amount +ℤ total es) =
          omega int_laws in
        subst (λ z. Chain c z (c +ℤ total (e ∷ es)) × (inputs z ≡ e ∷ es))
          (ok_eq (rw (fine, q) at h))
          ((ground arith, refl, refl, rw (← stop) chain), ap (λ z. e ∷ z) same)
    | inr (x, q) ↦ absurd (err-ne-ok (rw (fine, q) at h))
  ]
]

verify_from-Chain :
    (c : ℤ) (rs : List TicketRange) (stop : ℤ)
    → ((verify_from c rs stop).ranges_cover_total ≡ true) ↔ Chain c rs stop
unfolding verify_from
verify_from-Chain c [] stop = (λ h. ground arith, λ h. ground arith)
verify_from-Chain c (r ∷ rs) stop = (
  λ h. ground (arith, (verify_from-Chain (r.ticket_end +ℤ pos 1) rs stop).0),
  λ h. ground (arith, (verify_from-Chain (r.ticket_end +ℤ pos 1) rs stop).1),
)

-- A verification accepts exactly the ranges that lie one behind the other from 0 up to the expected
-- total, each with a positive amount and as many tickets as its amount.
pub verify-iff-Chain :
    (rs : List TicketRange) (expected_total : ℤ)
    → ((verify_ticket_ranges rs expected_total).ranges_cover_total ≡ true)
      ↔ Chain (pos 0) rs expected_total
unfolding verify_ticket_ranges
verify-iff-Chain rs n = verify_from-Chain (pos 0) rs n

-- The ranges that are built from some entries are accepted for the sum of the amounts, and they name
-- the same ids, owners and amounts in the same order.
pub build-verify :
    (es : List TicketRangeInput) (rs : List TicketRange)
    → build_ticket_ranges es ≡ ok rs
    → ((verify_ticket_ranges rs (total es)).ranges_cover_total ≡ true) × (inputs rs ≡ es)
unfolding build_ticket_ranges
build-verify es rs h =
    let (chain, same) = build_from-Chain (pos 0) es rs h in
    let stop : pos 0 +ℤ total es ≡ total es = omega int_laws in
    ((verify-iff-Chain rs (total es)).1 (rw stop at chain), same)

build_from-total :
    (c : ℤ) (es : List TicketRangeInput)
    → All (λ e. pos 1 ≤ℤ e.amount) es
    → (rs : List TicketRange) × (build_from c es ≡ ok rs)
unfolding build_from
build_from-total c [] h = ([], refl)
build_from-total c (e ∷ es) h =
    let fine : leb_ℤ e.amount (pos 0) ≡ false = ground arith in
    let (rest, q) = build_from-total (c +ℤ e.amount -ℤ pos 1 +ℤ pos 1) es h.1 in
    let range : TicketRange = record {
      id = e.id;
      user_id = e.user_id;
      amount = e.amount;
      ticket_start = c;
      ticket_end = c +ℤ e.amount -ℤ pos 1;
    } in
    (range ∷ rest, rw (fine, q) refl)

-- Ranges can be built for all entries whose amounts are positive.
pub build_total :
    (es : List TicketRangeInput)
    → All (λ e. pos 1 ≤ℤ e.amount) es
    → (rs : List TicketRange) × (build_ticket_ranges es ≡ ok rs)
unfolding build_ticket_ranges
build_total es h = build_from-total (pos 0) es h
