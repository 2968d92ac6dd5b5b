-- ===== src/Engine/SpinAngle.antt =====
-- The wheel angle of a ticket (packages/game-engine/src/spin-angle.ts). The result is a whole number
-- of ten-thousandths of a degree: the last line of the source divides it by 10 000 as a float.
mod Tests
use kingspin.Prelude.{◌||◌, ◌+◌, ◌*◌, ◌<◌, ◌≤◌, ◌/◌, ◌≡◌, arith, if◌then◌else◌, ℕ, ◌==◌, refl}
use kingspin.Prelude.Int.{ℤ, pos, ◌*ℤ◌, ◌/ℤ◌, leb_ℤ, ltb_ℤ}
use native.Mathlib.Nat.{le-div_iff_mul-le, div-lt_iff_lt-mul, div-mul-le_self, le_trans}
use kingspin.Prelude.Result.{Result, ok, err, error}

unfoldable pub calculate_spin_angle : ℤ → ℤ → Result ℤ
calculate_spin_angle winning_ticket total_tickets =
    if leb_ℤ total_tickets (pos 0)
    then ok (pos 0)
    else if ltb_ℤ winning_ticket (pos 0) || leb_ℤ total_tickets winning_ticket
    then err (error "winningTicket must be within total ticket range.")
    else ok (winning_ticket *ℤ pos 3_600_000 /ℤ total_tickets)

angle_pos : (t n : ℕ) → t < n → calculate_spin_angle (pos t) (pos n) ≡ ok (pos (t * 3_600_000 / n))
unfolding calculate_spin_angle ◌*ℤ◌ ◌/ℤ◌
angle_pos t n h = ground arith

-- The angle of a ticket in a total above zero is the part of the full turn of 3 600 000 that the ticket
-- is of the total, rounded down to a whole number. So it is below a full turn, and no later ticket has a
-- smaller angle.
pub spin_angle_floor :
    (t u n : ℕ)
    → t ≤ u
    → u < n
    → (a : ℕ) × (b : ℕ) × (calculate_spin_angle (pos t) (pos n) ≡ ok (pos a))
      × (calculate_spin_angle (pos u) (pos n) ≡ ok (pos b))
      × (a * n ≤ t * 3_600_000)
      × (t * 3_600_000 < (a + 1) * n)
      × (b * n ≤ u * 3_600_000)
      × (u * 3_600_000 < (b + 1) * n)
      × (a ≤ b)
      × (b < 3_600_000)
spin_angle_floor t u n h k =
    let start : 0 < n = omega arith in
    let a : ℕ = t * 3_600_000 / n in
    let b : ℕ = u * 3_600_000 / n in
    let low : a * n ≤ t * 3_600_000 = div-mul-le_self (t * 3_600_000) n in
    let high : t * 3_600_000 < (a + 1) * n = (div-lt_iff_lt-mul start).0 (omega arith) in
    let low_b : b * n ≤ u * 3_600_000 = div-mul-le_self (u * 3_600_000) n in
    let high_b : u * 3_600_000 < (b + 1) * n = (div-lt_iff_lt-mul start).0 (omega arith) in
    (
      a,
      b,
      angle_pos t n (omega arith),
      angle_pos u n k,
      low,
      high,
      low_b,
      high_b,
      (le-div_iff_mul-le start).1 (le_trans low (omega arith)),
      (div-lt_iff_lt-mul start).1 (omega arith),
    )
