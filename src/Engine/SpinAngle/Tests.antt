-- ===== src/Engine/SpinAngle/Tests.antt =====
-- Angles of concrete tickets.
use kingspin.Prelude.{◌≡◌, ℕ, ◌+◌, ◌*◌, ◌<◌, ◌≤◌, arith, refl}
use kingspin.Prelude.Int.{pos, ◌*ℤ◌, ◌/ℤ◌}
use kingspin.Prelude.Result.{ok}
use kingspin.Engine.SpinAngle.{calculate_spin_angle, spin_angle_floor}

quarter : calculate_spin_angle (pos 250) (pos 1000) ≡ ok (pos 900_000)
unfolding calculate_spin_angle ◌*ℤ◌ ◌/ℤ◌
quarter = refl

spin_angle_floor_example :
    (a : ℕ) × (b : ℕ) × (calculate_spin_angle (pos 3) (pos 7) ≡ ok (pos a))
    × (calculate_spin_angle (pos 5) (pos 7) ≡ ok (pos b))
    × (a * 7 ≤ 3 * 3_600_000)
    × (3 * 3_600_000 < (a + 1) * 7)
    × (b * 7 ≤ 5 * 3_600_000)
    × (5 * 3_600_000 < (b + 1) * 7)
    × (a ≤ b)
    × (b < 3_600_000)
spin_angle_floor_example = spin_angle_floor 3 5 7 (omega arith) (omega arith)
