-- ===== src/Engine/Machine/Tests.antt =====
-- The state machine at concrete statuses.
use kingspin.Prelude.{◌≤◌, refl}
use kingspin.Engine.Machine.{
  open_round, locked, drawing, spinning, settling, completed, can_transition_round,
}
use kingspin.Engine.Machine.Paths.{Run, here, step, Run-length}

full-Run : Run open_round 5 completed
unfolding can_transition_round
full-Run =
    step {t = settling}
      (step {t = spinning}
        (step {t = drawing} (step {t = locked} (step {t = open_round} here refl) refl) refl) refl)
      refl

Run-length_example : 5 ≤ 5
Run-length_example = Run-length full-Run

payout : Run settling 1 completed
unfolding can_transition_round
payout = step {t = settling} here refl
