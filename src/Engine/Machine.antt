-- ===== src/Engine/Machine.antt =====
-- The state machine of a round (packages/game-engine/src/round-machine.ts).
pub mod Paths
mod Tests
use kingspin.Prelude.{
  ◌≡◌, ⊤, Bool, true, false, not, ◌||◌, List, [], ◌∷◌, arith, if◌then◌else◌, inl, inr,
}
use kingspin.Prelude.Lists.{any}

pub data RoundStatus : Type 0 where
  open_round locked drawing spinning settling completed cancelled : RoundStatus

unfoldable pub allowed_transitions : RoundStatus → List RoundStatus
allowed_transitions open_round = locked ∷ cancelled ∷ []
allowed_transitions locked = drawing ∷ cancelled ∷ []
allowed_transitions drawing = spinning ∷ cancelled ∷ []
allowed_transitions spinning = settling ∷ cancelled ∷ []
allowed_transitions settling = completed ∷ []
allowed_transitions completed = []
allowed_transitions cancelled = []

-- `===` on statuses
abbrev pub status_eq : RoundStatus → RoundStatus → Bool
status_eq open_round open_round = true
status_eq locked locked = true
status_eq drawing drawing = true
status_eq spinning spinning = true
status_eq settling settling = true
status_eq completed completed = true
status_eq cancelled cancelled = true
status_eq _ _ = false

unfoldable pub can_transition_round : RoundStatus → RoundStatus → Bool
unfolding allowed_transitions
can_transition_round from to = any (status_eq to) (allowed_transitions from)

pub data Transition : Type 0 where
  ok : Transition
  invalid_round_transition : RoundStatus → RoundStatus → Transition

unfoldable pub assert_round_transition : RoundStatus → RoundStatus → Transition
unfolding can_transition_round
assert_round_transition from to =
    if not (can_transition_round from to) then invalid_round_transition from to else ok

unfoldable pub is_terminal_round_status : RoundStatus → Bool
is_terminal_round_status status = status_eq status completed || status_eq status cancelled

unfoldable pub is_active_round_status : RoundStatus → Bool
unfolding is_terminal_round_status
is_active_round_status status = not (is_terminal_round_status status)
