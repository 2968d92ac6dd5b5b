-- ===== src/Engine/Machine/Paths.antt =====
-- The runs of a round's state machine: chains of transitions that the table allows.
use kingspin.Prelude.{ℕ, suc, ◌+◌, ◌≤◌, ◌≡◌, ◌≢◌, ◌↔◌, Bool, true, false, arith, refl}
use kingspin.Engine.Machine.{
  RoundStatus, open_round, locked, drawing, spinning, settling, completed, cancelled,
  can_transition_round, is_terminal_round_status,
}

-- A run of the machine, with its number of transitions.
pub data Run (s : RoundStatus) : ℕ → RoundStatus → Type 0 where
  here : Run s 0 s
  step : {n : ℕ} {t u : RoundStatus} → Run s n t → can_transition_round t u ≡ true → Run s (suc n) u

-- How far a status is along the way.
abbrev rank : RoundStatus → ℕ
rank open_round = 0
rank locked = 1
rank drawing = 2
rank spinning = 3
rank settling = 4
rank completed = 5
rank cancelled = 5

rank_step : (t u : RoundStatus) → can_transition_round t u ≡ true → suc (rank t) ≤ rank u
unfolding can_transition_round
rank_step t u h = ground arith

rank-Run : {s t : RoundStatus} {n : ℕ} → Run s n t → rank s + n ≤ rank t
rank-Run here = omega arith
rank-Run (step {t = t} {u = u} r h) = omega (arith, rank-Run r, rank_step t u h)

rank_le : (s : RoundStatus) → rank s ≤ 5
rank_le s = ground arith

-- Every run of the state machine has at most five transitions.
pub Run-length : {s t : RoundStatus} {n : ℕ} → Run s n t → n ≤ 5
Run-length {t = t} r = omega (arith, rank-Run r, rank_le t)

-- A status is terminal exactly when the table allows no transition out of it.
terminal_iff :
    (s : RoundStatus)
    → (is_terminal_round_status s ≡ true) ↔ ((t : RoundStatus) → can_transition_round s t ≡ false)
unfolding can_transition_round is_terminal_round_status
terminal_iff open_round = (λ h. cc, λ h. cc (h locked))
terminal_iff locked = (λ h. cc, λ h. cc (h drawing))
terminal_iff drawing = (λ h. cc, λ h. cc (h spinning))
terminal_iff spinning = (λ h. cc, λ h. cc (h settling))
terminal_iff settling = (λ h. cc, λ h. cc (h completed))
terminal_iff completed = (λ h t. refl, λ h. refl)
terminal_iff cancelled = (λ h t. refl, λ h. refl)

-- The settlement of a round and what comes after it.
abbrev settles : RoundStatus → Bool
settles settling = true
settles completed = true
settles _ = false

settles_step :
    (t u : RoundStatus) → settles t ≡ true → can_transition_round t u ≡ true → settles u ≡ true
unfolding can_transition_round
settles_step t u k h = ground arith

settles-Run : {s t : RoundStatus} {n : ℕ} → Run s n t → settles s ≡ true → settles t ≡ true
settles-Run here k = k
settles-Run (step {t = t} {u = u} r h) k = settles_step t u (settles-Run r k) h

-- From the settlement on, no run of any length reaches `cancelled`: a round that is being paid out
-- is never cancelled.
pub settling-not_cancelled : {t : RoundStatus} {n : ℕ} → Run settling n t → t ≢ cancelled
settling-not_cancelled r = λ e. cc (settles-Run r refl, e)
