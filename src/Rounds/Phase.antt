-- ===== src/Rounds/Phase.antt =====
-- What players are shown of a round (apps/api/src/modules/rounds/public-round-phase.ts). Dates are in
-- milliseconds; `null` and `undefined` are both none.
use kingspin.Prelude.{String, Option, none, some, if◌then◌else◌, ◌≡◌, refl, ◌⊎◌, inl, inr, arith}
use kingspin.Prelude.Int.{ℤ, pos, ◌+ℤ◌, ◌-ℤ◌, ◌≤ℤ◌, ltb_ℤ, leb_ℤ}
use kingspin.Prelude.Text.{is_empty}
use kingspin.Engine.Machine.{
  RoundStatus, open_round, locked, drawing, spinning, settling, completed, cancelled,
}

pub data PublicRoundPhase : Type 0 where
  entry_open randomizing spinning_phase result : PublicRoundPhase

pub data PublicRoundResultReason : Type 0 where
  winner skipped_empty refunded_single : PublicRoundResultReason

abbrev pub locked_phase : ℤ
locked_phase = pos 800

abbrev pub drawing_phase : ℤ
drawing_phase = pos 300

abbrev pub spinning_phase_ms : ℤ
spinning_phase_ms = pos 8000

abbrev pub settling_phase : ℤ
settling_phase = pos 300

abbrev pub cooldown_phase : ℤ
cooldown_phase = pos 10000

abbrev pub phase_label : PublicRoundPhase → String
phase_label entry_open = "ENTRY OPEN"
phase_label randomizing = "DRAWING"
phase_label spinning_phase = "SPINNING"
phase_label result = "RESULT"

pub record PublicRoundPhaseInput : Type 0 where
  pub status : Option RoundStatus
  pub locks_at : Option ℤ
  pub locked_at : Option ℤ
  pub drawing_at : Option ℤ
  pub spinning_at : Option ℤ
  pub settling_at : Option ℤ
  pub completed_at : Option ℤ
  pub cancelled_at : Option ℤ
  pub winner_entry_id : Option String
  pub entry_count : Option ℤ

pub record PublicRoundPhaseView : Type 0 where
  pub phase : PublicRoundPhase
  pub label : String
  pub ms_until_phase_end : ℤ
  pub ms_until_next_round : Option ℤ
  pub result_reason : Option PublicRoundResultReason

-- `Math.max(0, …)`
abbrev max_zero : ℤ → ℤ
max_zero a = if ltb_ℤ (pos 0) a then a else pos 0

abbrev pub ms_until : Option ℤ → ℤ → ℤ
ms_until none now = pos 0
ms_until (some date) now = max_zero (date -ℤ now)

abbrev pub add_ms : Option ℤ → ℤ → Option ℤ
add_ms none ms = none
add_ms (some date) ms = some (date +ℤ ms)

abbrev pub count_of : Option ℤ → ℤ
count_of none = pos 0
count_of (some n) = n

abbrev pub winner_reason : Option String → Option PublicRoundResultReason
winner_reason none = none
winner_reason (some id) = if is_empty id then none else some winner

abbrev pub result_reason_for_round :
    RoundStatus → Option String → Option ℤ → Option PublicRoundResultReason
result_reason_for_round settling id count = winner_reason id
result_reason_for_round completed id count = winner_reason id
result_reason_for_round cancelled id count =
    if leb_ℤ (count_of count) (pos 0) then some skipped_empty else some refunded_single
result_reason_for_round _ id count = none

abbrev pub get_cancelled_round_visibility_ms : Option ℤ → ℤ
get_cancelled_round_visibility_ms count =
    if leb_ℤ (count_of count) (pos 0) then pos 1500 else pos 2500

-- A phase before the result, and the result, that end at a date.
abbrev pub running : PublicRoundPhase → Option ℤ → ℤ → PublicRoundPhaseView
running phase ends_at now = record {
  phase = phase;
  label = phase_label phase;
  ms_until_phase_end = ms_until ends_at now;
  ms_until_next_round = none;
  result_reason = none;
}

abbrev pub shown : Option ℤ → ℤ → Option PublicRoundResultReason → PublicRoundPhaseView
shown ends_at now reason = record {
  phase = result;
  label = phase_label result;
  ms_until_phase_end = ms_until ends_at now;
  ms_until_next_round = some (ms_until ends_at now);
  result_reason = reason;
}

abbrev pub view_at : RoundStatus → PublicRoundPhaseInput → ℤ → PublicRoundPhaseView
view_at open_round r now = running entry_open r.locks_at now
view_at locked r now = running randomizing (add_ms r.locked_at (locked_phase +ℤ drawing_phase)) now
view_at drawing r now = running randomizing (add_ms r.drawing_at drawing_phase) now
view_at spinning r now = running spinning_phase (add_ms r.spinning_at spinning_phase_ms) now
view_at settling r now =
    shown (add_ms r.settling_at settling_phase) now
      (result_reason_for_round settling r.winner_entry_id r.entry_count)
view_at completed r now =
    shown (add_ms r.completed_at cooldown_phase) now
      (result_reason_for_round completed r.winner_entry_id r.entry_count)
view_at cancelled r now =
    shown (add_ms r.cancelled_at (get_cancelled_round_visibility_ms r.entry_count)) now
      (result_reason_for_round cancelled r.winner_entry_id r.entry_count)

abbrev pub of_status : Option RoundStatus → PublicRoundPhaseInput → ℤ → PublicRoundPhaseView
of_status none r now = shown none now none
of_status (some status) r now = view_at status r now

unfoldable pub build_public_round_phase_view : PublicRoundPhaseInput → ℤ → PublicRoundPhaseView
build_public_round_phase_view r now = of_status r.status r now

max_zero_low : (a : ℤ) → pos 0 ≤ℤ max_zero a
max_zero_low a = ground arith

ms_until_low : (date : Option ℤ) (now : ℤ) → pos 0 ≤ℤ ms_until date now
ms_until_low none now = omega arith
ms_until_low (some date) now = max_zero_low (date -ℤ now)

-- The time left is not negative, and the next round is announced exactly in the result phase.
abbrev pub IsTimed : PublicRoundPhaseView → Type 0
IsTimed v =
    (pos 0 ≤ℤ v.ms_until_phase_end)
    × ((v.phase ≡ result) × (v.ms_until_next_round ≡ some v.ms_until_phase_end)
        ⊎ (¬ (v.phase ≡ result)) × (v.ms_until_next_round ≡ none))

running-IsTimed :
    (phase : PublicRoundPhase) (ends_at : Option ℤ) (now : ℤ)
    → ¬ (phase ≡ result)
    → IsTimed (running phase ends_at now)
running-IsTimed phase ends_at now h = (ms_until_low ends_at now, inr (h, refl))

shown-IsTimed :
    (ends_at : Option ℤ) (now : ℤ) (reason : Option PublicRoundResultReason)
    → IsTimed (shown ends_at now reason)
shown-IsTimed ends_at now reason = (ms_until_low ends_at now, inl (refl, refl))

view_at-IsTimed :
    (s : RoundStatus) (r : PublicRoundPhaseInput) (now : ℤ) → IsTimed (view_at s r now)
view_at-IsTimed open_round r now = running-IsTimed entry_open r.locks_at now (λ e. cc)
view_at-IsTimed locked r now =
    running-IsTimed randomizing (add_ms r.locked_at (locked_phase +ℤ drawing_phase)) now (λ e. cc)
view_at-IsTimed drawing r now =
    running-IsTimed randomizing (add_ms r.drawing_at drawing_phase) now (λ e. cc)
view_at-IsTimed spinning r now =
    running-IsTimed spinning_phase (add_ms r.spinning_at spinning_phase_ms) now (λ e. cc)
view_at-IsTimed settling r now =
    shown-IsTimed (add_ms r.settling_at settling_phase) now
      (result_reason_for_round settling r.winner_entry_id r.entry_count)
view_at-IsTimed completed r now =
    shown-IsTimed (add_ms r.completed_at cooldown_phase) now
      (result_reason_for_round completed r.winner_entry_id r.entry_count)
view_at-IsTimed cancelled r now =
    shown-IsTimed (add_ms r.cancelled_at (get_cancelled_round_visibility_ms r.entry_count)) now
      (result_reason_for_round cancelled r.winner_entry_id r.entry_count)

of_status-IsTimed :
    (s : Option RoundStatus) (r : PublicRoundPhaseInput) (now : ℤ) → IsTimed (of_status s r now)
of_status-IsTimed none r now = shown-IsTimed none now none
of_status-IsTimed (some s) r now = view_at-IsTimed s r now

-- Whatever the status, the dates and the clock are, the time that is left in a phase is not negative,
-- and the time to the next round is shown exactly in the result phase, where it is the time that is
-- left in it.
pub phase-IsTimed :
    (r : PublicRoundPhaseInput) (now : ℤ) → IsTimed (build_public_round_phase_view r now)
unfolding build_public_round_phase_view
phase-IsTimed r now = of_status-IsTimed r.status r now
