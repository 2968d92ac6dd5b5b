-- ===== src/Rounds/Tests.antt =====
-- What a round pays and shows, at concrete numbers.
use kingspin.Prelude.{◌≡◌, refl, arith, some, none}
use kingspin.Prelude.Int.{pos, ◌+ℤ◌, ◌-ℤ◌}
use kingspin.Engine.Machine.{spinning}
use kingspin.Rounds.Payout.{
  calculate_winner_payout_amounts, calculate_platform_fee_amount, payout_splits,
}
use kingspin.Rounds.Phase.{
  PublicRoundPhaseInput, IsTimed, build_public_round_phase_view, phase-IsTimed,
}

fee_runs : calculate_platform_fee_amount (pos 750) (pos 500) ≡ pos 37
unfolding calculate_platform_fee_amount
fee_runs = refl

payout_splits_example :
    (calculate_winner_payout_amounts (pos 1000) (pos 250) (pos 500)).payout_amount
      +ℤ (calculate_winner_payout_amounts (pos 1000) (pos 250) (pos 500)).platform_fee_amount
    ≡ pos 1000
payout_splits_example = payout_splits (pos 1000) (pos 250) (pos 500) (omega arith) (omega arith)

abbrev round : PublicRoundPhaseInput
round = record {
  status = some spinning;
  locks_at = some (pos 1000);
  locked_at = some (pos 1000);
  drawing_at = some (pos 1800);
  spinning_at = some (pos 2100);
  settling_at = none;
  completed_at = none;
  cancelled_at = none;
  winner_entry_id = some "e1";
  entry_count = some (pos 3);
}

phase_runs : (build_public_round_phase_view round (pos 3100)).ms_until_phase_end ≡ pos 7000
unfolding build_public_round_phase_view ◌+ℤ◌ ◌-ℤ◌
phase_runs = refl

phase-IsTimed_example : IsTimed (build_public_round_phase_view round (pos 3100))
phase-IsTimed_example = phase-IsTimed round (pos 3100)
