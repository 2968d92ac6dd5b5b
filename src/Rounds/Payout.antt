-- ===== src/Rounds/Payout.antt =====
-- What a settled round pays (apps/api/src/modules/rounds/rounds.service.ts).
use native.Mathlib.Nat.{div-mul-le_self, mul-le-mul_left}
use kingspin.Prelude.{
  ℕ, zero, suc, ◌*◌, ◌/◌, ◌≤◌, ◌≡◌, ◌||◌, refl, arith, if◌then◌else◌, Bool-cases, inl, inr,
}
use kingspin.Prelude.Int.{ℤ, pos, negsuc, ◌+ℤ◌, ◌-ℤ◌, ◌*ℤ◌, ◌/ℤ◌, ◌≤ℤ◌, ltb_ℤ, leb_ℤ, int_laws}

unfoldable pub calculate_platform_fee_amount : ℤ → ℤ → ℤ
unfolding ◌*ℤ◌ ◌/ℤ◌
calculate_platform_fee_amount gross_pool_amount platform_fee_bps =
    if leb_ℤ gross_pool_amount (pos 0) || leb_ℤ platform_fee_bps (pos 0)
    then pos 0
    else (gross_pool_amount *ℤ platform_fee_bps) /ℤ pos 10000

pub record PayoutAmounts : Type 0 where
  pub losing_pool_amount : ℤ
  pub platform_fee_amount : ℤ
  pub payout_amount : ℤ

abbrev or_zero : ℤ → ℤ
or_zero a = if ltb_ℤ (pos 0) a then a else pos 0

abbrev losing_pool : ℤ → ℤ → ℤ
losing_pool total winner = if ltb_ℤ winner total then total -ℤ winner else pos 0

abbrev pub calculate_winner_payout_amounts : ℤ → ℤ → ℤ → PayoutAmounts
calculate_winner_payout_amounts total_entry_amount winner_entry_amount platform_fee_bps =
    let winner = or_zero winner_entry_amount in
    let losing = losing_pool (or_zero total_entry_amount) winner in
    let fee = calculate_platform_fee_amount losing platform_fee_bps in
    record {
      losing_pool_amount = losing;
      platform_fee_amount = fee;
      payout_amount = winner +ℤ losing -ℤ fee;
    }

fee_ℕ : (a b : ℕ) → b ≤ 10000 → a * b / 10000 ≤ a
fee_ℕ a b h = omega (arith, div-mul-le_self (a * b) 10000, mul-le-mul_left a h)

fee_bound :
    (pool bps : ℤ)
    → pos 0 ≤ℤ pool
    → bps ≤ℤ pos 10000
    → (pos 0 ≤ℤ calculate_platform_fee_amount pool bps)
      × (calculate_platform_fee_amount pool bps ≤ℤ pool)
unfolding calculate_platform_fee_amount ◌*ℤ◌ ◌/ℤ◌
fee_bound (pos a) (pos b) h k = ground (arith, fee_ℕ a b (omega arith))
fee_bound (pos a) (negsuc b) h k = ground arith
fee_bound (negsuc a) bps h k = ground arith

or_zero_self : (a : ℤ) → pos 0 ≤ℤ a → or_zero a ≡ a
or_zero_self (pos zero) h = refl
or_zero_self (pos (suc a)) h = ground arith
or_zero_self (negsuc a) h = ground arith

losing_pool_le : (total winner : ℤ) → winner ≤ℤ total → losing_pool total winner ≡ total -ℤ winner
losing_pool_le total winner h = elim (Bool-cases (ltb_ℤ winner total)) [
  | inl t ↦ rw t refl
  | inr t ↦ rw t (let le : total ≤ℤ winner = ground arith in omega int_laws)
]

-- Where the winner's stake is not negative and part of the pool, the payout and the fee are together
-- the whole pool.
pub payout_splits :
    (total winner bps : ℤ)
    → pos 0 ≤ℤ winner
    → winner ≤ℤ total
    → (calculate_winner_payout_amounts total winner bps).payout_amount
        +ℤ (calculate_winner_payout_amounts total winner bps).platform_fee_amount
      ≡ total
payout_splits total winner bps h k =
    let whole : pos 0 ≤ℤ total = omega arith in
    rw (or_zero_self winner h, or_zero_self total whole, losing_pool_le total winner k)
      (omega int_laws)

-- Where the winner's stake is not negative and part of the pool, and the fee's rate is at most 10000
-- basis points, the winner is paid at least the stake and at most the pool, and the fee is at most what
-- the others staked.
pub payout_bounds :
    (total winner bps : ℤ)
    → pos 0 ≤ℤ winner
    → winner ≤ℤ total
    → bps ≤ℤ pos 10000
    → (winner ≤ℤ (calculate_winner_payout_amounts total winner bps).payout_amount)
      × ((calculate_winner_payout_amounts total winner bps).payout_amount ≤ℤ total)
      × ((calculate_winner_payout_amounts total winner bps).platform_fee_amount ≤ℤ total -ℤ winner)
payout_bounds total winner bps h k low =
    let whole : pos 0 ≤ℤ total = omega arith in
    let pool : pos 0 ≤ℤ total -ℤ winner = omega int_laws in
    let (none_lost, at_most) = fee_bound (total -ℤ winner) bps pool low in
    rw (or_zero_self winner h, or_zero_self total whole, losing_pool_le total winner k)
      (omega int_laws, omega int_laws, at_most)
