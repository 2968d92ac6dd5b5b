-- ===== src/Engine/Draw/Fair.antt =====
-- No modulo bias: the digests that the draw accepts fall equally often on every ticket.
use native.Mathlib.Nat.{div-add-mod, mul_comm, div-mul-le_self}
use kingspin.Prelude.{
  ℕ, ◌*◌, ◌/◌, ◌%◌, ◌^◌, ◌<◌, ◌≡◌, ◌∙◌, Bool, false, arith, leb, ◌==◌, if◌then◌else◌,
}
use kingspin.Prelude.Int.{ℤ, pos, ◌-ℤ◌, ◌%ℤ◌, leb_ℤ, ◌==ℤ◌}
use kingspin.Prelude.Count.{count_below, count_below-ext, count_below-cut, count_below-blocks}
use kingspin.Engine.Draw.{sha256_space, acceptance_limit}

-- The largest multiple of the total that fits into the space.
largest_multiple : (s n : ℕ) → pos s -ℤ pos s %ℤ pos n ≡ pos (s / n * n)
unfolding ◌-ℤ◌ ◌%ℤ◌
largest_multiple s n = ground (arith, div-add-mod s n, mul_comm n (s / n))

-- Whether a digest of the given value is accepted and draws the ticket `t`.
abbrev pub draws : ℤ → ℤ → ℕ → Bool
draws total t digest =
    if leb_ℤ (acceptance_limit total) (pos digest) then false else (pos digest %ℤ total) ==ℤ t

uniform :
    (s n t : ℕ)
    → t < n
    → count_below s
        (λ d. if leb_ℤ (pos s -ℤ pos s %ℤ pos n) (pos d) then false else (pos d %ℤ pos n) ==ℤ pos t)
      ≡ s / n
unfolding ◌%ℤ◌
uniform s n t h =
    let same =
      count_below-ext s
        (λ d. if leb_ℤ (pos s -ℤ pos s %ℤ pos n) (pos d) then false else (pos d %ℤ pos n) ==ℤ pos t)
        (λ d. if leb (s / n * n) d then false else d % n == t)
        (λ d k. rw (largest_multiple s n) (ground arith)) in
    same
    ∙ count_below-cut s (s / n * n) (λ d. d % n == t) (div-mul-le_self s n)
    ∙ count_below-blocks n t (s / n) h

-- Of the 2 ^ 256 values of a digest, every ticket of the total is drawn by equally many, namely
-- 2 ^ 256 divided by the total and rounded down.
pub draws_uniform : (n t : ℕ) → t < n → count_below (2 ^ 256) (draws (pos n) (pos t)) ≡ 2 ^ 256 / n
unfolding acceptance_limit sha256_space
draws_uniform n t h = uniform (2 ^ 256) n t h
