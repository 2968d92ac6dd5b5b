-- ===== src/Prelude/Count.antt =====
-- How many numbers below a bound pass a test.
use native.Mathlib.Nat.{
  mod-eq_of_lt, zero-add, suc-add, zero-mul, suc-mul, add-mul-mod_self_right, add_comm,
}
use kingspin.Prelude.{
  ℕ, zero, suc, ◌+◌, ◌-◌, ◌*◌, ◌%◌, ◌≤◌, ◌<◌, ◌≡◌, refl, ◌∙◌, Bool, false, arith, leb, ltb, ◌==◌,
  if◌then◌else◌,
}

unfoldable pub count_below : ℕ → (ℕ → Bool) → ℕ
count_below zero p = 0
count_below (suc n) p = count_below n p + (if p n then 1 else 0)

pub count_below-ext :
    (n : ℕ) (p q : ℕ → Bool) → ((i : ℕ) → i < n → p i ≡ q i) → count_below n p ≡ count_below n q
unfolding count_below
count_below-ext zero p q h = refl
count_below-ext (suc n) p q h =
    rw (count_below-ext n p q (λ i k. h i (omega arith)), h n (omega arith)) refl

count_below-add :
    (a m : ℕ) (p : ℕ → Bool)
    → count_below (m + a) p ≡ count_below a p + count_below m (λ i. p (i + a))
unfolding count_below
count_below-add a zero p = rw zero-add (omega arith)
count_below-add a (suc m) p = rw suc-add (omega (arith, count_below-add a m p))

count_below-none : (n : ℕ) → count_below n (λ i. false) ≡ 0
unfolding count_below
count_below-none zero = refl
count_below-none (suc n) = omega (arith, count_below-none n)

count_below-single : (n t : ℕ) → count_below n (λ i. i == t) ≡ (if ltb t n then 1 else 0)
unfolding count_below
count_below-single zero t = ground arith
count_below-single (suc n) t = ground (arith, count_below-single n t)

-- In `q` blocks of `n` numbers every remainder is met `q` times.
pub count_below-blocks : (n t q : ℕ) → t < n → count_below (q * n) (λ v. v % n == t) ≡ q
unfolding count_below
count_below-blocks n t zero h = rw zero-mul
count_below-blocks n t (suc q) h =
    let p = λ (v : ℕ). v % n == t in
    let shifted : count_below n (λ i. p (i + q * n)) ≡ count_below n (λ i. i == t) =
      count_below-ext n (λ i. p (i + q * n)) (λ i. i == t)
        λ i k. rw (add-mul-mod_self_right i q n, mod-eq_of_lt k) refl in
    let one : count_below n (λ i. i == t) ≡ 1 = count_below-single n t ∙ ground arith in
    rw (suc-mul, add_comm (q * n) n)
      (omega (arith, count_below-add (q * n) n p, shifted, one, count_below-blocks n t q h))

-- Among the numbers below a multiple of `n` that is at most `s`, every remainder is met equally often.
pub count_below-cut :
    (s limit : ℕ) (p : ℕ → Bool)
    → limit ≤ s
    → count_below s (λ v. if leb limit v then false else p v) ≡ count_below limit p
count_below-cut s limit p h =
    let cut = λ (v : ℕ). if leb limit v then false else p v in
    let low : count_below limit cut ≡ count_below limit p =
      count_below-ext limit cut p (λ i k. ground arith) in
    let high : count_below (s - limit) (λ i. cut (i + limit)) ≡ 0 =
      count_below-ext (s - limit) (λ i. cut (i + limit)) (λ i. false) (λ i k. ground arith)
      ∙ count_below-none (s - limit) in
    let split = count_below-add limit (s - limit) cut in
    let whole : s - limit + limit ≡ s = omega arith in
    rw (← whole) (omega (arith, split, low, high))
