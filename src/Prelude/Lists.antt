-- ===== src/Prelude/Lists.antt =====
-- Lists measured by native numbers, predicates on their members, and searches by a Boolean test.
use kingspin.Prelude.{
  ℕ, suc, ◌+◌, ◌≡◌, Bool, true, false, List, [], ◌∷◌, ◌++◌, map, Option, none, some, arith,
  if◌then◌else◌, Bool-cases, inl, inr,
}
use mathlib.Core.Path.{subst}

module _ {ℓ} {A : Type ℓ} where
  abbrev pub length : List A → ℕ
  length [] = 0
  length (x ∷ xs) = suc (length xs)

  -- `Array.prototype.find`, and a query for the first row.
  abbrev pub find : (A → Bool) → List A → Option A
  find p [] = none
  find p (x ∷ xs) = if p x then some x else find p xs

  -- `Array.prototype.filter`, and a query for all rows.
  abbrev pub select : (A → Bool) → List A → List A
  select p [] = []
  select p (x ∷ xs) = if p x then x ∷ select p xs else select p xs

  -- `Array.prototype.some`
  abbrev pub any : (A → Bool) → List A → Bool
  any p [] = false
  any p (x ∷ xs) = if p x then true else any p xs

  pub length-append : (xs ys : List A) → length (xs ++ ys) ≡ length xs + length ys
  length-append [] ys = omega arith
  length-append (x ∷ xs) ys = omega (arith, length-append xs ys)

abbrev pub All {ℓ κ} : {A : Type ℓ} → (A → Type κ) → List A → Type κ
All P [] = Unit
All P (x ∷ xs) = P x × All P xs

pub All-append {ℓ κ} :
    {A : Type ℓ} (P : A → Type κ) (xs ys : List A) → All P xs → All P ys → All P (xs ++ ys)
All-append P [] ys h k = k
All-append P (x ∷ xs) ys h k = (h.0, All-append P xs ys h.1 k)

pub All-map {ℓ κ ι} :
    {A : Type ℓ} (P : A → Type κ) (Q : A → Type ι) (f : A → A)
    → ((x : A) → P x → Q (f x))
    → (xs : List A) → All P xs
    → All Q (map f xs)
All-map P Q f h [] k = tt
All-map P Q f h (x ∷ xs) k = (h x k.0, All-map P Q f h xs k.1)

pub All-imp {ℓ κ ι} :
    {A : Type ℓ} (P : A → Type κ) (Q : A → Type ι)
    → ((x : A) → P x → Q x)
    → (xs : List A) → All P xs
    → All Q xs
All-imp P Q h [] k = tt
All-imp P Q h (x ∷ xs) k = (h x k.0, All-imp P Q h xs k.1)

pub some_eq {ℓ} : {A : Type ℓ} {x y : A} → some x ≡ some y → x ≡ y
some_eq e = cc

-- What a search finds meets its test, and every property of all members.
pub All-find {ℓ κ} :
    {A : Type ℓ} (P : A → Type κ) (p : A → Bool) (xs : List A) {a : A}
    → All P xs
    → find p xs ≡ some a
    → P a × (p a ≡ true)
All-find P p [] k e = cc
All-find P p (x ∷ xs) {a} k e = elim (Bool-cases (p x)) [
  | inl t ↦ subst (λ b. P b × (p b ≡ true)) (some_eq (rw (t) at e)) (k.0, t)
  | inr f ↦ All-find P p xs k.1 (rw (f) at e)
]

pub any-false {ℓ} :
    {A : Type ℓ} (p : A → Bool) (x : A) (xs : List A)
    → any p (x ∷ xs) ≡ false
    → (p x ≡ false) × (any p xs ≡ false)
any-false p x xs h = elim (Bool-cases (p x)) [ inl t ↦ cc (rw t at h) | inr f ↦ (f, rw f at h) ]

pub every {ℓ} : {A : Type ℓ} (xs : List A) → All (λ x. Unit {0}) xs
every [] = tt
every (x ∷ xs) = (tt, every xs)

pub any-find {ℓ} :
    {A : Type ℓ} (p : A → Bool) (xs : List A) {a : A} → find p xs ≡ some a → any p xs ≡ true
any-find p [] e = cc
any-find p (x ∷ xs) e = elim (Bool-cases (p x)) [
  | inl t ↦ rw t
  | inr f ↦ rw f (any-find p xs (rw f at e))
]

-- What was found is found among more elements.
pub find-more {ℓ} :
    {A : Type ℓ} (p : A → Bool) (xs ys : List A) {a : A}
    → find p xs ≡ some a
    → find p (xs ++ ys) ≡ some a
find-more p [] ys e = cc
find-more p (x ∷ xs) ys e = elim (Bool-cases (p x)) [
  | inl t ↦ rw t (rw t at e)
  | inr f ↦ rw f (find-more p xs ys (rw f at e))
]
