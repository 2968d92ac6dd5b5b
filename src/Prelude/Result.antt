-- ===== src/Prelude/Result.antt =====
-- What is thrown, and a computation that may throw.
use kingspin.Prelude.{⊤, Bool, true, false, String, ◌≡◌, refl, ap, ◌∙◌, ◌⊎◌, inl, inr}

-- The exceptions of the source, with their messages: plain errors, those that the server turns into
-- a status code, and those of the database client (P2002 on a unique column, P2025 for a record that
-- is required and not there), and `EntryIdempotencyRaceError`.
pub data Error : Type 0 where
  error bad_request not_found conflict forbidden : String → Error
  unique_constraint record_not_found entry_idempotency_race : Error

-- What is thrown, or what is returned.
pub data Result {ℓ} (A : Type ℓ) : Type ℓ where
  err : Error → Result A
  ok : A → Result A

-- `if (c) throw e`
abbrev pub throw_if : Bool → Error → Result ⊤
throw_if true e = err e
throw_if false e = ok tt

-- An exception ends the computation.
infixl 5 ◌>>=◌
abbrev pub ◌>>=◌ {ℓ ι} : {A : Type ℓ} {C : Type ι} → Result A → (A → Result C) → Result C
err x >>= next = err x
ok a >>= next = next a

infixl 5 ◌>>◌
abbrev pub ◌>>◌ {ι} : {C : Type ι} → Result ⊤ → Result C → Result C
◌>>◌ check next = check >>= λ u. next

pub Result-cases {ℓ} :
    {A : Type ℓ} (r : Result A) → ((a : A) × (r ≡ ok a)) ⊎ ((e : Error) × (r ≡ err e))
Result-cases (ok a) = inl (a, refl)
Result-cases (err e) = inr (e, refl)

pub err-ne-ok {ℓ} : {A : Type ℓ} {x : Error} {a : A} → err x ≡ ok a → ⊥
err-ne-ok e = cc

pub ok_eq {ℓ} : {A : Type ℓ} {a b : A} → ok a ≡ ok b → a ≡ b
ok_eq e = cc

pub bind_ok {ℓ κ} :
    {A : Type ℓ} {B : Type κ} (m : Result A) (f : A → Result B) {a : A} {r : Result B}
    → m ≡ ok a
    → f a ≡ r
    → (m >>= f) ≡ r
bind_ok m f h k = ap (λ x. x >>= f) h ∙ k
