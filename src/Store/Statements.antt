-- ===== src/Store/Statements.antt =====
-- What a sequence of statements comes from.
use kingspin.Prelude.{◌≡◌, refl}
use kingspin.Prelude.Result.{Result, ok, err}
use kingspin.Store.Tables.{Db}
use kingspin.Store.Service.{Service, ◌>>=◌}

-- A sequence that went through went through step by step.
pub bind_steps :
    {A B : Type 0} (m : Service A) (f : A → Service B) (db : Db) {b : B} {next : Db}
    → (m >>= f) db ≡ (ok b, next)
    → (a : A) × (d : Db) × (m db ≡ (ok a, d)) × (f a d ≡ (ok b, next))
bind_steps {A} {B} m f db {b} {next} e = go (m db) refl e
  where
    go :
        (p : Result A × Db)
        → m db ≡ p
        → ◌≡◌ {A = Result B × Db}
            (elim p.0 as (λ x. Result B × Db) [ ok a ↦ f a p.1 | err x ↦ (err x, p.1) ])
            (ok b, next)
        → (a : A) × (d : Db) × (m db ≡ (ok a, d)) × (f a d ≡ (ok b, next))
    go (ok a, d) same h = (a, d, same, h)
    go (err x, d) same h = cc
