-- ===== src/Store/Service.antt =====
-- Work outside a transaction: each statement, and each `$transaction`, is committed before the next one.
use kingspin.Prelude.{⊤, Bool, true, false, Option, none, some, if◌then◌else◌}
use kingspin.Prelude.Result.{Error, Result, ok, err, unique_constraint}
use kingspin.Store.Tables.{Db}

abbrev pub Service : Type 0 → Type 0
Service A = Db → Result A × Db

infixl 5 ◌>>=◌ ◌>>◌
abbrev pub ◌>>=◌ : {A B : Type 0} → Service A → (A → Service B) → Service B
◌>>=◌ m f db = let (r, next) = m db in elim r [ ok a ↦ f a next | err e ↦ (err e, next) ]

abbrev pub ◌>>◌ : {B : Type 0} → Service ⊤ → Service B → Service B
m >> k = m >>= λ _. k

abbrev pub done : {A : Type 0} → A → Service A
done a db = (ok a, db)

abbrev pub fail : {A : Type 0} → Error → Service A
fail e db = (err e, db)

abbrev pub fail_if : Bool → Error → Service ⊤
fail_if true e = fail e
fail_if false e = done tt

-- A row that the code cannot do without.
abbrev pub need : {A : Type 0} → Option A → Error → Service A
need none e = fail e
need (some a) e = done a

-- What code that needs no database throws or returns.
abbrev pub lift : {A : Type 0} → Result A → Service A
lift (ok a) = done a
lift (err e) = fail e

-- `isUniqueConstraintError`
abbrev pub is_unique_constraint_error : Error → Bool
is_unique_constraint_error unique_constraint = true
is_unique_constraint_error _ = false

-- `try` with a handler for a violation of a unique column.
abbrev pub catch_unique : {A : Type 0} → Service A → Service A → Service A
catch_unique m handler db =
    let (r, next) = m db in
    elim r [
      | ok a ↦ (ok a, next)
      | err e ↦ if is_unique_constraint_error e then handler next else (err e, next)
    ]

-- What other requests commit at this point.
abbrev pub meanwhile : (Db → Db) → Service ⊤
meanwhile others db = (ok tt, others db)
