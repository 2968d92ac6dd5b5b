-- ===== src/Store/Tx.antt =====
-- Work inside a database transaction. A throw rolls the transaction back, so it carries no state; what
-- a transaction that was committed leaves behind is the state of the next one.
use kingspin.Prelude.{⊤, Bool, true, false, Option, none, some}
use kingspin.Prelude.Result.{Error, Result, ok, err}
use kingspin.Store.Tables.{Db}

abbrev pub Tx : Type 0 → Type 0
Tx A = Db → Result (A × Db)

infixl 5 ◌>>=◌ ◌>>◌
abbrev pub ◌>>=◌ : {A B : Type 0} → Tx A → (A → Tx B) → Tx B
◌>>=◌ m f db = elim (m db) [ ok (a, next) ↦ f a next | err e ↦ err e ]

abbrev pub ◌>>◌ : {B : Type 0} → Tx ⊤ → Tx B → Tx B
m >> k = m >>= λ _. k

abbrev pub pure : {A : Type 0} → A → Tx A
pure a db = ok (a, db)

abbrev pub throw : {A : Type 0} → Error → Tx A
throw e db = err e

abbrev pub throw_if : Bool → Error → Tx ⊤
throw_if true e = throw e
throw_if false e = pure tt

-- `findUniqueOrThrow`, and other reads that need a row.
abbrev pub or_throw : {A : Type 0} → Option A → Error → Tx A
or_throw none e = throw e
or_throw (some a) e = pure a

-- What code that needs no database throws or returns.
abbrev pub lift : {A : Type 0} → Result A → Tx A
lift (ok a) = pure a
lift (err e) = throw e

abbrev pub gets : {A : Type 0} → (Db → A) → Tx A
gets f db = ok (f db, db)

abbrev pub modify : (Db → Db) → Tx ⊤
modify f db = ok (tt, f db)

-- `prisma.$transaction`, and a single statement: it is committed, or it changes nothing.
abbrev pub commit : {A : Type 0} → Tx A → Db → Result A × Db
commit m db = elim (m db) [ ok (a, next) ↦ (ok a, next) | err e ↦ (err e, db) ]
