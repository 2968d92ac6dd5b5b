-- ===== src/Store/Invariant/InTx.antt =====
-- Transactions that keep a condition on the database when they are committed.
use kingspin.Prelude.{⊤, Bool, true, false, Option, none, some, if◌then◌else◌}
use kingspin.Prelude.Result.{Error, Result, ok, err}
use kingspin.Store.Tables.{Db}
use kingspin.Store.Tx as Tx
use kingspin.Store.Tx.{Tx}
use kingspin.Store.Sound.Rules.{IfOk}

pub record InTx (P : Db → Type 0) {A : Type 0} (m : Tx A) : Type 0 where
  pub kept : (db : Db) → P db → IfOk (λ a next. P next) (m db)

pub IfOk-step :
    (P : Db → Type 0) {A B : Type 0} (f : A → Tx B)
    → ((a : A) → InTx P (f a))
    → (r : Result (A × Db)) → IfOk (λ a next. P next) r
    → IfOk
        (λ b next. P next)
        (elim r as (λ x. Result (B × Db)) [ ok (a, next) ↦ f a next | err e ↦ err e ])
IfOk-step P f k (ok (a, next)) g = (k a).kept next g
IfOk-step P f k (err e) g = tt

infixl 5 ◌>>=◌ ◌>>◌
pub ◌>>=◌ :
    {P : Db → Type 0} {A B : Type 0} {m : Tx A} {f : A → Tx B}
    → InTx P m
    → ((a : A) → InTx P (f a))
    → InTx P (Tx.◌>>=◌ m f)
◌>>=◌ {P} {m = m} {f = f} h k = record { kept = λ db p. IfOk-step P f k (m db) (h.kept db p) }

pub ◌>>◌ :
    {P : Db → Type 0} {B : Type 0} {m : Tx ⊤} {f : Tx B}
    → InTx P m
    → InTx P f
    → InTx P (Tx.◌>>◌ m f)
h >> k = h >>= λ u. k

module _ {P : Db → Type 0} where
  pub pures : {A : Type 0} (a : A) → InTx P (Tx.pure a)
  pures a = record { kept = λ db h. h }

  pub throws : {A : Type 0} (e : Error) → InTx P (Tx.throw {A = A} e)
  throws e = record { kept = λ db h. tt }

  pub reads : {A : Type 0} (f : Db → A) → InTx P (Tx.gets f)
  reads f = record { kept = λ db h. h }

  pub throws_if : (b : Bool) (e : Error) → InTx P (Tx.throw_if b e)
  throws_if true e = record { kept = λ db h. tt }
  throws_if false e = record { kept = λ db h. h }

  pub needs : {A : Type 0} (o : Option A) (e : Error) → InTx P (Tx.or_throw o e)
  needs none e = record { kept = λ db h. tt }
  needs (some a) e = record { kept = λ db h. h }

  pub lifts : {A : Type 0} (r : Result A) → InTx P (Tx.lift r)
  lifts (ok a) = record { kept = λ db h. h }
  lifts (err e) = record { kept = λ db h. tt }

  pub modifies : (f : Db → Db) → ((db : Db) → P db → P (f db)) → InTx P (Tx.modify f)
  modifies f k = record { kept = k }

  pub either :
      {A : Type 0} (b : Bool) {m n : Tx A} → InTx P m → InTx P n → InTx P (if b then m else n)
  either true h k = h
  either false h k = k

  pub cases_option :
      {A B : Type 0} (o : Option A) {n : Tx B} {f : A → Tx B}
      → InTx P n
      → ((a : A) → InTx P (f a))
      → InTx P (elim o [ none ↦ n | some a ↦ f a ])
  cases_option none h k = h
  cases_option (some a) h k = k a
