-- ===== src/Store/Invariant/Holds.antt =====
-- Sequences of statements that keep a condition on the database, also where they end in an error.
use kingspin.Prelude.{⊤, Bool, true, false, Option, none, some, if◌then◌else◌}
use kingspin.Prelude.Result.{Error, Result, ok, err}
use kingspin.Store.Tables.{Db}
use kingspin.Store.Tx.{Tx, commit}
use kingspin.Store.Service as Service
use kingspin.Store.Service.{Service, catch_unique, is_unique_constraint_error}
use kingspin.Store.Sound.Rules.{IfOk}
use kingspin.Store.Invariant.InTx.{InTx}

pub record Holds (P : Db → Type 0) {A : Type 0} (m : Service A) : Type 0 where
  pub kept : (db : Db) → P db → P (m db).1

after :
    (P : Db → Type 0) {A B : Type 0} (f : A → Service B)
    → ((a : A) → Holds P (f a))
    → (q : Result A × Db) → P q.1
    → P (elim q.0 as (λ x. Result B × Db) [ ok a ↦ f a q.1 | err x ↦ (err x, q.1) ]).1
after P f k (ok a, d) g = (k a).kept d g
after P f k (err x, d) g = g

infixl 5 ◌>>=◌ ◌>>◌
pub ◌>>=◌ :
    {P : Db → Type 0} {A B : Type 0} {m : Service A} {f : A → Service B}
    → Holds P m
    → ((a : A) → Holds P (f a))
    → Holds P (Service.◌>>=◌ m f)
◌>>=◌ {P} {m = m} {f = f} h k = record { kept = λ db p. after P f k (m db) (h.kept db p) }

pub ◌>>◌ :
    {P : Db → Type 0} {B : Type 0} {m : Service ⊤} {f : Service B}
    → Holds P m
    → Holds P f
    → Holds P (Service.◌>>◌ m f)
h >> k = h >>= λ u. k

module _ {P : Db → Type 0} where
  pub commits : {A : Type 0} {m : Tx A} → InTx P m → Holds P (commit m)
  commits {A} {m} h = record { kept = λ db p. go db p (m db) (h.kept db p) }
    where
      go :
          (db : Db)
          → P db
          → (r : Result (A × Db)) → IfOk (λ a next. P next) r
          → P
              (elim r as (λ x. Result A × Db) [
                | ok (a, next) ↦ (ok a, next)
                | err e ↦ (err e, db)
              ]).1
      go db p (ok (a, next)) g = g
      go db p (err e) g = p

  pub dones : {A : Type 0} (a : A) → Holds P (Service.done a)
  dones a = record { kept = λ db h. h }

  pub fails : {A : Type 0} (e : Error) → Holds P (Service.fail {A = A} e)
  fails e = record { kept = λ db h. h }

  pub fails_if : (b : Bool) (e : Error) → Holds P (Service.fail_if b e)
  fails_if true e = record { kept = λ db h. h }
  fails_if false e = record { kept = λ db h. h }

  pub needs : {A : Type 0} (o : Option A) (e : Error) → Holds P (Service.need o e)
  needs none e = record { kept = λ db h. h }
  needs (some a) e = record { kept = λ db h. h }

  pub lifts : {A : Type 0} (r : Result A) → Holds P (Service.lift r)
  lifts (ok a) = record { kept = λ db h. h }
  lifts (err e) = record { kept = λ db h. h }

  pub others_keep :
      (others : Db → Db) → ((db : Db) → P db → P (others db)) → Holds P (Service.meanwhile others)
  others_keep others k = record { kept = k }

  pub either :
      {A : Type 0} (b : Bool) {m n : Service A}
      → Holds P m
      → Holds P n
      → Holds P (if b then m else n)
  either true h k = h
  either false h k = k

  pub catches :
      {A : Type 0} {m handler : Service A}
      → Holds P m
      → Holds P handler
      → Holds P (catch_unique m handler)
  catches {A} {m} {handler} h k = record { kept = λ db p. go (m db) (h.kept db p) }
    where
      on_error :
          (b : Bool) (x : Error) (d : Db)
          → P d
          → P (if◌then◌else◌ {A = Result A × Db} b (handler d) (err x, d)).1
      on_error true x d g = k.kept d g
      on_error false x d g = g

      go :
          (q : Result A × Db)
          → P q.1
          → P
              (elim q.0 as (λ x. Result A × Db) [
                | ok a ↦ (ok a, q.1)
                | err x ↦ if is_unique_constraint_error x then handler q.1 else (err x, q.1)
              ]).1
      go (ok a, d) g = g
      go (err x, d) g = on_error (is_unique_constraint_error x) x d g

  pub cases_option :
      {A B : Type 0} (o : Option A) {n : Service B} {f : A → Service B}
      → Holds P n
      → ((a : A) → Holds P (f a))
      → Holds P (elim o [ none ↦ n | some a ↦ f a ])
  cases_option none h k = h
  cases_option (some a) h k = k a
