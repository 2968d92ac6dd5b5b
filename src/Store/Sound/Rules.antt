-- ===== src/Store/Sound/Rules.antt =====
-- Transactions that keep the database sound: the rules for the steps that they are made of.
use mathlib.Core.Path.{subst}
use kingspin.Prelude.{
  ◌≡◌, refl, sym, ⊤, Bool, true, false, String, List, [], ◌∷◌, Option, none, some, arith,
  Bool-cases, Option-cases, inl, inr,
}
use kingspin.Prelude.Int.{ℤ, pos, ◌+ℤ◌, ◌≤ℤ◌}
use kingspin.Prelude.Lists.{any, find, All-find, any-find, every}
use kingspin.Prelude.Text.{str_eq_iff}
use kingspin.Prelude.Result.{Error, Result, ok, err, Result-cases}
use kingspin.Store.Tables.{credit, WalletAccount, LedgerTransaction, Db}
use kingspin.Store.Tx.{Tx, ◌>>=◌, pure, throw_if, or_throw, gets, commit}
use kingspin.Store.Queries.{has_key, has_id, adjust, can_pay, post_credit, Draft}
use kingspin.Store.Runs.{
  credit_row, credited, post_credit_run, post_credit_taken, post_credit_missing,
}
use kingspin.Store.Sound.{IsSound}
use kingspin.Store.Sound.Debit.{can_pay-id}
use kingspin.Store.Sound.Post.{post-IsSound, adjust-moves, adjust-KeepsId, adjust-solvent}

-- A condition on what a transaction leaves, if it is committed.
abbrev pub IfOk : {A : Type 0} → (A → Db → Type 0) → Result (A × Db) → Type 0
IfOk P (ok (a, db)) = P a db
IfOk P (err e) = Unit

-- A committed transaction leaves a sound database sound.
abbrev pub Keeps : {A : Type 0} → Tx A → Type 0
Keeps m = (db : Db) → IsSound db → IfOk (λ a next. IsSound next) (m db)

pub IfOk-ok :
    {A : Type 0} (P : A → Db → Type 0) {r : Result (A × Db)} {a : A} {next : Db}
    → r ≡ ok (a, next)
    → P a next
    → IfOk P r
IfOk-ok P e h = rw e h

pub IfOk-err :
    {A : Type 0} (P : A → Db → Type 0) {r : Result (A × Db)} {e : Error} → r ≡ err e → IfOk P r
IfOk-err P e = rw e tt

-- What follows a step whose result meets a condition.
pub IfOk-bind :
    {A B : Type 0} (P : A → Db → Type 0) (Q : B → Db → Type 0) (m : Tx A) (f : A → Tx B) (db : Db)
    → IfOk P (m db)
    → ((a : A) (next : Db) → P a next → IfOk Q (f a next))
    → IfOk Q ((m >>= f) db)
IfOk-bind {A} {B} P Q m f db h k = go (m db) h
  where
    go :
        (r : Result (A × Db))
        → IfOk P r
        → IfOk Q (elim r [ ok (a, next) ↦ f a next | err e ↦ err e ])
    go (ok (a, next)) g = k a next g
    go (err e) g = tt

pub IfOk-after :
    {A B : Type 0} (P : B → Db → Type 0) (m : Tx A) (f : A → Tx B) (db : Db) {a : A} {next : Db}
    → m db ≡ ok (a, next)
    → IfOk P (f a next)
    → IfOk P ((m >>= f) db)
IfOk-after {A} {B} P m f db e h =
    subst
      (λ (r : Result (A × Db)).
        IfOk P (elim r as (λ x. Result (B × Db)) [ ok (a, next) ↦ f a next | err x ↦ err x ]))
      (sym e) h

abbrev pub SoundAfter : {A : Type 0} → A → Db → Type 0
SoundAfter a next = IsSound next

pub Keeps-bind :
    {A B : Type 0} (m : Tx A) (f : A → Tx B) → Keeps m → ((a : A) → Keeps (f a)) → Keeps (m >>= f)
Keeps-bind m f h k db s = IfOk-bind SoundAfter SoundAfter m f db (h db s) (λ a next g. k a next g)

pub Keeps-pure : {A : Type 0} (a : A) → Keeps (pure a)
Keeps-pure a db s = s

pub Keeps-gets : {A : Type 0} (f : Db → A) → Keeps (gets f)
Keeps-gets f db s = s

pub Keeps-or_throw : {A : Type 0} (o : Option A) (e : Error) → Keeps (or_throw o e)
Keeps-or_throw none e db s = tt
Keeps-or_throw (some a) e db s = s

pub Keeps-throw_if : (b : Bool) (e : Error) → Keeps (throw_if b e)
Keeps-throw_if true e db s = tt
Keeps-throw_if false e db s = s

-- A statement or a transaction that keeps soundness, once it is committed or rolled back.
pub commit_one-IsSound :
    {A : Type 0} (m : Tx A) (db : Db)
    → IfOk SoundAfter (m db)
    → IsSound db
    → IsSound (commit m db).1
commit_one-IsSound {A} m db h s = go (m db) h
  where
    go :
        (r : Result (A × Db))
        → IfOk (λ a next. IsSound next) r
        → IsSound
            (elim r as (λ x. Result A × Db) [ ok (a, next) ↦ (ok a, next) | err e ↦ (err e, db) ]).1
    go (ok (a, next)) g = g
    go (err e) g = s

pub commit-IsSound :
    {A : Type 0} (m : Tx A) (db : Db) → Keeps m → IsSound db → IsSound (commit m db).1
commit-IsSound m db h s = commit_one-IsSound m db (h db s) s

pub credited-IsSound :
    (id : String) (amount : ℤ) (t : LedgerTransaction) (after : ℤ) (db : Db)
    → IsSound db
    → pos 0 ≤ℤ amount
    → t.entries
      ≡ record {
        wallet_account_id = id;
        direction = credit;
        amount = amount;
        balance_after = after;
      }
        ∷ []
    → any (has_id id) db.wallets ≡ true
    → any (has_key t.idempotency_key) db.ledger ≡ false
    → IsSound (credited id amount t db)
credited-IsSound id amount t after db s h e there free =
    post-IsSound db (adjust (λ b. b +ℤ amount) id) t s (adjust-KeepsId (λ b. b +ℤ amount) id)
      (λ v. rw e (adjust-moves id credit amount after (λ b. b +ℤ amount) (λ c. refl) v))
      (adjust-solvent id amount db.wallets h s.solvent) (rw e (h, tt)) (rw e (there, tt)) free

pub found_id :
    (id : String) (ws : List WalletAccount) (w : WalletAccount)
    → find (has_id id) ws ≡ some w
    → w.id ≡ id
found_id id ws w found =
    (str_eq_iff w.id id).0 (All-find (λ v. ⊤) (has_id id) ws (every ws) found).1

pub row_entries :
    (new_id id : String) (amount : ℤ) (draft : WalletAccount → Draft) (w : WalletAccount) (db : Db)
    → find (has_id id) db.wallets ≡ some w
    → (credit_row new_id amount draft w).entries
      ≡ record {
        wallet_account_id = id;
        direction = credit;
        amount = amount;
        balance_after = w.balance +ℤ amount;
      }
        ∷ []
row_entries new_id id amount draft w db found = rw (found_id id db.wallets w found) refl

pub any-can_pay :
    (id user_id : String) (amount : ℤ) (ws : List WalletAccount) {w : WalletAccount}
    → find (can_pay id user_id amount) ws ≡ some w
    → any (has_id id) ws ≡ true
any-can_pay id user_id amount [] e = cc
any-can_pay id user_id amount (v ∷ ws) e = elim (Bool-cases (can_pay id user_id amount v)) [
  | inl t ↦ rw (can_pay-id id user_id amount v t)
  | inr t ↦ ground (arith, any-can_pay id user_id amount ws (rw t at e))
]

pub post_credit-Keeps :
    (new_id id : String) (amount : ℤ) (draft : WalletAccount → Draft)
    → pos 0 ≤ℤ amount
    → Keeps (post_credit new_id id amount draft)
post_credit-Keeps new_id id amount draft h db s =
    elim (Option-cases (find (has_id id) db.wallets)) [
      | inl missing ↦ IfOk-err SoundAfter (post_credit_missing new_id id amount draft db missing)
      | inr (w, found) ↦
          let row = credit_row new_id amount draft w in
          elim (Bool-cases (any (has_key row.idempotency_key) db.ledger)) [
            | inl taken ↦
                IfOk-err SoundAfter (post_credit_taken new_id id amount draft db w found taken)
            | inr free ↦
                IfOk-ok SoundAfter (post_credit_run new_id id amount draft db w found free) (
                  credited-IsSound id amount row (w.balance +ℤ amount) db s h
                    (row_entries new_id id amount draft w db found)
                    (any-find (has_id id) db.wallets found) free)
          ]
    ]

-- A step that only reads.
abbrev pub Quiet : {A : Type 0} → Tx A → Type 0
Quiet {A} m = (db : Db) (a : A) (next : Db) → m db ≡ ok (a, next) → next ≡ db

pub Quiet-Keeps : {A : Type 0} (m : Tx A) → Quiet m → Keeps m
Quiet-Keeps m q db s = elim (Result-cases (m db)) [
  | inr (x, failed) ↦ IfOk-err SoundAfter failed
  | inl ((a, next), done) ↦
      IfOk-ok SoundAfter done (subst (λ d. IsSound d) (sym (q db a next done)) s)
]
