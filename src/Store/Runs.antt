-- ===== src/Store/Runs.antt =====
-- What the money queries do, by what they find.
use kingspin.Prelude.{◌≡◌, refl, true, false, String, [], ◌∷◌, ◌++◌, map, none, some, arith}
use kingspin.Prelude.Int.{ℤ, ◌+ℤ◌, ◌-ℤ◌}
use kingspin.Prelude.Lists.{any, find}
use kingspin.Prelude.Result.{Error, Result, ok, err, unique_constraint, record_not_found}
use kingspin.Store.Tables.{credit, debit, WalletAccount, LedgerTransaction, Db}
use kingspin.Store.Tx.{Tx, ◌>>=◌}
use kingspin.Store.Queries.{
  has_key, has_id, adjust, pay, can_pay, decrement_balance, create_transaction, post_credit,
  post_debit, Draft, to_transaction, entry_of,
}

pub create_run :
    (t : LedgerTransaction) (db : Db)
    → any (has_key t.idempotency_key) db.ledger ≡ false
    → create_transaction t db ≡ ok (t, record db { ledger = db.ledger ++ t ∷ [] })
unfolding create_transaction
create_run t db h = ground arith

pub create_taken :
    (t : LedgerTransaction) (db : Db)
    → any (has_key t.idempotency_key) db.ledger ≡ true
    → create_transaction t db ≡ err unique_constraint
unfolding create_transaction
create_taken t db h = ground arith

-- The row that a credit adds to the ledger.
abbrev pub credit_row : String → ℤ → (WalletAccount → Draft) → WalletAccount → LedgerTransaction
credit_row new_id amount draft w =
    let v = record w { balance = w.balance +ℤ amount } in
    to_transaction new_id (draft v) (entry_of credit amount v ∷ [])

abbrev pub credited : String → ℤ → LedgerTransaction → Db → Db
credited id amount t db = record db {
  wallets = map (adjust (λ b. b +ℤ amount) id) db.wallets;
  ledger = db.ledger ++ t ∷ [];
}

pub post_credit_run :
    (new_id id : String) (amount : ℤ) (draft : WalletAccount → Draft) (db : Db) (w : WalletAccount)
    → find (has_id id) db.wallets ≡ some w
    → any (has_key (credit_row new_id amount draft w).idempotency_key) db.ledger ≡ false
    → post_credit new_id id amount draft db
      ≡ ok (
        (record w { balance = w.balance +ℤ amount }, credit_row new_id amount draft w),
        credited id amount (credit_row new_id amount draft w) db,
      )
unfolding post_credit
post_credit_run new_id id amount draft db w found free = ground arith

pub post_credit_taken :
    (new_id id : String) (amount : ℤ) (draft : WalletAccount → Draft) (db : Db) (w : WalletAccount)
    → find (has_id id) db.wallets ≡ some w
    → any (has_key (credit_row new_id amount draft w).idempotency_key) db.ledger ≡ true
    → post_credit new_id id amount draft db ≡ err unique_constraint
unfolding post_credit
post_credit_taken new_id id amount draft db w found taken = ground arith

pub post_credit_missing :
    (new_id id : String) (amount : ℤ) (draft : WalletAccount → Draft) (db : Db)
    → find (has_id id) db.wallets ≡ none
    → post_credit new_id id amount draft db ≡ err record_not_found
unfolding post_credit
post_credit_missing new_id id amount draft db missing = ground arith

pub post_debit_run :
    (new_id : String) (amount : ℤ) (draft : Draft) (w : WalletAccount) (db : Db)
    → any (has_key draft.idempotency_key) db.ledger ≡ false
    → post_debit new_id amount draft w db
      ≡ ok (
        (w, to_transaction new_id draft (entry_of debit amount w ∷ [])),
        record db {
          ledger = db.ledger ++ to_transaction new_id draft (entry_of debit amount w ∷ []) ∷ [];
        },
      )
unfolding post_debit
post_debit_run new_id amount draft w db free = ground arith

pub post_debit_taken :
    (new_id : String) (amount : ℤ) (draft : Draft) (w : WalletAccount) (db : Db)
    → any (has_key draft.idempotency_key) db.ledger ≡ true
    → post_debit new_id amount draft w db ≡ err unique_constraint
unfolding post_debit
post_debit_taken new_id amount draft w db taken = ground arith

pub decrement_some :
    (id user_id : String) (amount : ℤ) (db : Db) (w : WalletAccount)
    → find (can_pay id user_id amount) db.wallets ≡ some w
    → decrement_balance id user_id amount db
      ≡ ok (
        some (record w { balance = w.balance -ℤ amount }),
        record db { wallets = map (pay id user_id amount) db.wallets },
      )
unfolding decrement_balance
decrement_some id user_id amount db w found = ground arith

pub decrement_none :
    (id user_id : String) (amount : ℤ) (db : Db)
    → find (can_pay id user_id amount) db.wallets ≡ none
    → decrement_balance id user_id amount db
      ≡ ok (none, record db { wallets = map (pay id user_id amount) db.wallets })
unfolding decrement_balance
decrement_none id user_id amount db missing = ground arith

pub bind_after :
    {A B : Type 0} (m : Tx A) (f : A → Tx B) (db : Db) {a : A} {next : Db}
    → m db ≡ ok (a, next)
    → (m >>= f) db ≡ f a next
bind_after m f db e = ground arith

pub bind_failed :
    {A B : Type 0} (m : Tx A) (f : A → Tx B) (db : Db) {x : Error}
    → m db ≡ err x
    → (m >>= f) db ≡ err x
bind_failed m f db e = ground arith

-- A transaction that went through went through step by step.
pub tx_steps :
    {A B : Type 0} (m : Tx A) (f : A → Tx B) (db : Db) {b : B} {next : Db}
    → (m >>= f) db ≡ ok (b, next)
    → (a : A) × (d : Db) × (m db ≡ ok (a, d)) × (f a d ≡ ok (b, next))
tx_steps {A} {B} m f db {b} {next} e = go (m db) refl e
  where
    go :
        (p : Result (A × Db))
        → m db ≡ p
        → ◌≡◌ {A = Result (B × Db)}
            (elim p as (λ x. Result (B × Db)) [ ok (a, d) ↦ f a d | err x ↦ err x ])
            (ok (b, next))
        → (a : A) × (d : Db) × (m db ≡ ok (a, d)) × (f a d ≡ ok (b, next))
    go (ok (a, d)) same h = (a, d, same, h)
    go (err x) same h = cc
