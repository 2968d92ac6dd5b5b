-- ===== src/Wallets/Outcomes.antt =====
-- How the debits and credits of the wallets service come out on a sound database.
use kingspin.Prelude.{◌≡◌, true, false, String, [], ◌∷◌, ◌++◌, map, none, some, arith, ⊤}
use kingspin.Prelude.Int.{ℤ, ◌+ℤ◌, ◌-ℤ◌}
use kingspin.Prelude.Lists.{any, find}
use kingspin.Prelude.Result.{Error, ok, err, bad_request, record_not_found, unique_constraint}
use kingspin.Store.Tables.{debit, WalletAccount, LedgerTransaction, Db}
use kingspin.Store.Queries.{
  has_id, has_key, adjust, pay, can_pay, Draft, to_transaction, entry_of, find_transaction,
  find_wallet_or_throw,
}
use kingspin.Store.Runs.{
  credit_row, credited, post_credit_run, post_credit_taken, post_credit_missing, post_debit_run,
  post_debit_taken, decrement_none, decrement_some,
}
use kingspin.Store.Sound.{UniqueIds}
use kingspin.Store.Sound.Debit.{pay-none, pay-some}
use kingspin.Store.Tx.{Tx}
use kingspin.Wallets.{
  fresh_result, reused_result, reuse, unless_done, MoneyMutationResult, debit_main, debit_fresh,
  credit_fresh, insufficient_text,
}

-- The row of a debit, with the wallet as it is found.
abbrev pub debit_row : String → ℤ → (WalletAccount → Draft) → WalletAccount → LedgerTransaction
debit_row new_id amount draft w =
    let v = record w { balance = w.balance -ℤ amount } in
    to_transaction new_id (draft v) (entry_of debit amount v ∷ [])

abbrev pub debited : String → ℤ → LedgerTransaction → Db → Db
debited id amount t db = record db {
  wallets = map (adjust (λ b. b -ℤ amount) id) db.wallets;
  ledger = db.ledger ++ t ∷ [];
}

debit_main-some :
    (id user_id : String) (amount : ℤ) (db : Db) (w : WalletAccount)
    → find (can_pay id user_id amount) db.wallets ≡ some w
    → debit_main id user_id amount db
      ≡ ok (
        record w { balance = w.balance -ℤ amount },
        record db { wallets = map (pay id user_id amount) db.wallets },
      )
unfolding debit_main
debit_main-some id user_id amount db w found =
    ground (arith, decrement_some id user_id amount db w found)

debit_main-none :
    (id user_id : String) (amount : ℤ) (db : Db)
    → find (can_pay id user_id amount) db.wallets ≡ none
    → debit_main id user_id amount db
      ≡ err (bad_request (insufficient_text (find (has_id id) db.wallets) amount))
unfolding debit_main
debit_main-none id user_id amount db missing =
    let same = pay-none id user_id amount db.wallets missing in
    ground (arith, decrement_none id user_id amount db missing)

pub debit_fresh_run :
    (new_id id user_id : String) (amount : ℤ) (draft : WalletAccount → Draft) (db : Db)
    (w : WalletAccount)
    → UniqueIds db.wallets
    → find (can_pay id user_id amount) db.wallets ≡ some w
    → any (has_key (debit_row new_id amount draft w).idempotency_key) db.ledger ≡ false
    → debit_fresh new_id id user_id amount draft db
      ≡ ok (
        fresh_result (record w { balance = w.balance -ℤ amount }, debit_row new_id amount draft w),
        debited id amount (debit_row new_id amount draft w) db,
      )
debit_fresh_run new_id id user_id amount draft db w u found free =
    let v = record w { balance = w.balance -ℤ amount } in
    let (same, _) = pay-some id user_id amount db.wallets u found in
    let lowered = record db { wallets = map (pay id user_id amount) db.wallets } in
    ground (
      arith,
      debit_main-some id user_id amount db w found,
      post_debit_run new_id amount (draft v) v lowered free,
    )

pub debit_fresh_taken :
    (new_id id user_id : String) (amount : ℤ) (draft : WalletAccount → Draft) (db : Db)
    (w : WalletAccount)
    → find (can_pay id user_id amount) db.wallets ≡ some w
    → any (has_key (debit_row new_id amount draft w).idempotency_key) db.ledger ≡ true
    → debit_fresh new_id id user_id amount draft db ≡ err unique_constraint
debit_fresh_taken new_id id user_id amount draft db w found taken =
    let v = record w { balance = w.balance -ℤ amount } in
    let lowered = record db { wallets = map (pay id user_id amount) db.wallets } in
    ground (
      arith,
      debit_main-some id user_id amount db w found,
      post_debit_taken new_id amount (draft v) v lowered taken,
    )

pub debit_fresh_refused :
    (new_id id user_id : String) (amount : ℤ) (draft : WalletAccount → Draft) (db : Db)
    → find (can_pay id user_id amount) db.wallets ≡ none
    → debit_fresh new_id id user_id amount draft db
      ≡ err (bad_request (insufficient_text (find (has_id id) db.wallets) amount))
debit_fresh_refused new_id id user_id amount draft db missing =
    ground (arith, debit_main-none id user_id amount db missing)

pub credit_fresh_run :
    (new_id id : String) (amount : ℤ) (draft : WalletAccount → Draft) (db : Db) (w : WalletAccount)
    → find (has_id id) db.wallets ≡ some w
    → any (has_key (credit_row new_id amount draft w).idempotency_key) db.ledger ≡ false
    → credit_fresh new_id id amount draft db
      ≡ ok (
        fresh_result (record w { balance = w.balance +ℤ amount }, credit_row new_id amount draft w),
        credited id amount (credit_row new_id amount draft w) db,
      )
credit_fresh_run new_id id amount draft db w found free =
    ground (arith, post_credit_run new_id id amount draft db w found free)

pub credit_fresh_taken :
    (new_id id : String) (amount : ℤ) (draft : WalletAccount → Draft) (db : Db) (w : WalletAccount)
    → find (has_id id) db.wallets ≡ some w
    → any (has_key (credit_row new_id amount draft w).idempotency_key) db.ledger ≡ true
    → credit_fresh new_id id amount draft db ≡ err unique_constraint
credit_fresh_taken new_id id amount draft db w found taken =
    ground (arith, post_credit_taken new_id id amount draft db w found taken)

pub credit_fresh_missing :
    (new_id id : String) (amount : ℤ) (draft : WalletAccount → Draft) (db : Db)
    → find (has_id id) db.wallets ≡ none
    → credit_fresh new_id id amount draft db ≡ err record_not_found
credit_fresh_missing new_id id amount draft db missing =
    ground (arith, post_credit_missing new_id id amount draft db missing)

pub unless_done-none :
    (key : String) (again : LedgerTransaction → Tx MoneyMutationResult)
    (fresh : Tx MoneyMutationResult) (db : Db)
    → find (has_key key) db.ledger ≡ none
    → unless_done key again fresh db ≡ fresh db
unfolding find_transaction
unless_done-none key again fresh db missing = ground arith

pub unless_done-some :
    (key : String) (again : LedgerTransaction → Tx MoneyMutationResult)
    (fresh : Tx MoneyMutationResult) (db : Db) (t : LedgerTransaction)
    → find (has_key key) db.ledger ≡ some t
    → unless_done key again fresh db ≡ again t db
unfolding find_transaction
unless_done-some key again fresh db t found = ground arith

-- The early return, when the assertion holds.
pub reuse_run :
    (m : Tx ⊤) (id : String) (t : LedgerTransaction) (db : Db) (w : WalletAccount)
    → m db ≡ ok (tt, db)
    → find (has_id id) db.wallets ≡ some w
    → reuse m id t db ≡ ok (reused_result t w, db)
unfolding find_wallet_or_throw
reuse_run m id t db w passed found = ground arith

pub reuse_missing :
    (m : Tx ⊤) (id : String) (t : LedgerTransaction) (db : Db)
    → m db ≡ ok (tt, db)
    → find (has_id id) db.wallets ≡ none
    → reuse m id t db ≡ err record_not_found
unfolding find_wallet_or_throw
reuse_missing m id t db passed missing = ground arith

pub reuse_failed :
    (m : Tx ⊤) (id : String) (t : LedgerTransaction) (db : Db) (e : Error)
    → m db ≡ err e
    → reuse m id t db ≡ err e
reuse_failed m id t db e failed = ground arith
