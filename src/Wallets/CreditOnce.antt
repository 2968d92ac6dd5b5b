-- ===== src/Wallets/CreditOnce.antt =====
-- A credit with a lookup of its key before the transaction, and a handler after it.
use kingspin.Prelude.{◌≡◌, true, false, String, none, some, arith, ⊤}
use kingspin.Prelude.Int.{ℤ}
use kingspin.Prelude.Lists.{find}
use kingspin.Prelude.Result.{Error, ok, err, record_not_found}
use kingspin.Store.Tables.{WalletAccount, LedgerTransaction, Db}
use kingspin.Store.Tx.{Tx, commit}
use kingspin.Store.Service.{is_unique_constraint_error}
use kingspin.Store.Queries.{has_key, find_transaction, Draft}
use kingspin.Wallets.{MoneyMutationResult, reuse, credit_fresh}
use kingspin.Wallets.Wins.{credit_once, after_violation}

pub commit_ok :
    {A : Type 0} (m : Tx A) (db : Db) {a : A} {next : Db}
    → commit m db ≡ (ok a, next)
    → m db ≡ ok (a, next)
commit_ok m db e = ground arith

module _ (key : String) (assertion : LedgerTransaction → Tx ⊤) (new_id wallet_id : String)
    (amount : ℤ) (draft : WalletAccount → Draft) (others : Db → Db) (db : Db) where
  pub once_found :
      (t : LedgerTransaction)
      → find (has_key key) db.ledger ≡ some t
      → credit_once key assertion new_id wallet_id amount draft others db
        ≡ commit (reuse (assertion t) wallet_id t) db
  unfolding credit_once find_transaction
  once_found t found = ground arith

  pub once_ok :
      (r : MoneyMutationResult) (next : Db)
      → find (has_key key) db.ledger ≡ none
      → credit_fresh new_id wallet_id amount draft (others db) ≡ ok (r, next)
      → credit_once key assertion new_id wallet_id amount draft others db ≡ (ok r, next)
  unfolding credit_once find_transaction
  once_ok r next missing e = ground arith

  pub once_failed :
      (x : Error)
      → find (has_key key) db.ledger ≡ none
      → credit_fresh new_id wallet_id amount draft (others db) ≡ err x
      → is_unique_constraint_error x ≡ false
      → credit_once key assertion new_id wallet_id amount draft others db ≡ (err x, others db)
  unfolding credit_once find_transaction
  once_failed x missing e other = ground arith

  pub once_violated :
      (x : Error)
      → find (has_key key) db.ledger ≡ none
      → credit_fresh new_id wallet_id amount draft (others db) ≡ err x
      → is_unique_constraint_error x ≡ true
      → credit_once key assertion new_id wallet_id amount draft others db
        ≡ after_violation key assertion wallet_id (others db)
  unfolding credit_once find_transaction
  once_violated x missing e violated = ground arith

pub violation_found :
    (key : String) (assertion : LedgerTransaction → Tx ⊤) (wallet_id : String) (db : Db)
    (t : LedgerTransaction)
    → find (has_key key) db.ledger ≡ some t
    → after_violation key assertion wallet_id db ≡ commit (reuse (assertion t) wallet_id t) db
unfolding find_transaction
violation_found key assertion wallet_id db t found = ground arith

pub violation_missing :
    (key : String) (assertion : LedgerTransaction → Tx ⊤) (wallet_id : String) (db : Db)
    → find (has_key key) db.ledger ≡ none
    → after_violation key assertion wallet_id db ≡ (err record_not_found, db)
unfolding find_transaction
violation_missing key assertion wallet_id db missing = ground arith
