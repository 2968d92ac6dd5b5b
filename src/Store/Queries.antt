-- ===== src/Store/Queries.antt =====
-- The queries on wallets and on the ledger. The client's id of a new row is an argument.
use kingspin.Prelude.{
  Bool, ◌&&◌, String, List, [], ◌∷◌, ◌++◌, map, Option, none, some, if◌then◌else◌,
}
use kingspin.Prelude.Int.{ℤ, ◌+ℤ◌, ◌-ℤ◌, leb_ℤ}
use kingspin.Prelude.Lists.{find, any}
use kingspin.Prelude.Text.{Fields, str_eq, opt_str_eq, lookup}
use kingspin.Prelude.Result.{unique_constraint, record_not_found}
use kingspin.Store.Tables.{
  main, LedgerTransactionType, LedgerEntryDirection, credit, debit, WalletAccount, LedgerEntry,
  LedgerTransaction, account_eq,
}
use kingspin.Store.Tx.{Tx, ◌>>=◌, pure, gets, or_throw, throw_if, modify, ◌>>◌}

-- `where: { idempotencyKey }`
abbrev pub has_key : String → LedgerTransaction → Bool
has_key key t = str_eq t.idempotency_key key

abbrev pub has_id : String → WalletAccount → Bool
has_id id w = str_eq w.id id

unfoldable pub find_transaction : String → Tx (Option LedgerTransaction)
find_transaction key = gets λ db. find (has_key key) db.ledger

unfoldable pub find_wallet : String → Tx (Option WalletAccount)
find_wallet id = gets λ db. find (has_id id) db.wallets

unfoldable pub find_wallet_or_throw : String → Tx WalletAccount
unfolding find_wallet
find_wallet_or_throw id = do w ← find_wallet id; or_throw w record_not_found

-- Each wallet of the given id with its balance changed.
abbrev pub adjust : (ℤ → ℤ) → String → WalletAccount → WalletAccount
adjust f id w = if has_id id w then record w { balance = f w.balance } else w

-- `update` with `balanceSnapshot: { increment }`; there has to be such a wallet.
unfoldable pub increment_balance : String → ℤ → Tx WalletAccount
increment_balance id amount = do
  found ← gets λ db. find (has_id id) db.wallets
  w ← or_throw found record_not_found
  modify λ db. record db { wallets = map (adjust (λ b. b +ℤ amount) id) db.wallets }
  pure (record w { balance = w.balance +ℤ amount })

-- The `where` of a debit: the wallet of that id, if it is the user's main one and holds the amount.
abbrev pub can_pay : String → String → ℤ → WalletAccount → Bool
can_pay id user_id amount w =
    has_id id w
    && opt_str_eq w.user_id (some user_id)
    && account_eq w.type main
    && leb_ℤ amount w.balance

abbrev pub pay : String → String → ℤ → WalletAccount → WalletAccount
pay id user_id amount w =
    if can_pay id user_id amount w then record w { balance = w.balance -ℤ amount } else w

-- `updateManyAndReturn` with `balanceSnapshot: { gte }` and `{ decrement }`: the first row returned.
unfoldable pub decrement_balance : String → String → ℤ → Tx (Option WalletAccount)
decrement_balance id user_id amount = do
  found ← gets λ db. find (can_pay id user_id amount) db.wallets
  modify λ db. record db { wallets = map (pay id user_id amount) db.wallets }
  pure (elim found [ none ↦ none | some w ↦ some (record w { balance = w.balance -ℤ amount }) ])

-- `ledgerTransaction.create`: a second row of one idempotency key is refused.
unfoldable pub create_transaction : LedgerTransaction → Tx LedgerTransaction
create_transaction t = do
  taken ← gets λ db. any (has_key t.idempotency_key) db.ledger
  throw_if taken unique_constraint
  modify λ db. record db { ledger = db.ledger ++ t ∷ [] }
  pure t

-- The columns of a new ledger transaction, without its entries.
pub record Draft : Type 0 where
  pub type : LedgerTransactionType
  pub reference_type : String
  pub reference_id : Option String
  pub idempotency_key : String
  pub metadata : Fields

abbrev pub to_transaction : String → Draft → List LedgerEntry → LedgerTransaction
to_transaction id d entries = record {
  id = id;
  type = d.type;
  reference_type = some d.reference_type;
  reference_id = d.reference_id;
  idempotency_key = d.idempotency_key;
  metadata = d.metadata;
  entries = entries;
}

-- The one entry of a transaction on an updated wallet.
abbrev pub entry_of : LedgerEntryDirection → ℤ → WalletAccount → LedgerEntry
entry_of direction amount w = record {
  wallet_account_id = w.id;
  direction = direction;
  amount = amount;
  balance_after = w.balance;
}

-- The two statements by which money comes in: the balance is raised, and the ledger records it.
unfoldable pub post_credit :
    String → String → ℤ → (WalletAccount → Draft) → Tx (WalletAccount × LedgerTransaction)
unfolding increment_balance create_transaction
post_credit new_id wallet_id amount draft = do
  w ← increment_balance wallet_id amount
  t ← create_transaction (to_transaction new_id (draft w) (entry_of credit amount w ∷ []))
  pure (w, t)

-- The record of a debit that went through.
unfoldable pub post_debit :
    String → ℤ → Draft → WalletAccount → Tx (WalletAccount × LedgerTransaction)
unfolding create_transaction
post_debit new_id amount draft w = do
  t ← create_transaction (to_transaction new_id draft (entry_of debit amount w ∷ []))
  pure (w, t)

-- `getMetadataString`
abbrev pub get_metadata_string : Fields → String → Option String
get_metadata_string metadata key = lookup key metadata
