-- ===== src/Wallets/Transfers.antt =====
-- Transfers between players (apps/api/src/modules/wallets/wallet-transfers.service.ts). The rows stand
-- for their snapshots, and the table of users is a test on ids.
use kingspin.Prelude.{ℕ, ⊤, Bool, true, false, ◌&&◌, ◌||◌, not, String, [], ◌∷◌, Option, none, some}
use kingspin.Prelude.Int.{ℤ, ltb_ℤ, ◌==ℤ◌}
use kingspin.Prelude.Lists.{find}
use kingspin.Prelude.Text.{Fields, str_eq, ◌<>◌, to_string}
use kingspin.Prelude.Result.{Result, ok, bad_request, not_found}
use kingspin.Store.Tables.{
  wallet_transfer, credit, debit, WalletAccount, LedgerEntry, LedgerTransaction, Db, ledger_type_eq,
}
use kingspin.Store.Tx as Tx
use kingspin.Store.Tx.{Tx, commit}
use kingspin.Store.Service.{Service, ◌>>=◌, ◌>>◌, done, fail_if, lift, catch_unique, meanwhile}
use kingspin.Store.Queries.{
  find_transaction, decrement_balance, increment_balance, create_transaction, to_transaction,
  entry_of, Draft,
}
use kingspin.Wallets.Matches.{has_text, is_debit}
use kingspin.Wallets.Wins.{ensure_main_wallet_for_user_id, find_transaction_or_throw}

-- TRANSFER_MIN_ETB, TRANSFER_MAX_ETB, and the ids of the users.
pub record TransferEnv : Type 0 where
  pub transfer_min : ℤ
  pub transfer_max : ℤ
  pub is_user : String → Bool

pub record TransferArgs : Type 0 where
  pub recipient_id : String
  pub amount : ℤ
  pub note : Option String
  pub idempotency_key : String

-- The ids of the rows that a transfer may create.
pub record TransferIds : Type 0 where
  pub sender_wallet_id : String
  pub recipient_wallet_id : String
  pub transaction_id : String

pub record TransferResult : Type 0 where
  pub transaction : LedgerTransaction
  pub reused : Bool

-- What an existing row has to agree with.
pub record TransferMatch : Type 0 where
  pub sender_wallet_id : String
  pub recipient_wallet_id : String
  pub sender_user_id : String
  pub recipient_user_id : String
  pub amount : ℤ

-- `entry?.walletAccountId === id && entry.amount === amount`
abbrev pub is_posting : Option LedgerEntry → String → ℤ → Bool
is_posting none id amount = false
is_posting (some e) id amount = str_eq e.wallet_account_id id && e.amount ==ℤ amount

unfoldable pub assert_transfer_matches : LedgerTransaction → TransferMatch → Tx ⊤
assert_transfer_matches t m =
    Tx.throw_if
      (not (
        ledger_type_eq t.type wallet_transfer
        && is_posting (find is_debit t.entries) m.sender_wallet_id m.amount
        && is_posting (find (λ e. not (is_debit e)) t.entries) m.recipient_wallet_id m.amount
        && has_text t.metadata "senderUserId" m.sender_user_id
        && has_text t.metadata "recipientUserId" m.recipient_user_id
        && has_text t.metadata "amount" (to_string m.amount)))
      (bad_request "Idempotency key was already used for a different transfer.")

abbrev note_field : Option String → Fields
note_field none = []
note_field (some note) = ("note", note) ∷ []

abbrev pub transfer_draft : String → TransferArgs → WalletAccount → WalletAccount → Draft
transfer_draft user_id args sender recipient = record {
  type = wallet_transfer;
  reference_type = "WALLET_TRANSFER";
  reference_id = none;
  idempotency_key = args.idempotency_key;
  metadata =
      ("senderUserId", user_id)
      ∷ ("recipientUserId", args.recipient_id)
      ∷ ("senderWalletId", sender.id)
      ∷ ("recipientWalletId", recipient.id)
      ∷ ("amount", to_string args.amount)
      ∷ ("currency", "ETB")
      ∷ note_field args.note;
}

abbrev pub transfer_row :
    String → String → TransferArgs → WalletAccount → WalletAccount → LedgerTransaction
transfer_row new_id user_id args sender recipient =
    to_transaction new_id (transfer_draft user_id args sender recipient)
      (entry_of debit args.amount sender ∷ entry_of credit args.amount recipient ∷ [])

-- The transaction: the debit of the sender, if the wallet holds the amount, the credit of the
-- recipient, and their row in the ledger.
unfoldable pub transfer_tx :
    String → String → TransferArgs → WalletAccount → WalletAccount → Tx LedgerTransaction
unfolding decrement_balance increment_balance create_transaction
transfer_tx new_id user_id args from to =
    Tx.◌>>=◌ (decrement_balance from.id user_id args.amount) (λ debited.
      Tx.◌>>=◌ (Tx.or_throw debited (bad_request "Insufficient wallet balance.")) (λ sender.
        Tx.◌>>=◌ (increment_balance to.id args.amount)
          (λ recipient. create_transaction (transfer_row new_id user_id args sender recipient))))

abbrev pub match_of : String → TransferArgs → WalletAccount → WalletAccount → TransferMatch
match_of user_id args from to = record {
  sender_wallet_id = from.id;
  recipient_wallet_id = to.id;
  sender_user_id = user_id;
  recipient_user_id = args.recipient_id;
  amount = args.amount;
}

-- The `catch` block: the row of the key that came first is answered, if it is the same transfer.
abbrev pub after_clash :
    String → TransferArgs → WalletAccount → WalletAccount → Service LedgerTransaction
after_clash user_id args from to = do
  t ← commit (find_transaction_or_throw args.idempotency_key)
  commit (assert_transfer_matches t (match_of user_id args from to))
  done t

-- What a statement answers or throws.
abbrev pub settled : {A : Type 0} → Service A → Service (Result A)
settled m db = (ok (m db).0, (m db).1)

-- `Promise.all`: the second runs whether or not the first throws.
abbrev pub both : {A B : Type 0} → Service A → Service B → Service (A × B)
both m k = do a ← settled m; b ← settled k; x ← lift a; y ← lift b; done (x, y)

-- The lookup of the key, and the transaction with its handler.
unfoldable pub transfer_between :
    String
    → String
    → TransferArgs
    → (ℕ → Db → Db)
    → WalletAccount
    → WalletAccount
    → Service TransferResult
unfolding find_transaction transfer_tx assert_transfer_matches
transfer_between new_id user_id args others from to = do
  existing ← commit (find_transaction args.idempotency_key)
  elim existing [
    | some t ↦ do
      commit (assert_transfer_matches t (match_of user_id args from to))
      done (record { transaction = t; reused = true })
    | none ↦ do
      meanwhile (others 2)
      t ←
          catch_unique (commit (transfer_tx new_id user_id args from to))
            (after_clash user_id args from to)
      done (record { transaction = t; reused = false })
  ]

-- The checks before anything is written.
abbrev pub check_transfer : TransferEnv → String → TransferArgs → Service ⊤
check_transfer env user_id args = do
  fail_if (ltb_ℤ args.amount env.transfer_min || ltb_ℤ env.transfer_max args.amount) (
      bad_request (
        "Transfer amount must be between "
        <> to_string env.transfer_min
        <> " and "
        <> to_string env.transfer_max
        <> " ETB."))
  fail_if (str_eq args.recipient_id user_id) (bad_request "You cannot transfer to yourself.")
  fail_if (not (env.is_user user_id)) (not_found "Sender not found.")
  fail_if (not (env.is_user args.recipient_id)) (not_found "Recipient not found.")

unfoldable pub create_transfer :
    TransferIds → TransferEnv → String → TransferArgs → (ℕ → Db → Db) → Service TransferResult
unfolding ensure_main_wallet_for_user_id transfer_between
create_transfer ids env user_id args others = do
  check_transfer env user_id args
  meanwhile (others 0)
  wallets ←
      both (ensure_main_wallet_for_user_id ids.sender_wallet_id user_id)
        (ensure_main_wallet_for_user_id ids.recipient_wallet_id args.recipient_id)
  meanwhile (others 1)
  transfer_between ids.transaction_id user_id args others wallets.0 wallets.1
