-- ===== src/Entries/Ledger.antt =====
-- The part of the statement that writes to the ledger: the row of a new placement, or the change of a
-- row that was held.
use kingspin.Prelude.{
  Bool, true, false, String, List, [], ◌∷◌, ◌++◌, map, Option, none, some, if◌then◌else◌,
}
use kingspin.Prelude.Int.{ℤ, pos, ◌+ℤ◌}
use kingspin.Prelude.Lists.{any, select}
use kingspin.Prelude.Text.{Fields, str_eq, to_string}
use kingspin.Store.Tables.{entry_hold, debit, Entry, WalletAccount, LedgerTransaction, Db}
use kingspin.Store.Tx.{Tx, ◌>>=◌, ◌>>◌, pure, gets, modify}
use kingspin.Store.Queries.{has_key, entry_of}
use kingspin.Rounds.Rows.{entry_of_round}
use kingspin.Entries.{PlacementArgs}
use kingspin.Entries.Request.{RequestRows, tx_exists, held_retry}
use kingspin.Entries.Statement.{Writable}

-- `entry_totals`: the sum of the entries that the statement found.
abbrev pub sum_amounts : List Entry → ℤ
sum_amounts [] = pos 0
sum_amounts (e ∷ es) = e.amount +ℤ sum_amounts es

abbrev pub total_in : String → Db → ℤ
total_in round_id before = sum_amounts (select (entry_of_round round_id) before.round_entries)

-- `jsonb_build_object`, without the time
abbrev pub applied_fields : PlacementArgs → String → String → Entry → ℤ → Fields
applied_fields args round_id wallet_id e total =
    ("userId", args.user_id)
    ∷ ("roundId", round_id)
    ∷ ("entryId", e.id)
    ∷ ("amount", to_string args.amount)
    ∷ ("walletAccountId", wallet_id)
    ∷ ("holdState", "APPLIED")
    ∷ ("entryAmountAfter", to_string e.amount)
    ∷ ("roundTotalEntryAmountAfter", to_string total)
    ∷ ("roundPayoutAmountAfter", to_string total)
    ∷ []

abbrev pub hold_transaction : PlacementArgs → String → WalletAccount → Entry → ℤ → LedgerTransaction
hold_transaction args round_id w e total = record {
  id = args.ledger_transaction_id;
  type = entry_hold;
  reference_type = some "ENTRY";
  reference_id = some e.id;
  idempotency_key = args.idempotency_key;
  metadata = applied_fields args round_id w.id e total;
  entries = entry_of debit args.amount w ∷ [];
}

-- `ON CONFLICT ("idempotencyKey") DO NOTHING`
abbrev pub insert_hold : LedgerTransaction → Tx Bool
insert_hold t = do
  taken ← gets λ db. any (has_key t.idempotency_key) db.ledger
  if taken
      then pure false
      else (modify (λ db. record db { ledger = db.ledger ++ t ∷ [] }) >> pure true)

-- `inserted_transaction` and `inserted_ledger_entry`
unfoldable pub insert_transaction :
    PlacementArgs
    → RequestRows
    → Db
    → Option Writable
    → Option WalletAccount
    → Option Entry
    → Tx Bool
insert_transaction args rows before (some w) (some paid) (some e) =
    if tx_exists rows
    then pure false
    else insert_hold (hold_transaction args w.round_id paid e (total_in w.round_id before))
insert_transaction args rows before _ _ _ = pure false

-- `||` on objects: the new members hide the old ones.
abbrev pub apply_hold : Fields → String → LedgerTransaction → LedgerTransaction
apply_hold fields entry_id t = record t {
  reference_id = some entry_id;
  metadata = fields ++ t.metadata;
}

abbrev pub apply_to : String → Fields → String → LedgerTransaction → LedgerTransaction
apply_to id fields entry_id t = if str_eq t.id id then apply_hold fields entry_id t else t

-- `applied_held_transaction`
unfoldable pub apply_held_transaction :
    PlacementArgs → RequestRows → Db → Option Writable → Option Entry → Tx Bool
apply_held_transaction args rows before (some w) (some e) = elim rows.transaction [
  | none ↦ pure false
  | some t ↦
      if held_retry rows
      then (do
        modify λ db. record db {
          ledger =
              map
                (apply_to t.id
                  (applied_fields args w.round_id w.wallet_account_id e
                    (total_in w.round_id before))
                  e.id)
                db.ledger;
        }
        pure true)
      else pure false
]
apply_held_transaction args rows before _ _ = pure false
