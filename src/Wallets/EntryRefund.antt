-- ===== src/Wallets/EntryRefund.antt =====
-- The refunds of entry holds: of all the holds of an entry, and of one hold by its key.
use kingspin.Prelude.{
  Bool, true, false, not, ◌&&◌, String, List, [], ◌∷◌, ◌++◌, Option, none, some, if◌then◌else◌,
}
use kingspin.Prelude.Int.{ℤ, pos, ◌+ℤ◌}
use kingspin.Prelude.Lists.{find, select, any}
use kingspin.Prelude.Text.{Fields, str_eq, opt_str_eq, is_empty, ◌<>◌, to_string}
use kingspin.Prelude.Result.{error, bad_request, record_not_found}
use kingspin.Store.Tables.{
  entry_hold, entry_refund, WalletAccount, LedgerEntry, LedgerTransaction, Db, ledger_type_eq,
}
use kingspin.Store.Tx.{Tx, ◌>>=◌, ◌>>◌, pure, throw, throw_if, gets, or_throw, commit}
use kingspin.Store.Service as Service
use kingspin.Store.Service.{Service}
use kingspin.Store.Queries.{find_transaction, find_wallet, post_credit, Draft, get_metadata_string}
use kingspin.Wallets.Matches.{
  is_debit, mixed_wallet, assert_entry_hold_ledger_shape,
  assert_entry_hold_compensation_transaction_matches,
}
use kingspin.Wallets.Wins.{find_transaction_or_throw}

pub data RefundReason : Type 0 where
  refunded no_hold_found already_refunded : RefundReason

pub record EntryRefundResult : Type 0 where
  pub entry_id : String
  pub is_refunded : Bool
  pub amount : ℤ
  pub reason : RefundReason

abbrev pub sum_entries : List LedgerEntry → ℤ
sum_entries [] = pos 0
sum_entries (e ∷ es) = e.amount +ℤ sum_entries es

abbrev pub entry_hold_compensation_idempotency_key : String → String
entry_hold_compensation_idempotency_key hold_transaction_id =
    "entry-hold-compensation:" <> hold_transaction_id

abbrev pub is_hold_of : String → LedgerTransaction → Bool
is_hold_of entry_id t =
    ledger_type_eq t.type entry_hold
    && opt_str_eq t.reference_type (some "ENTRY")
    && opt_str_eq t.reference_id (some entry_id)

-- A row of a compensation key of one of the holds that names this hold.
abbrev pub is_compensated :
    List LedgerTransaction → List LedgerTransaction → LedgerTransaction → Bool
is_compensated ledger holds hold =
    any
      (λ t.
        any (λ h. str_eq t.idempotency_key (entry_hold_compensation_idempotency_key h.id)) holds
        && opt_str_eq (get_metadata_string t.metadata "holdTransactionId") (some hold.id))
      ledger

abbrev pub debit_entries : List LedgerTransaction → List LedgerEntry
debit_entries [] = []
debit_entries (t ∷ ts) = select is_debit t.entries ++ debit_entries ts

-- The debits of the holds of an entry that were not compensated one by one.
abbrev pub refundable : String → List LedgerTransaction → List LedgerEntry
refundable entry_id ledger =
    let holds = select (is_hold_of entry_id) ledger in
    debit_entries (select (λ t. not (is_compensated ledger holds t)) holds)

abbrev pub refund_entry_key : String → String
refund_entry_key entry_id = "entry-refund:" <> entry_id

abbrev pub refund_entry_draft : String → String → ℤ → WalletAccount → Draft
refund_entry_draft entry_id round_id amount w = record {
  type = entry_refund;
  reference_type = "ENTRY";
  reference_id = some entry_id;
  idempotency_key = refund_entry_key entry_id;
  metadata =
      ("roundId", round_id)
      ∷ ("entryId", entry_id)
      ∷ ("amount", to_string amount)
      ∷ ("walletAccountId", w.id)
      ∷ ("source", "ENTRY_HOLD_LEDGER_REVERSAL")
      ∷ [];
}

abbrev pub mixed_text : String → String
mixed_text entry_id =
    "Entry " <> entry_id <> " has holds from multiple wallets. Manual review required."

-- The refund of the debits that were found.
abbrev pub refund_debits : String → String → String → List LedgerEntry → Tx EntryRefundResult
refund_debits new_id entry_id round_id [] =
    pure
      (record { entry_id = entry_id; is_refunded = false; amount = pos 0; reason = no_hold_found })
refund_debits new_id entry_id round_id (e ∷ es) = do
  throw_if (mixed_wallet (e ∷ es)) (bad_request (mixed_text entry_id))
  posted ←
      post_credit new_id e.wallet_account_id (sum_entries (e ∷ es))
        (refund_entry_draft entry_id round_id (sum_entries (e ∷ es)))
  pure (record {
    entry_id = entry_id;
    is_refunded = true;
    amount = sum_entries (e ∷ es);
    reason = refunded;
  })

unfoldable pub refund_entry_holds : String → String → String → Tx EntryRefundResult
refund_entry_holds new_id entry_id round_id = do
  existing ← find_transaction (refund_entry_key entry_id)
  elim existing [
    | some t ↦ pure (record {
      entry_id = entry_id;
      is_refunded = false;
      amount = sum_entries t.entries;
      reason = already_refunded;
    })
    | none ↦ do
      debits ← gets λ db. refundable entry_id db.ledger
      refund_debits new_id entry_id round_id debits
  ]

pub record EntryHoldCompensationResult : Type 0 where
  pub hold_idempotency_key : String
  pub is_refunded : Bool
  pub amount : ℤ
  pub reason : RefundReason
  pub wallet : Option WalletAccount
  pub transaction : Option LedgerTransaction

abbrev pub optional_field : String → Option String → Fields
optional_field key none = []
optional_field key (some value) = (key, value) ∷ []

abbrev pub compensation_draft : LedgerTransaction → String → String → ℤ → WalletAccount → Draft
compensation_draft hold hold_key reason amount w = record {
  type = entry_refund;
  reference_type = "ENTRY";
  reference_id = hold.reference_id;
  idempotency_key = entry_hold_compensation_idempotency_key hold.id;
  metadata =
      ("source", "ENTRY_HOLD_COMPENSATION")
        ∷ ("holdTransactionId", hold.id)
        ∷ ("holdIdempotencyKey", hold_key)
        ∷ optional_field "roundId" (get_metadata_string hold.metadata "roundId")
      ++ optional_field "entryId" (get_metadata_string hold.metadata "entryId")
      ++ ("amount", to_string amount) ∷ ("walletAccountId", w.id) ∷ ("reason", reason) ∷ [];
}

-- `existingRefund.entries[0]?.walletAccountId ?? holdTransaction.entries[0]?.walletAccountId`
abbrev first_wallet_id : List LedgerEntry → List LedgerEntry → String
first_wallet_id (e ∷ es) hs = e.wallet_account_id
first_wallet_id [] (h ∷ hs) = h.wallet_account_id
first_wallet_id [] [] = ""

-- The answer when the compensation is there already. An empty id is falsy, and no wallet is read.
abbrev pub already_compensated :
    LedgerTransaction → String → LedgerTransaction → Tx EntryHoldCompensationResult
already_compensated hold hold_key t = do
  assert_entry_hold_compensation_transaction_matches t hold.id hold_key
  let id = first_wallet_id t.entries hold.entries
  w ← if is_empty id then pure none else find_wallet id
  pure (record {
    hold_idempotency_key = hold_key;
    is_refunded = false;
    amount = sum_entries t.entries;
    reason = already_refunded;
    wallet = w;
    transaction = some t;
  })

abbrev pub compensate_debits :
    String → LedgerTransaction → String → String → List LedgerEntry → Tx EntryHoldCompensationResult
compensate_debits new_id hold hold_key reason [] = throw (error "TypeError")
compensate_debits new_id hold hold_key reason (e ∷ es) = do
  posted ←
      post_credit new_id e.wallet_account_id (sum_entries (e ∷ es))
        (compensation_draft hold hold_key reason (sum_entries (e ∷ es)))
  pure (record {
    hold_idempotency_key = hold_key;
    is_refunded = true;
    amount = sum_entries (e ∷ es);
    reason = refunded;
    wallet = some posted.0;
    transaction = some posted.1;
  })

unfoldable pub compensate :
    String → LedgerTransaction → String → String → Tx EntryHoldCompensationResult
compensate new_id hold hold_key reason = do
  existing ← find_transaction (entry_hold_compensation_idempotency_key hold.id)
  elim existing [
    | some t ↦ already_compensated hold hold_key t
    | none ↦ do
      found ← gets λ db. find (λ t. str_eq t.id hold.id) db.ledger
      fresh_hold ← or_throw found record_not_found
      assert_entry_hold_ledger_shape fresh_hold
      compensate_debits new_id fresh_hold hold_key reason (select is_debit fresh_hold.entries)
  ]

abbrev nothing_held : String → EntryHoldCompensationResult
nothing_held hold_key = record {
  hold_idempotency_key = hold_key;
  is_refunded = false;
  amount = pos 0;
  reason = no_hold_found;
  wallet = none;
  transaction = none;
}

unfoldable pub refund_entry_hold_by_idempotency_key :
    String → String → String → (Db → Db) → Service EntryHoldCompensationResult
refund_entry_hold_by_idempotency_key new_id hold_key reason others =
    Service.◌>>=◌ (commit (find_transaction hold_key)) (λ held. elim held [
      | none ↦ Service.done (nothing_held hold_key)
      | some hold ↦ Service.◌>>◌ (commit (assert_entry_hold_ledger_shape hold)) (
          Service.◌>>◌ (Service.meanwhile others) (
            Service.catch_unique (commit (compensate new_id hold hold_key reason)) (
              Service.◌>>=◌
                (commit
                  (find_transaction_or_throw (entry_hold_compensation_idempotency_key hold.id)))
                (λ t. commit (already_compensated hold hold_key t)))))
    ])
