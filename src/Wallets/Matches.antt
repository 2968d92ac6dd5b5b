-- ===== src/Wallets/Matches.antt =====
-- The assertions that an existing ledger row was made by the same request.
use kingspin.Prelude.{
  ⊤, Bool, true, false, ◌&&◌, ◌||◌, not, String, List, [], ◌∷◌, Option, none, some,
}
use kingspin.Prelude.Int.{ℤ}
use kingspin.Prelude.Lists.{select, any}
use kingspin.Prelude.Text.{Fields, str_eq, opt_str_eq, to_string}
use kingspin.Prelude.Result.{bad_request}
use kingspin.Store.Tables.{
  LedgerTransactionType, entry_hold, entry_refund, round_payout, house_fee, deposit,
  withdrawal_request, withdrawal_refund, credit, debit, LedgerEntry, LedgerTransaction,
  ledger_type_eq,
}
use kingspin.Store.Tx.{Tx, throw_if, ◌>>◌}
use kingspin.Store.Queries.{get_metadata_string}

pub record EntryHoldArgs : Type 0 where
  pub wallet_account_id : String
  pub user_id : String
  pub round_id : String
  pub entry_id : String
  pub amount : ℤ
  pub idempotency_key : String

pub record RoundWinArgs : Type 0 where
  pub user_id : String
  pub round_id : String
  pub winner_entry_id : String
  pub amount : ℤ

pub record PlatformFeeArgs : Type 0 where
  pub round_id : String
  pub amount : ℤ
  pub platform_fee_bps : ℤ

pub record DepositCreditArgs : Type 0 where
  pub user_id : String
  pub deposit_id : String
  pub amount : ℤ
  pub currency : String
  pub provider : String
  pub idempotency_key : Option String

-- The arguments of a reserve and of a refund; only the refund has a reason.
pub record WithdrawalArgs : Type 0 where
  pub user_id : String
  pub withdrawal_id : String
  pub wallet_account_id : String
  pub amount : ℤ
  pub currency : String
  pub provider : String
  pub idempotency_key : Option String

-- `getMetadataString(metadata, key) === value`
abbrev pub has_text : Fields → String → String → Bool
has_text m key value = opt_str_eq (get_metadata_string m key) (some value)

abbrev pub is_debit : LedgerEntry → Bool
is_debit e = elim e.direction [ debit ↦ true | credit ↦ false ]

-- `some((entry) => entry.walletAccountId !== walletAccountId)` for that of the first entry
abbrev pub mixed_wallet : List LedgerEntry → Bool
mixed_wallet [] = false
mixed_wallet (e ∷ es) = any (λ x. not (str_eq x.wallet_account_id e.wallet_account_id)) (e ∷ es)

abbrev no_entries : List LedgerEntry → Bool
no_entries [] = true
no_entries (e ∷ es) = false

abbrev of_kind : LedgerTransaction → LedgerTransactionType → String → Bool
of_kind t type reference_type =
    ledger_type_eq t.type type && opt_str_eq t.reference_type (some reference_type)

unfoldable pub assert_entry_hold_ledger_shape : LedgerTransaction → Tx ⊤
assert_entry_hold_ledger_shape t = do
  throw_if (not (of_kind t entry_hold "ENTRY") || no_entries (select is_debit t.entries))
      (bad_request "Entry hold ledger transaction is invalid and requires review.")
  throw_if (mixed_wallet (select is_debit t.entries))
      (bad_request "Entry hold has ledger entries from multiple wallets. Manual review required.")

-- `transactionEntryId`: the member of the metadata, or else the reference
abbrev has_entry_id : LedgerTransaction → Bool
has_entry_id t = elim (get_metadata_string t.metadata "entryId") [
  | some _ ↦ true
  | none ↦ elim t.reference_id [ some _ ↦ true | none ↦ false ]
]

unfoldable pub assert_entry_hold_transaction_matches : LedgerTransaction → EntryHoldArgs → Tx ⊤
unfolding assert_entry_hold_ledger_shape
assert_entry_hold_transaction_matches t args = do
  throw_if
      (not (
        of_kind t entry_hold "ENTRY"
        && has_entry_id t
        && has_text t.metadata "roundId" args.round_id
        && has_text t.metadata "userId" args.user_id
        && has_text t.metadata "walletAccountId" args.wallet_account_id
        && has_text t.metadata "amount" (to_string args.amount)))
      (bad_request "Idempotency key was already used for a different entry hold.")
  assert_entry_hold_ledger_shape t

unfoldable pub assert_entry_hold_compensation_transaction_matches :
    LedgerTransaction → String → String → Tx ⊤
assert_entry_hold_compensation_transaction_matches t hold_transaction_id hold_idempotency_key =
    throw_if
      (not (
        of_kind t entry_refund "ENTRY"
        && has_text t.metadata "source" "ENTRY_HOLD_COMPENSATION"
        && has_text t.metadata "holdTransactionId" hold_transaction_id
        && has_text t.metadata "holdIdempotencyKey" hold_idempotency_key))
      (bad_request "Idempotency key was already used for a different entry compensation.")

unfoldable pub assert_round_payout_transaction_matches : LedgerTransaction → RoundWinArgs → Tx ⊤
assert_round_payout_transaction_matches t args =
    throw_if
      (not (
        of_kind t round_payout "ROUND"
        && opt_str_eq t.reference_id (some args.round_id)
        && has_text t.metadata "userId" args.user_id
        && has_text t.metadata "roundId" args.round_id
        && has_text t.metadata "winnerEntryId" args.winner_entry_id
        && has_text t.metadata "amount" (to_string args.amount)))
      (bad_request "Idempotency key was already used for a different round payout.")

unfoldable pub assert_platform_fee_transaction_matches : LedgerTransaction → PlatformFeeArgs → Tx ⊤
assert_platform_fee_transaction_matches t args =
    throw_if
      (not (
        of_kind t house_fee "ROUND"
        && opt_str_eq t.reference_id (some args.round_id)
        && has_text t.metadata "roundId" args.round_id
        && has_text t.metadata "amount" (to_string args.amount)
        && has_text t.metadata "platformFeeBps" (to_string args.platform_fee_bps)))
      (bad_request "Round platform fee ledger transaction does not match the settlement.")

unfoldable pub assert_deposit_credit_transaction_matches :
    LedgerTransaction → DepositCreditArgs → Tx ⊤
assert_deposit_credit_transaction_matches t args =
    throw_if
      (not (
        of_kind t deposit "DEPOSIT"
        && opt_str_eq t.reference_id (some args.deposit_id)
        && has_text t.metadata "userId" args.user_id
        && has_text t.metadata "depositId" args.deposit_id
        && has_text t.metadata "amount" (to_string args.amount)
        && has_text t.metadata "currency" args.currency
        && has_text t.metadata "provider" args.provider))
      (bad_request "Idempotency key was already used for a different deposit credit.")

abbrev matches_withdrawal : LedgerTransaction → LedgerTransactionType → WithdrawalArgs → Bool
matches_withdrawal t type args =
    of_kind t type "WITHDRAWAL"
    && opt_str_eq t.reference_id (some args.withdrawal_id)
    && has_text t.metadata "userId" args.user_id
    && has_text t.metadata "withdrawalId" args.withdrawal_id
    && has_text t.metadata "walletAccountId" args.wallet_account_id
    && has_text t.metadata "amount" (to_string args.amount)
    && has_text t.metadata "currency" args.currency
    && has_text t.metadata "provider" args.provider

unfoldable pub assert_withdrawal_reserve_transaction_matches :
    LedgerTransaction → WithdrawalArgs → Tx ⊤
assert_withdrawal_reserve_transaction_matches t args =
    throw_if (not (matches_withdrawal t withdrawal_request args))
      (bad_request "Idempotency key was already used for a different withdrawal reserve.")

unfoldable pub assert_withdrawal_refund_transaction_matches :
    LedgerTransaction → WithdrawalArgs → Tx ⊤
assert_withdrawal_refund_transaction_matches t args =
    throw_if (not (matches_withdrawal t withdrawal_refund args))
      (bad_request "Idempotency key was already used for a different withdrawal refund.")
