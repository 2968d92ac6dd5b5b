-- ===== src/Entries/Lasting.antt =====
-- A placement leaves the rounds as they are.
use kingspin.Prelude.{true, false, String, List, [], ◌∷◌, ◌++◌, map, Option, none, some}
use kingspin.Prelude.Int.{ℤ, ◌-ℤ◌}
use kingspin.Prelude.Lists.{any, find}
use kingspin.Store.Tables.{WalletAccount, LedgerTransaction, Entry, Round, Db}
use kingspin.Store.Queries.{has_key, pay, can_pay, decrement_balance}
use kingspin.Store.Invariant.InTx.{
  InTx, ◌>>=◌, ◌>>◌, pures, reads, lifts, modifies, either, cases_option,
}
use kingspin.Entries.{PlacementArgs}
use kingspin.Entries.Request.{RequestRows, request_rows, tx_exists, held_retry}
use kingspin.Entries.Statement.{Writable, writable_request, may_debit, debit_wallet}
use kingspin.Entries.Ledger.{
  insert_transaction, insert_hold, hold_transaction, total_in, apply_to, applied_fields,
  apply_held_transaction,
}
use kingspin.Entries.Status.{placement_row}
use kingspin.Entries.Place.{
  write_placement, to_placement_result_from_row, write_entry_placement_in_transaction,
}
use kingspin.Entries.Paid.{upserts}

module _ (Q : List Round → Type 0) (args : PlacementArgs) (before : Db) where
  abbrev OfRounds : Db → Type 0
  OfRounds d = Q d.rounds

  decrements : (id user_id : String) (n : ℤ) → InTx OfRounds (decrement_balance id user_id n)
  unfolding decrement_balance
  decrements id user_id n = do
    found ← reads λ db. find (can_pay id user_id n) db.wallets
    modifies (λ db. record db { wallets = map (pay id user_id n) db.wallets }) λ db h. h
    pures (elim found [ none ↦ none | some w ↦ some (record w { balance = w.balance -ℤ n }) ])

  debits_only :
      (rows : RequestRows) (w : Option Writable) → InTx OfRounds (debit_wallet args rows before w)
  unfolding debit_wallet
  debits_only rows none = pures none
  debits_only rows (some w) =
      either (may_debit args rows before w)
        (decrements w.wallet_account_id args.user_id args.amount) (pures none)

  inserts_row : (t : LedgerTransaction) → InTx OfRounds (insert_hold t)
  inserts_row t = do
    taken ← reads λ db. any (has_key t.idempotency_key) db.ledger
    either taken (pures false)
        (modifies (λ db. record db { ledger = db.ledger ++ t ∷ [] }) (λ db h. h) >> pures true)

  inserts_only :
      (rows : RequestRows) (w : Option Writable) (v : Option WalletAccount) (e : Option Entry)
      → InTx OfRounds (insert_transaction args rows before w v e)
  unfolding insert_transaction
  inserts_only rows none v e = pures false
  inserts_only rows (some w) none e = pures false
  inserts_only rows (some w) (some v) none = pures false
  inserts_only rows (some w) (some v) (some e) =
      either (tx_exists rows) (pures false)
        (inserts_row (hold_transaction args w.round_id v e (total_in w.round_id before)))

  applies_only :
      (rows : RequestRows) (w : Option Writable) (e : Option Entry)
      → InTx OfRounds (apply_held_transaction args rows before w e)
  unfolding apply_held_transaction
  applies_only rows none e = pures false
  applies_only rows (some w) none = pures false
  applies_only rows (some w) (some e) = cases_option rows.transaction (pures false) λ t.
      let fields =
        applied_fields args w.round_id w.wallet_account_id e (total_in w.round_id before) in
      either (held_retry rows)
        (modifies (λ db. record db { ledger = map (apply_to t.id fields e.id) db.ledger })
            (λ db h. h)
          >> pures true)
        (pures false)

  pub keeps_rounds : InTx OfRounds (write_entry_placement_in_transaction args before)
  unfolding write_entry_placement_in_transaction write_placement
  keeps_rounds =
      let rows = request_rows args before in
      let w = writable_request args rows in
      (debits_only rows w >>= λ paid.
      upserts (record { moves = λ d es h. h }) args rows w paid >>= λ e.
      inserts_only rows w paid e >>= λ inserted. applies_only rows w e >>= λ applied.
      pures (record { paid = paid; entry = e; inserted = inserted; applied = applied }))
      >>= λ written.
          lifts (to_placement_result_from_row args (placement_row args rows before written))
