-- ===== src/Entries/Sound.antt =====
-- A placement keeps the money of a sound database sound, whatever its snapshot was.
use kingspin.Prelude.{
  ◌≡◌, refl, Bool, true, false, String, [], ◌∷◌, ◌++◌, map, Option, none, some, arith, Bool-cases,
  inl, inr,
}
use kingspin.Prelude.Int.{pos, ◌-ℤ◌, ◌≤ℤ◌, int_laws}
use kingspin.Prelude.Lists.{any}
use kingspin.Prelude.Result.{Result, ok, err}
use kingspin.Prelude.Text.{Fields}
use kingspin.Store.Tables.{debit, WalletAccount, LedgerTransaction, Entry, Db}
use kingspin.Store.Tx.{lift}
use kingspin.Store.Queries.{has_key, adjust, entry_of}
use kingspin.Store.Sound.{IsSound}
use kingspin.Store.Sound.Post.{post-IsSound, adjust-moves, adjust-KeepsId}
use kingspin.Store.Sound.Relabel.{KeepsMoney, relabel-IsSound}
use kingspin.Store.Sound.Rules.{IfOk, IfOk-bind}
use kingspin.Store.Invariant.InTx.{InTx, ◌>>◌, pures, modifies, either, cases_option}
use kingspin.Entries.{PlacementArgs, Placement}
use kingspin.Entries.Request.{RequestRows, request_rows, tx_exists, held_retry}
use kingspin.Entries.Statement.{Writable, writable_request, debit_wallet, upsert_entry}
use kingspin.Entries.Ledger.{
  insert_hold, insert_transaction, apply_to, apply_held_transaction, hold_transaction, total_in,
  applied_fields,
}
use kingspin.Entries.Status.{placement_status, Written, placement_row}
use kingspin.Entries.Place.{
  write_placement, to_placement_result_from_row, write_entry_placement_in_transaction,
}
use kingspin.Entries.Passed.{answered-goes_on, write-passed}
use kingspin.Entries.Paid.{HasPaid, Owes, Owes-OfMoney, IsSound-same, upserts, debits}

-- After the insertion: sound, unless a debit of a new request was not recorded.
abbrev pub Recorded : RequestRows → Option WalletAccount → Bool → Db → Type 0
Recorded rows none inserted d = IsSound d
Recorded rows (some v) true d = IsSound d
Recorded rows (some v) false d = tx_exists rows ≡ false

-- The row of the ledger makes up for the debit.
records :
    (args : PlacementArgs) (rows : RequestRows) (v : WalletAccount) (t : LedgerTransaction)
    (db : Db)
    → pos 0 ≤ℤ args.amount
    → t.entries ≡ entry_of debit args.amount v ∷ []
    → HasPaid args rows v db
    → IfOk (Recorded rows (some v)) (insert_hold t db)
records args rows v t db low e h = elim (Bool-cases (any (has_key t.idempotency_key) db.ledger)) [
  | inl taken ↦ rw taken h.fresh
  | inr free ↦
      let pay_out = adjust (λ b. b -ℤ args.amount) v.id in
      rw free (
        IsSound-same
          (record h.start {
            wallets = map pay_out h.start.wallets;
            ledger = h.start.ledger ++ t ∷ [];
          })
          (record db { ledger = db.ledger ++ t ∷ [] }) h.wallets_are (rw h.ledger_is refl)
          (post-IsSound h.start pay_out t h.sound (adjust-KeepsId (λ b. b -ℤ args.amount) v.id)
            (λ w. rw e (
              adjust-moves v.id debit args.amount v.balance (λ b. b -ℤ args.amount)
                (λ c. omega int_laws) w))
            (rw h.wallets_are at h.solvent) (rw e (low, tt)) (rw e (h.there, tt))
            (rw h.ledger_is at free)))
]

IfOk-always : {A : Type 0} {P : Type 0} (r : Result (A × Db)) → P → IfOk (λ a d. P) r
IfOk-always (ok a) h = h
IfOk-always (err e) h = tt

module _ (args : PlacementArgs) (rows : RequestRows) (before : Db) where
  inserts :
      (w : Option Writable) (paid : Option WalletAccount) (e : Option Entry) (db : Db)
      → pos 0 ≤ℤ args.amount
      → Owes args rows paid db
      → IfOk (Recorded rows paid) (insert_transaction args rows before w paid e db)
  unfolding insert_transaction
  inserts none none e db low h = h
  inserts (some w) none e db low h = h
  inserts none (some v) e db low h = h.fresh
  inserts (some w) (some v) none db low h = h.fresh
  inserts (some w) (some v) (some e) db low h = rw h.fresh (
      records args rows v (hold_transaction args w.round_id v e (total_in w.round_id before)) db low
        refl h)

  apply_to-KeepsMoney :
      (id : String) (fields : Fields) (entry_id : String) → KeepsMoney (apply_to id fields entry_id)
  apply_to-KeepsMoney id fields entry_id = record {
    same_key = λ t. ground arith;
    same_entries = λ t. ground arith;
  }

  -- The change of a held row changes no money.
  applies :
      (w : Option Writable) (e : Option Entry)
      → InTx IsSound (apply_held_transaction args rows before w e)
  unfolding apply_held_transaction
  applies none e = pures false
  applies (some w) none = pures false
  applies (some w) (some e) = cases_option rows.transaction (pures false) λ t.
      let fields =
        applied_fields args w.round_id w.wallet_account_id e (total_in w.round_id before) in
      let change = apply_to t.id fields e.id in
      either (held_retry rows)
        (modifies (λ db. record db { ledger = map change db.ledger })
            (λ db s. relabel-IsSound change (apply_to-KeepsMoney t.id fields e.id) db s)
          >> pures true)
        (pures false)

  applies-Recorded :
      (w : Option Writable) (paid : Option WalletAccount) (inserted : Bool) (e : Option Entry)
      (db : Db)
      → Recorded rows paid inserted db
      → IfOk
          (λ applied. Recorded rows paid inserted)
          (apply_held_transaction args rows before w e db)
  applies-Recorded w none inserted e db h = (applies w e).kept db h
  applies-Recorded w (some v) true e db h = (applies w e).kept db h
  applies-Recorded w (some v) false e db h =
      IfOk-always (apply_held_transaction args rows before w e db) h

write_placement-Recorded :
    (args : PlacementArgs) (before db : Db)
    → pos 0 ≤ℤ args.amount
    → IsSound db
    → IfOk
        (λ written. Recorded (request_rows args before) written.paid written.inserted)
        (write_placement args before db)
unfolding write_placement
write_placement-Recorded args before db low s =
    let rows = request_rows args before in
    let w = writable_request args rows in
    IfOk-bind (Owes args rows) (λ written. Recorded rows written.paid written.inserted)
      (debit_wallet args rows before w) _ db (debits args rows before w db s)
      λ paid d1 owes.
        IfOk-bind (λ e. Owes args rows paid)
          (λ written. Recorded rows written.paid written.inserted) (upsert_entry args rows w paid) _
          d1 ((upserts (Owes-OfMoney args rows paid) args rows w paid).kept d1 owes)
          λ e d2 still.
            IfOk-bind (Recorded rows paid) (λ written. Recorded rows written.paid written.inserted)
              (insert_transaction args rows before w paid e) _ d2
              (inserts args rows before w paid e d2 low still)
              λ inserted d3 recorded.
                IfOk-bind (λ applied. Recorded rows paid inserted)
                  (λ written. Recorded rows written.paid written.inserted)
                  (apply_held_transaction args rows before w e) _ d3
                  (applies-Recorded args rows before w paid inserted e d3 recorded)
                  λ applied d4 kept. kept

-- What is answered was recorded.
answers-IsSound :
    (args : PlacementArgs) (before db : Db) (written : Written) (r : Result Placement)
    → to_placement_result_from_row args
        (placement_row args (request_rows args before) before written)
      ≡ r
    → Recorded (request_rows args before) written.paid written.inserted db
    → IfOk (λ p. IsSound) (lift r db)
unfolding placement_status placement_row
answers-IsSound args before db written (err x) e h = tt
answers-IsSound args before db written (ok p) e h = go written.paid written.inserted refl h
  where
    rows : RequestRows
    rows = request_rows args before

    go :
        (paid : Option WalletAccount) (inserted : Bool)
        → written.inserted ≡ inserted
        → Recorded rows paid inserted db
        → IsSound db
    go none inserted same k = k
    go (some v) true same k = k
    go (some v) false same k =
        let passed =
          write-passed args rows before written (ground arith)
            (answered-goes_on args (placement_row args rows before written) p e) in
        cc (passed.1.1.1.0, same, k)

pub write_entry_placement-IsSound :
    (args : PlacementArgs) (before : Db)
    → pos 0 ≤ℤ args.amount
    → InTx IsSound (write_entry_placement_in_transaction args before)
unfolding write_entry_placement_in_transaction
write_entry_placement-IsSound args before low = record {
  kept = λ db s.
      IfOk-bind (λ written. Recorded (request_rows args before) written.paid written.inserted)
        (λ p. IsSound) (write_placement args before) _ db
        (write_placement-Recorded args before db low s)
        λ written next h. answers-IsSound args before next written _ refl h;
}
