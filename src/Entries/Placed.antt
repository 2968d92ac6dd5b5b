-- ===== src/Entries/Placed.antt =====
-- What a new placement does to the database.
use kingspin.Prelude.{◌≡◌, refl, sym, ap, ◌∙◌, Bool, true, false, Option, none, some, ◌⊎◌}
use kingspin.Prelude.Lists.{find, All}
use kingspin.Prelude.Result.{Result, ok, ok_eq}
use kingspin.Store.Tables.{WalletAccount, Entry, Db}
use kingspin.Store.Queries.{has_key}
use kingspin.Store.Runs.{tx_steps}
use kingspin.Entries.{PlacementArgs, Placement}
use kingspin.Entries.Sql.{coalesce}
use kingspin.Entries.Request.{RequestRows, tx_exists, request_rows}
use kingspin.Entries.Statement.{Writable, writable_request, debit_wallet, upsert_entry}
use kingspin.Entries.Ledger.{insert_transaction, apply_held_transaction, hold_transaction, total_in}
use kingspin.Entries.Answer.{AnsweredBy, answered}
use kingspin.Entries.Status.{
  shown_if_found, final_round, Written, placement_row, final_wallet, replay_entry, write_cases,
}
use kingspin.Entries.Place.{write_placement, write_entry_placement_in_transaction}
use kingspin.Entries.Passed.{IsUntrue, write-passed}
use kingspin.Entries.Steps.{
  Debit, debit_wallet-Debit, Appended, ToppedUp, upsert-cases, Inserted,
  insert_transaction-Inserted, apply-fresh,
}
use kingspin.Entries.Writable.{IsWritable, writable-IsWritable}

-- The steps of a new placement that was answered.
pub record FreshRun (args : PlacementArgs) (before db : Db) (p : Placement) (next : Db)
    : Type 0 where
  pub w : Writable
  pub writable : IsWritable args (request_rows args before) w
  pub after_debit : Db
  pub after_entry : Db
  pub debit_is : Debit args w p.wallet db after_debit
  pub entry_is :
      Appended args w.round_id p.entry after_debit after_entry
      ⊎ ToppedUp args (request_rows args before) w p.entry after_debit after_entry
  pub insert_is :
      Inserted
        (hold_transaction args w.round_id p.wallet p.entry (total_in w.round_id before))
        after_entry
        next

-- What the parts of the statement return when they return rows.
abbrev returns : WalletAccount → Entry → Bool → Written
returns v e applied = record { paid = some v; entry = some e; inserted = true; applied = applied }

debit-writable :
    (args : PlacementArgs) (rows : RequestRows) (before : Db) (w : Option Writable)
    (v : WalletAccount) (db next : Db)
    → debit_wallet args rows before w db ≡ ok (some v, next)
    → (u : Writable) × (w ≡ some u)
unfolding debit_wallet
debit-writable args rows before none v db next h = cc h
debit-writable args rows before (some u) v db next h = (u, refl)

of_steps :
    (args : PlacementArgs) (before db d1 d2 d3 d4 next : Db) (p : Placement)
    (paid : Option WalletAccount) (e : Option Entry) (inserted b applied : Bool)
    → (request_rows args before).transaction ≡ none
    → debit_wallet args
        (request_rows args before)
        before
        (writable_request args (request_rows args before))
        db
      ≡ ok (paid, d1)
    → upsert_entry args
        (request_rows args before)
        (writable_request args (request_rows args before))
        paid
        d1
      ≡ ok (e, d2)
    → insert_transaction args
        (request_rows args before)
        before
        (writable_request args (request_rows args before))
        paid
        e
        d2
      ≡ ok (inserted, d3)
    → apply_held_transaction args
        (request_rows args before)
        before
        (writable_request args (request_rows args before))
        e
        d3
      ≡ ok (b, d4)
    → ◌≡◌ {A = Result (Written × Db)}
        (ok (record { paid = paid; entry = e; inserted = inserted; applied = b }, d4))
        (ok (returns p.wallet p.entry applied, next))
    → FreshRun args before db p next
of_steps args before db d1 d2 d3 d4 next p paid e inserted b applied missing debit_run entry_run
      insert_run apply_run last =
    let rows = request_rows args before in
    let both = ok_eq last in
    let at_paid : paid ≡ some p.wallet = ap (λ (x : Written × Db). x.0.paid) both in
    let at_entry : e ≡ some p.entry = ap (λ (x : Written × Db). x.0.entry) both in
    let at_inserted : inserted ≡ true = ap (λ (x : Written × Db). x.0.inserted) both in
    let at_next : d4 ≡ next = ap (λ (x : Written × Db). x.1) both in
    let unchanged : d3 ≡ next =
      sym (apply-fresh args rows before (writable_request args rows) e d3 d4 b missing apply_run)
      ∙ at_next in
    let debit_w : debit_wallet args rows before (writable_request args rows) db
        ≡ ok (some p.wallet, d1) =
      debit_run ∙ ap (λ x. ok (x, d1)) at_paid in
    let (w, is_w) =
      debit-writable args rows before (writable_request args rows) p.wallet db d1 debit_w in
    record {
      w = w;
      writable = writable-IsWritable args rows w missing is_w;
      after_debit = d1;
      after_entry = d2;
      debit_is = debit_wallet-Debit args rows before w p.wallet db d1 (rw is_w at debit_w);
      entry_is =
          upsert-cases args rows w paid p.entry d1 d2
            (rw is_w at entry_run ∙ ap (λ x. ok (x, d2)) at_entry);
      insert_is =
          insert_transaction-Inserted args rows before w p.wallet p.entry d2 next
            (rw (is_w, at_paid, at_entry, at_inserted, unchanged) at insert_run);
    }

run-steps :
    (args : PlacementArgs) (before db : Db) (p : Placement) (next : Db) (applied : Bool)
    → (request_rows args before).transaction ≡ none
    → write_placement args before db ≡ ok (returns p.wallet p.entry applied, next)
    → FreshRun args before db p next
unfolding write_placement
run-steps args before db p next applied missing h =
    let rows = request_rows args before in
    let w = writable_request args rows in
    let (paid, d1, debit_run, h1) = tx_steps (debit_wallet args rows before w) _ db h in
    let (e, d2, entry_run, h2) = tx_steps (upsert_entry args rows w paid) _ d1 h1 in
    let (inserted, d3, insert_run, h3) =
      tx_steps (insert_transaction args rows before w paid e) _ d2 h2 in
    let (b, d4, apply_run, h4) = tx_steps (apply_held_transaction args rows before w e) _ d3 h3 in
    of_steps args before db d1 d2 d3 d4 next p paid e inserted b applied missing debit_run entry_run
      insert_run apply_run h4

-- An answer shows what was written.
written-returns :
    (rows : RequestRows) (p : Placement) (replayed : Option Entry) (paid : Option WalletAccount)
    (e : Option Entry) (inserted applied : Bool)
    → tx_exists rows ≡ false
    → All IsUntrue (
        write_cases rows
          (record { paid = paid; entry = e; inserted = inserted; applied = applied }))
    → coalesce e replayed ≡ some p.entry
    → final_wallet rows (record { paid = paid; entry = e; inserted = inserted; applied = applied })
      ≡ some p.wallet
    → record { paid = paid; entry = e; inserted = inserted; applied = applied }
      ≡ returns p.wallet p.entry applied
written-returns rows p replayed (some v) (some e) true applied fresh passed at_e at_v =
    cc (at_e, at_v)
written-returns rows p replayed none e inserted applied fresh passed at_e at_v =
    cc (rw fresh at passed.0)
written-returns rows p replayed (some v) none inserted applied fresh passed at_e at_v =
    cc passed.1.1.0
written-returns rows p replayed (some v) (some e) false applied fresh passed at_e at_v =
    cc (rw fresh at passed.1.1.1.0)

module _ (args : PlacementArgs) (before db : Db) (p : Placement) (next : Db)
    (missing : find (has_key args.idempotency_key) before.ledger ≡ none)
    (h : write_entry_placement_in_transaction args before db ≡ ok (p, next)) where
  answer_of : AnsweredBy args before db p next
  answer_of = answered args before db p next h

  written-is : answer_of.written ≡ returns p.wallet p.entry answer_of.written.applied
  unfolding request_rows placement_row
  written-is =
      let rows = request_rows args before in
      let a = answer_of in
      let row = a.from_row in
      written-returns rows p (replay_entry args rows before) a.written.paid a.written.entry
        a.written.inserted a.written.applied (rw missing refl)
        (write-passed args rows before a.written (rw missing refl) a.goes) row.entry_is
        row.wallet_is

  -- The steps of an answer to a key that the snapshot does not have.
  pub answered-run : FreshRun args before db p next
  unfolding request_rows
  answered-run =
      run-steps args before db p next answer_of.written.applied missing
        (answer_of.wrote ∙ ap (λ x. ok (x, next)) written-is)

  -- The round that it shows.
  pub answered-round : shown_if_found before (request_rows args before).open_round ≡ some p.round
  unfolding placement_row
  answered-round =
      let rows = request_rows args before in
      let row = answer_of.from_row in
      ap (λ x. shown_if_found before (final_round rows before x)) (sym written-is) ∙ row.round_is
