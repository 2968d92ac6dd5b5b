-- ===== src/Entries/Effect.antt =====
-- The effect of a new placement: on the wallet, on the entry and on the ledger.
use kingspin.Prelude.{
  false, ◌≡◌, refl, sym, ap, ◌∙◌, true, String, List, map, Option, none, some, arith, ◌⊎◌, inl, inr,
  ⊤,
}
use kingspin.Prelude.Int.{ℤ}
use kingspin.Prelude.Lists.{find, any, All-find, every, some_eq}
use kingspin.Prelude.Text.{str_eq_iff}
use kingspin.Prelude.Result.{ok}
use kingspin.Store.Tables.{WalletAccount, Entry, Round, Db}
use kingspin.Store.Queries.{has_key, pay, can_pay}
use kingspin.Store.Sound.Debit.{can_pay-id}
use kingspin.Rounds.Rows.{has_entry_id}
use kingspin.Entries.{PlacementArgs, Placement}
use kingspin.Entries.Request.{request_rows, round_id_of, is_entry_of}
use kingspin.Entries.Statement.{Writable}
use kingspin.Entries.Status.{shown_if_found}
use kingspin.Entries.Place.{write_entry_placement_in_transaction}
use kingspin.Entries.Steps.{Appended, ToppedUp}
use kingspin.Entries.Outcome.{entry_after, entries_after, IsPlaced}
use kingspin.Entries.Placed.{FreshRun, answered-run, answered-round}

pub payer-id :
    (id user_id : String) (amount : ℤ) (ws : List WalletAccount) (w : WalletAccount)
    → find (can_pay id user_id amount) ws ≡ some w
    → w.id ≡ id
payer-id id user_id amount ws w found = (str_eq_iff w.id id).0 (
    can_pay-id id user_id amount w
      (All-find (λ v. ⊤) (can_pay id user_id amount) ws (every ws) found).1)

pub found-IsEntryOf :
    (round_id user_id : String) (es : List Entry) (e : Entry)
    → find (is_entry_of round_id user_id) es ≡ some e
    → (e.round_id ≡ round_id) × (e.user_id ≡ user_id)
found-IsEntryOf round_id user_id es e found =
    let both : is_entry_of round_id user_id e ≡ true =
      (All-find (λ v. ⊤) (is_entry_of round_id user_id) es (every es) found).1 in
    (
      (str_eq_iff e.round_id round_id).0 (ground arith),
      (str_eq_iff e.user_id user_id).0 (ground arith),
    )

-- What the upsert made of the entry and of the table.
upserted :
    (args : PlacementArgs) (before : Db) (w : Writable) (e : Entry) (db next : Db)
    → Appended args w.round_id e db next ⊎ ToppedUp args (request_rows args before) w e db next
    → (e
        ≡ entry_after args w.round_id e.id
            (find (is_entry_of w.round_id args.user_id) db.round_entries))
      × (next ≡ record db {
        round_entries =
            entries_after args w.round_id e
              (find (is_entry_of w.round_id args.user_id) db.round_entries)
              db.round_entries;
      })
upserted args before w e db next (inl a) = (
  a.entry_is ∙ ap (entry_after args w.round_id e.id) (sym a.none_before),
  a.next_is
      ∙ ap (λ o. record db { round_entries = entries_after args w.round_id e o db.round_entries })
          (sym a.none_before),
)
upserted args before w e db next (inr t) =
    let (at_round, at_user) =
      found-IsEntryOf w.round_id args.user_id db.round_entries t.old t.found in
    (
      t.entry_is ∙ ap (entry_after args w.round_id e.id) (sym t.found),
      rw (at_round, at_user) at t.next_is
          ∙ ap
              (λ o. record db {
                round_entries = entries_after args w.round_id e o db.round_entries;
              })
              (sym t.found),
    )

pub open_round-found :
    (o : Option Round) (id : String)
    → round_id_of o ≡ some id
    → (r : Round) × (o ≡ some r) × (r.id ≡ id)
open_round-found none id h = cc h
open_round-found (some r) id h = (r, refl, some_eq h)

new_id :
    (args : PlacementArgs) (before : Db) (w : Writable) (e : Entry) (db next : Db)
    → Appended args w.round_id e db next ⊎ ToppedUp args (request_rows args before) w e db next
    → find (is_entry_of w.round_id args.user_id) db.round_entries ≡ none
    → any (has_entry_id e.id) db.round_entries ≡ false
new_id args before w e db next (inl a) none_there = a.free
new_id args before w e db next (inr t) none_there = cc (t.found, none_there)

of_run :
    (args : PlacementArgs) (before db : Db) (p : Placement) (next : Db)
    → shown_if_found before (request_rows args before).open_round ≡ some p.round
    → FreshRun args before db p next
    → IsPlaced args before db p next
unfolding request_rows
of_run args before db p next at_round run =
    let (round, there, at_id) =
      open_round-found (request_rows args before).open_round run.w.round_id run.writable.round_is in
    let d = run.debit_is in
    let same : p.wallet.id ≡ run.w.wallet_account_id =
      ap (λ (x : WalletAccount). x.id) d.wallet_is
      ∙ payer-id run.w.wallet_account_id args.user_id args.amount db.wallets d.payer d.found in
    let paid_db = record db {
      wallets = map (pay p.wallet.id args.user_id args.amount) db.wallets;
    } in
    let at_paid : run.after_debit ≡ paid_db = rw same d.next_is in
    let (entry, placed_db) =
      upserted args before run.w p.entry paid_db run.after_entry (rw at_paid at run.entry_is) in
    let i = rw placed_db at run.insert_is in
    record {
      round = round;
      round_found = there;
      round_is = sym (some_eq (ap (shown_if_found before) (sym there) ∙ at_round));
      main_found = run.writable.wallet_is ∙ ap (λ x. some x) (sym same);
      payer = d.payer;
      payer_found = rw same d.found;
      wallet_is = d.wallet_is;
      entry_is = rw at_id entry;
      id_is_new = λ none_there.
          new_id args before run.w p.entry paid_db run.after_entry (rw at_paid at run.entry_is)
            (rw (← at_id) none_there);
      key_is_new = i.free;
      next_is = rw at_id i.next_is;
    }

-- A placement under a key that its snapshot does not have took, when it is answered, the amount from
-- the player's main wallet, which held it, and put the same amount on the player's entry in the latest
-- round that the snapshot showed as open: a new entry, or more on the one that is there. One row of
-- the ledger says so, with the totals of the snapshot, in which that amount is not counted. Nothing
-- else changed, and the answer shows the wallet and the entry as they are then.
pub placement-effect :
    (args : PlacementArgs) (before db : Db) (p : Placement) (next : Db)
    → find (has_key args.idempotency_key) before.ledger ≡ none
    → write_entry_placement_in_transaction args before db ≡ ok (p, next)
    → IsPlaced args before db p next
placement-effect args before db p next missing h =
    of_run args before db p next (answered-round args before db p next missing h)
      (answered-run args before db p next missing h)
