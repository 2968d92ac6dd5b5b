-- ===== src/Entries/Steps.antt =====
-- What the writes of a placement did, read off what they returned.
use kingspin.Prelude.{
  ◌≡◌, refl, sym, ap, ◌∙◌, Bool, true, false, ◌&&◌, ◌||◌, String, [], ◌∷◌, ◌++◌, map, Option, none,
  some, is_some, arith, Bool-cases, Option-cases, ◌⊎◌, inl, inr, if◌then◌else◌,
}
use kingspin.Prelude.Int.{◌-ℤ◌, ◌≤ℤ◌}
use kingspin.Prelude.Lists.{any, find}
use kingspin.Prelude.Result.{Result, ok}
use kingspin.Store.Tables.{WalletAccount, LedgerTransaction, Entry, Db}
use kingspin.Store.Queries.{has_key, pay, can_pay, decrement_balance}
use kingspin.Store.Runs.{decrement_some, decrement_none}
use kingspin.Prelude.Text.{str_eq_iff}
use kingspin.Store.Tx.{pure}
use kingspin.Rounds.Rows.{has_entry_id, is_round}
use kingspin.Entries.{PlacementArgs}
use kingspin.Entries.Request.{RequestRows, tx_exists, held_retry, is_entry_of}
use kingspin.Entries.Rules.{is_flexible}
use kingspin.Entries.Statement.{
  Writable, may_debit, debit_wallet, upsert_entry, insert_new, new_entry, top_up, change_entry,
  may_top_up, add_to_entry, upsert_at, upsert_found,
}
use kingspin.Entries.Ledger.{
  insert_hold, insert_transaction, apply_held_transaction, hold_transaction, total_in,
}

-- A debit that returned a wallet.
pub record Debit (args : PlacementArgs) (w : Writable) (v : WalletAccount) (db next : Db)
    : Type 0 where
  pub payer : WalletAccount
  pub found : find (can_pay w.wallet_account_id args.user_id args.amount) db.wallets ≡ some payer
  pub wallet_is : v ≡ record payer { balance = payer.balance -ℤ args.amount }
  pub next_is :
      next
      ≡ record db { wallets = map (pay w.wallet_account_id args.user_id args.amount) db.wallets }

pub debit_wallet-Debit :
    (args : PlacementArgs) (rows : RequestRows) (before : Db) (w : Writable) (v : WalletAccount)
    (db next : Db)
    → debit_wallet args rows before (some w) db ≡ ok (some v, next)
    → Debit args w v db next
unfolding debit_wallet
debit_wallet-Debit args rows before w v db next h =
    elim (Bool-cases (may_debit args rows before w)) [
      | inr f ↦ cc (rw f at h)
      | inl t ↦
          let id = w.wallet_account_id in
          let run : decrement_balance id args.user_id args.amount db ≡ ok (some v, next) =
            rw t at h in
          elim (Option-cases (find (can_pay id args.user_id args.amount) db.wallets)) [
            | inl missing ↦ cc (decrement_none id args.user_id args.amount db missing, run)
            | inr (u, found) ↦
                let did = decrement_some id args.user_id args.amount db u found in
                record {
                  payer = u;
                  found = found;
                  wallet_is = cc (did, run);
                  next_is = cc (did, run);
                }
          ]
    ]

-- A new entry of that round and player.
pub record Appended (args : PlacementArgs) (round_id : String) (e : Entry) (db next : Db)
    : Type 0 where
  pub none_before : find (is_entry_of round_id args.user_id) db.round_entries ≡ none
  pub free : any (has_entry_id e.id) db.round_entries ≡ false
  pub entry_is : e ≡ new_entry args round_id e.id
  pub next_is : next ≡ record db { round_entries = db.round_entries ++ e ∷ [] }

-- More on the entry that is there.
pub record ToppedUp (args : PlacementArgs) (rows : RequestRows) (w : Writable) (e : Entry)
    (db next : Db) : Type 0 where
  pub old : Entry
  pub found : find (is_entry_of w.round_id args.user_id) db.round_entries ≡ some old
  pub entry_is : e ≡ top_up args.amount old
  pub low : old.amount ≤ℤ w.max_entry_amount -ℤ args.amount
  pub next_is : next ≡ record db {
    round_entries =
        map
          (change_entry (is_entry_of old.round_id old.user_id) (top_up args.amount))
          db.round_entries;
  }
  pub same_target : is_flexible rows ≡ false → w.target_id ≡ some old.id

insert_new-Appended :
    (args : PlacementArgs) (round_id id : String) (e : Entry) (db next : Db)
    → find (is_entry_of round_id args.user_id) db.round_entries ≡ none
    → insert_new args round_id id db ≡ ok (some e, next)
    → Appended args round_id e db next
insert_new-Appended args round_id id e db next missing h =
    elim (Bool-cases (any (has_entry_id id) db.round_entries)) [
      | inl taken ↦ cc (rw taken at h)
      | inr free ↦ elim (Bool-cases (any (is_round round_id) db.rounds)) [
        | inr gone ↦ cc (rw (free, gone) at h)
        | inl there ↦
            let k : ◌≡◌ {A = Result (Option Entry × Db)}
                (ok (
                  some (new_entry args round_id id),
                  record db { round_entries = db.round_entries ++ new_entry args round_id id ∷ [] },
                ))
                (ok (some e, next)) =
              rw (free, there) at h in
            let same : new_entry args round_id id ≡ e = cc k in
            record {
              none_before = missing;
              free = rw (← same) free;
              entry_is = rw (← same) refl;
              next_is = rw (← same) (cc k);
            }
      ]
    ]

top_up-ToppedUp :
    (args : PlacementArgs) (rows : RequestRows) (w : Writable) (id : String) (e old : Entry)
    (db next : Db)
    → w.target_id ≡ some id
    → find (is_entry_of w.round_id args.user_id) db.round_entries ≡ some old
    → (if may_top_up args rows w id old then add_to_entry args old else pure none) db
      ≡ ok (some e, next)
    → ToppedUp args rows w e db next
top_up-ToppedUp args rows w id e old db next at_id found h =
    elim (Bool-cases (may_top_up args rows w id old)) [
      | inr f ↦ cc (rw f at h)
      | inl t ↦
          let k : add_to_entry args old db ≡ ok (some e, next) = rw t at h in
          record {
            old = old;
            found = found;
            entry_is = cc k;
            low = ground arith;
            next_is = cc k;
            same_target = λ fixed.
                let same : old.id ≡ id = (str_eq_iff old.id id).0 (ground arith) in rw same at_id;
          }
    ]

pub upsert_at-missing :
    (args : PlacementArgs) (rows : RequestRows) (w : Writable) (id : String) (db : Db)
    → find (is_entry_of w.round_id args.user_id) db.round_entries ≡ none
    → upsert_at args rows w (some id) db ≡ insert_new args w.round_id id db
upsert_at-missing args rows w id db missing = ap (λ o. upsert_found args rows w id o db) missing

pub upsert_at-found :
    (args : PlacementArgs) (rows : RequestRows) (w : Writable) (id : String) (db : Db) (old : Entry)
    → find (is_entry_of w.round_id args.user_id) db.round_entries ≡ some old
    → upsert_at args rows w (some id) db
      ≡ (if may_top_up args rows w id old then add_to_entry args old else pure none) db
upsert_at-found args rows w id db old found = ap (λ o. upsert_found args rows w id o db) found

pub upsert-cases :
    (args : PlacementArgs) (rows : RequestRows) (w : Writable) (paid : Option WalletAccount)
    (e : Entry) (db next : Db)
    → upsert_entry args rows (some w) paid db ≡ ok (some e, next)
    → Appended args w.round_id e db next ⊎ ToppedUp args rows w e db next
unfolding upsert_entry
upsert-cases args rows w paid e db next h =
    elim (Bool-cases ((held_retry rows || is_some paid) && is_some rows.open_round)) [
      | inr f ↦ cc (rw f at h)
      | inl t ↦ go (w.target_id) refl (rw t at h)
    ]
  where
    go :
        (target : Option String)
        → w.target_id ≡ target
        → upsert_at args rows w target db ≡ ok (some e, next)
        → Appended args w.round_id e db next ⊎ ToppedUp args rows w e db next
    go none same k = cc k
    go (some id) same k =
        elim (Option-cases (find (is_entry_of w.round_id args.user_id) db.round_entries)) [
          | inl missing ↦ inl (
              insert_new-Appended args w.round_id id e db next missing
                (sym (upsert_at-missing args rows w id db missing) ∙ k))
          | inr (old, found) ↦ inr (
              top_up-ToppedUp args rows w id e old db next same found
                (sym (upsert_at-found args rows w id db old found) ∙ k))
        ]

-- A row that was inserted.
pub record Inserted (t : LedgerTransaction) (db next : Db) : Type 0 where
  pub free : any (has_key t.idempotency_key) db.ledger ≡ false
  pub next_is : next ≡ record db { ledger = db.ledger ++ t ∷ [] }

pub insert_transaction-Inserted :
    (args : PlacementArgs) (rows : RequestRows) (before : Db) (w : Writable) (v : WalletAccount)
    (e : Entry) (db next : Db)
    → insert_transaction args rows before (some w) (some v) (some e) db ≡ ok (true, next)
    → Inserted (hold_transaction args w.round_id v e (total_in w.round_id before)) db next
unfolding insert_transaction
insert_transaction-Inserted args rows before w v e db next h = elim (Bool-cases (tx_exists rows)) [
  | inl t ↦ cc (rw t at h)
  | inr f ↦
      let row = hold_transaction args w.round_id v e (total_in w.round_id before) in
      let k : insert_hold row db ≡ ok (true, next) = rw f at h in
      elim (Bool-cases (any (has_key args.idempotency_key) db.ledger)) [
        | inl taken ↦ cc (rw taken at k)
        | inr free ↦ record { free = free; next_is = cc (rw free at k) }
      ]
]

-- Without an earlier transaction, no row is changed.
pub apply-fresh :
    (args : PlacementArgs) (rows : RequestRows) (before : Db) (w : Option Writable)
    (e : Option Entry) (db next : Db) (b : Bool)
    → rows.transaction ≡ none
    → apply_held_transaction args rows before w e db ≡ ok (b, next)
    → next ≡ db
unfolding apply_held_transaction
apply-fresh args rows before none e db next b missing h = cc h
apply-fresh args rows before (some w) none db next b missing h = cc h
apply-fresh args rows before (some w) (some e) db next b missing h = cc (rw missing at h)
