-- ===== src/Entries/Paid.antt =====
-- The debit and the entry of a placement: the wallet has paid, and the ledger does not say so yet.
use kingspin.Prelude.{
  ◌≡◌, refl, true, false, not, ◌&&◌, ◌||◌, String, List, [], ◌∷◌, ◌++◌, map, Option, none, some,
  is_some, arith, Bool-cases, Option-cases, inl, inr,
}
use kingspin.Prelude.Int.{pos, ◌-ℤ◌, ◌≤ℤ◌}
use kingspin.Prelude.Lists.{All, any, find}
use kingspin.Prelude.Result.{error}
use kingspin.Store.Tables.{WalletAccount, Entry, Db}
use kingspin.Store.Queries.{has_id, adjust, can_pay, decrement_balance}
use kingspin.Store.Runs.{decrement_some, decrement_none}
use kingspin.Store.Sound.{IsSound}
use kingspin.Store.Sound.Debit.{pay-some, pay-none}
use kingspin.Store.Sound.Post.{pay-solvent}
use kingspin.Store.Sound.Rules.{IfOk, IfOk-ok, any-can_pay}
use kingspin.Store.Invariant.InTx.{
  InTx, ◌>>=◌, ◌>>◌, pures, throws, reads, throws_if, modifies, either,
}
use kingspin.Rounds.Rows.{has_entry_id, is_round}
use kingspin.Entries.{PlacementArgs}
use kingspin.Entries.Request.{RequestRows, tx_exists, held_retry, is_entry_of}
use kingspin.Entries.Statement.{
  Writable, may_debit, debit_wallet, upsert_at, upsert_found, upsert_entry, insert_new,
  add_to_entry, may_top_up, new_entry, top_up, change_entry,
}

-- A condition that looks at wallets and ledger only.
pub record OfMoney (P : Db → Type 0) : Type 0 where
  pub moves : (d : Db) (es : List Entry) → P d → P (record d { round_entries = es })

module _ {P : Db → Type 0} (money : OfMoney P) (args : PlacementArgs) (rows : RequestRows) where
  inserts_new : (round_id id : String) → InTx P (insert_new args round_id id)
  inserts_new round_id id = do
    taken ← reads λ db. any (has_entry_id id) db.round_entries
    throws_if taken (error "Raw query failed. Code: `23505`.")
    there ← reads λ db. any (is_round round_id) db.rounds
    throws_if (not there) (error "Raw query failed. Code: `23503`.")
    modifies
        (λ db. record db { round_entries = db.round_entries ++ new_entry args round_id id ∷ [] })
        λ db h. money.moves db (db.round_entries ++ new_entry args round_id id ∷ []) h
    pures (some (new_entry args round_id id))

  adds_to_entry : (e : Entry) → InTx P (add_to_entry args e)
  adds_to_entry e =
      modifies
        (λ db. record db {
          round_entries =
              map (change_entry (is_entry_of e.round_id e.user_id) (top_up args.amount))
                db.round_entries;
        })
        (λ db h.
          money.moves db
            (map (change_entry (is_entry_of e.round_id e.user_id) (top_up args.amount))
              db.round_entries)
            h)
      >> pures (some (top_up args.amount e))

  upserts_found :
      (w : Writable) (id : String) (o : Option Entry) → InTx P (upsert_found args rows w id o)
  upserts_found w id none = inserts_new w.round_id id
  upserts_found w id (some e) = either (may_top_up args rows w id e) (adds_to_entry e) (pures none)

  upserts_at : (w : Writable) (id : Option String) → InTx P (upsert_at args rows w id)
  upserts_at w none = throws (error "Raw query failed. Code: `23502`.")
  upserts_at w (some id) = do
    existing ← reads λ db. find (is_entry_of w.round_id args.user_id) db.round_entries
    upserts_found w id existing

  pub upserts :
      (w : Option Writable) (paid : Option WalletAccount) → InTx P (upsert_entry args rows w paid)
  unfolding upsert_entry
  upserts none paid = pures none
  upserts (some w) paid =
      either ((held_retry rows || is_some paid) && is_some rows.open_round)
        (upserts_at w w.target_id) (pures none)

-- Soundness looks at the wallets and at the ledger only.
pub IsSound-same : (d e : Db) → e.wallets ≡ d.wallets → e.ledger ≡ d.ledger → IsSound d → IsSound e
IsSound-same d e ws ts s = record {
  balanced = rw (ws, ts) s.balanced;
  solvent = rw ws s.solvent;
  known = rw (ws, ts) s.known;
  amounts = rw ts s.amounts;
  unique_keys = rw ts s.unique_keys;
  unique_ids = rw ws s.unique_ids;
}

IsSound-OfMoney : OfMoney IsSound
IsSound-OfMoney = record {
  moves = λ d es s. IsSound-same d (record d { round_entries = es }) refl refl s;
}

-- A sound database, but for a wallet that has paid what the ledger does not record yet.
pub record HasPaid (args : PlacementArgs) (rows : RequestRows) (v : WalletAccount) (d : Db)
    : Type 0 where
  pub start : Db
  pub sound : IsSound start
  pub fresh : tx_exists rows ≡ false
  pub there : any (has_id v.id) start.wallets ≡ true
  pub wallets_are : d.wallets ≡ map (adjust (λ b. b -ℤ args.amount) v.id) start.wallets
  pub ledger_is : d.ledger ≡ start.ledger
  pub solvent : All (λ w. pos 0 ≤ℤ w.balance) d.wallets

abbrev pub Owes : PlacementArgs → RequestRows → Option WalletAccount → Db → Type 0
Owes args rows none d = IsSound d
Owes args rows (some v) d = HasPaid args rows v d

pub Owes-OfMoney :
    (args : PlacementArgs) (rows : RequestRows) (paid : Option WalletAccount)
    → OfMoney (Owes args rows paid)
Owes-OfMoney args rows none = IsSound-OfMoney
Owes-OfMoney args rows (some v) = record {
  moves = λ d es h. record {
    start = h.start;
    sound = h.sound;
    fresh = h.fresh;
    there = h.there;
    wallets_are = h.wallets_are;
    ledger_is = h.ledger_is;
    solvent = h.solvent;
  };
}

module _ (args : PlacementArgs) (rows : RequestRows) (before : Db) where
  pays :
      (w : Writable) (db : Db)
      → tx_exists rows ≡ false
      → IsSound db
      → IfOk (Owes args rows) (decrement_balance w.wallet_account_id args.user_id args.amount db)
  pays w db fresh s =
      let id = w.wallet_account_id in
      elim (Option-cases (find (can_pay id args.user_id args.amount) db.wallets)) [
        | inl missing ↦
            IfOk-ok (Owes args rows) (decrement_none id args.user_id args.amount db missing)
              (rw (pay-none id args.user_id args.amount db.wallets missing) s)
        | inr (v, found) ↦
            let (same, at_id) =
              pay-some id args.user_id args.amount db.wallets s.unique_ids found in
            IfOk-ok (Owes args rows) (decrement_some id args.user_id args.amount db v found)
              (record {
                start = db;
                sound = s;
                fresh = fresh;
                there = rw at_id (any-can_pay id args.user_id args.amount db.wallets found);
                wallets_are = rw at_id same;
                ledger_is = refl;
                solvent = pay-solvent id args.user_id args.amount db.wallets s.solvent;
              })
      ]

  pub debits :
      (w : Option Writable) (db : Db)
      → IsSound db
      → IfOk (Owes args rows) (debit_wallet args rows before w db)
  unfolding debit_wallet
  debits none db s = s
  debits (some w) db s = elim (Bool-cases (may_debit args rows before w)) [
    | inr f ↦ rw f s
    | inl t ↦ rw t (pays w db (ground arith) s)
  ]
