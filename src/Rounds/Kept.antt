-- ===== src/Rounds/Kept.antt =====
-- What the statements on rounds keep: the money is sound, and the rounds have only moved along the
-- state machine.
use kingspin.Prelude.{◌≡◌, Bool, true, String, List, [], ◌∷◌, ◌++◌, map}
use kingspin.Prelude.Int.{ℤ, pos, ◌≤ℤ◌}
use kingspin.Prelude.Result.{Result, ok, err, unique_constraint, record_not_found}
use kingspin.Prelude.Lists.{any}
use kingspin.Store.Tables.{Round, Entry, WalletAccount, Db}
use kingspin.Store.Tx.{modify}
use kingspin.Store.Queries.{Draft}
use kingspin.Store.Invariant.InTx.{InTx, ◌>>=◌, ◌>>◌, pures, throws_if, needs, reads, modifies}
use kingspin.Store.Sound.{IsSound}
use kingspin.Store.Sound.Rules.{IfOk}
use kingspin.Wallets.{credit_fresh}
use kingspin.Wallets.Money.{create_wallet}
use kingspin.Wallets.Sound.{credit_fresh-Keeps}
use kingspin.Wallets.NewWallet.{Keeps-create}
use kingspin.Wallets.EntryRefund.{refund_entry_holds}
use kingspin.Wallets.EntryRefundLaws.{Keeps-refund_entry_holds}
use kingspin.Rounds.Rows.{
  Env, change, is_round, count_rows, find_latest_round, find_round, find_round_or_throw,
  update_rounds, update_round, find_entries, find_entry,
}
use kingspin.Rounds.Open.{clashes, create_round, find_room}
use kingspin.Rounds.History.{IsLater, Follows, Follows-trans, Follows-append, Follows-change}
use kingspin.Rounds.HistoryMoney.{
  OnFrom, credit_fresh-OnFrom, create_wallet-OnFrom, refund_entry_holds-OnFrom,
}

-- The money stands in the wallets and in the ledger.
pub same_money :
    (db : Db) (rs : List Round) (es : List Entry)
    → IsSound db
    → IsSound (record db { rounds = rs; round_entries = es })
same_money db rs es s = record {
  balanced = s.balanced;
  solvent = s.solvent;
  known = s.known;
  amounts = s.amounts;
  unique_keys = s.unique_keys;
  unique_ids = s.unique_ids;
}

pub pair :
    (P Q : Db → Type 0) {A : Type 0} (r : Result (A × Db))
    → IfOk (λ a next. P next) r
    → IfOk (λ a next. Q next) r
    → IfOk (λ a next. P next × Q next) r
pair P Q (ok (a, next)) x y = (x, y)
pair P Q (err e) x y = tt

module _ (start : List Round) where
  -- The money is sound, and the rounds have come on from those of the start.
  abbrev pub Kept : Db → Type 0
  Kept db = IsSound db × Follows start db.rounds

  pub credits :
      (new_id id : String) (amount : ℤ) (draft : WalletAccount → Draft)
      → pos 0 ≤ℤ amount
      → InTx Kept (credit_fresh new_id id amount draft)
  credits new_id id amount draft low = record {
    kept = λ db h.
        pair IsSound (OnFrom start) (credit_fresh new_id id amount draft db)
          (credit_fresh-Keeps new_id id amount draft low db h.0)
          ((credit_fresh-OnFrom start new_id id amount draft).kept db h.1);
  }

  pub creates : (w : WalletAccount) → w.balance ≡ pos 0 → InTx Kept (create_wallet w)
  creates w e = record {
    kept = λ db h.
        pair IsSound (OnFrom start) (create_wallet w db) (Keeps-create w e db h.0)
          ((create_wallet-OnFrom start w).kept db h.1);
  }

  pub refunds :
      (new_id entry_id round_id : String) → InTx Kept (refund_entry_holds new_id entry_id round_id)
  refunds new_id entry_id round_id = record {
    kept = λ db h.
        pair IsSound (OnFrom start) (refund_entry_holds new_id entry_id round_id db)
          (Keeps-refund_entry_holds new_id entry_id round_id db h.0)
          ((refund_entry_holds-OnFrom start new_id entry_id round_id).kept db h.1);
  }

  pub finds_latest : (p : Round → Bool) → InTx Kept (find_latest_round p)
  unfolding find_latest_round
  finds_latest p = record { kept = λ db h. h }

  pub finds_round : (id : String) → InTx Kept (find_round id)
  unfolding find_round
  finds_round id = record { kept = λ db h. h }

  pub finds_room : (id : String) → InTx Kept (find_room id)
  unfolding find_room
  finds_room id = record { kept = λ db h. h }

  pub finds_entries : (env : Env) (id : String) → InTx Kept (find_entries env id)
  unfolding find_entries
  finds_entries env id = record { kept = λ db h. h }

  pub finds_entry : (id : String) → InTx Kept (find_entry id)
  unfolding find_entry
  finds_entry id = record { kept = λ db h. h }

  pub finds_round_or_throw : (id : String) → InTx Kept (find_round_or_throw id)
  unfolding find_round_or_throw
  finds_round_or_throw id = do r ← finds_round id; needs r record_not_found

  -- A change of rows, each of which makes allowed transitions.
  pub updates_rounds :
      (p : Round → Bool) (f : Round → Round)
      → ((r : Round) → p r ≡ true → IsLater r (f r))
      → InTx Kept (update_rounds p f)
  unfolding update_rounds
  updates_rounds p f k = do
    n ← reads (λ db. count_rows p db.rounds)
    modifies (λ db. record db { rounds = map (change p f) db.rounds })
        (λ db h. (
          same_money db (map (change p f) db.rounds) db.round_entries h.0,
          Follows-trans start db.rounds (map (change p f) db.rounds) h.1
              (Follows-change p f k db.rounds),
        ))
    pures n

  pub updates_round :
      (id : String) (f : Round → Round)
      → ((r : Round) → IsLater r (f r))
      → InTx Kept (update_round id f)
  unfolding update_round
  updates_round id f k = do
    r ← finds_round_or_throw id
    modifies (λ db. record db { rounds = map (change (is_round id) f) db.rounds })
        (λ db h. (
          same_money db (map (change (is_round id) f) db.rounds) db.round_entries h.0,
          Follows-trans start db.rounds (map (change (is_round id) f) db.rounds) h.1
              (Follows-change (is_round id) f (λ s t. k s) db.rounds),
        ))
    pures (f r)

  pub changes_entries :
      (f : Db → List Entry) → InTx Kept (modify λ db. record db { round_entries = f db })
  changes_entries f =
      modifies (λ db. record db { round_entries = f db })
        (λ db h. (same_money db db.rounds (f db) h.0, h.1))

  pub creates_round : (r : Round) → InTx Kept (create_round r)
  unfolding create_round
  creates_round r = do
    taken ← reads (λ db. any (clashes r) db.rounds)
    throws_if taken unique_constraint
    modifies (λ db. record db { rounds = db.rounds ++ r ∷ [] })
        (λ db h. (
          same_money db (db.rounds ++ r ∷ []) db.round_entries h.0,
          Follows-trans start db.rounds (db.rounds ++ r ∷ []) h.1
              (Follows-append db.rounds (r ∷ [])),
        ))
    pures r
