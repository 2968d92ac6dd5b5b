-- ===== src/Wallets/TransferClash.antt =====
-- A transfer under the key of another movement of money.
use kingspin.Prelude.{
  ◌≡◌, refl, sym, ap, ◌∙◌, false, String, List, [], ◌∷◌, some, none, arith, inl, inr, Bool-cases,
  Option-cases, ⊤,
}
use kingspin.Store.Tx.{Tx}
use kingspin.Store.Queries.{Draft, has_id, has_key, can_pay, find_transaction}
use kingspin.Prelude.Result.{Error, ok, err, bad_request, err-ne-ok, ok_eq}
use kingspin.Prelude.Int.{ℤ, pos, leb_ℤ}
use kingspin.Prelude.Lists.{any, find, any-false}
use kingspin.Prelude.Text.{is_empty, str_eq_iff}
use kingspin.Store.Tables.{wallet_transfer, WalletAccount, LedgerTransaction, Db}
use kingspin.Wallets.Replay.{find-append}
use kingspin.Wallets.Matches.{RoundWinArgs, assert_round_payout_transaction_matches}
use kingspin.Wallets.Money.{is_main_of}
use kingspin.Wallets.Wins.{
  credit_round_win, credit_once, ensure_main_wallet_for_user_id, round_win_key, round_win_draft,
}
use kingspin.Wallets.Transfers.{TransferArgs, transfer_row, transfer_tx}
use kingspin.Wallets.TransferLaws.{
  paid, lowered, raised, transfer_refused, transfer_missing, transfer_taken, transfer_run,
}

has_main :
    (wallet_id user_id : String) (db : Db) (w : WalletAccount)
    → find (is_main_of user_id) db.wallets ≡ some w
    → is_empty user_id ≡ false
    → ensure_main_wallet_for_user_id wallet_id user_id db ≡ (ok w, db)
unfolding ensure_main_wallet_for_user_id
has_main wallet_id user_id db w main named = ground arith

not_payout :
    (win : RoundWinArgs) (db : Db) (t : LedgerTransaction)
    → t.type ≡ wallet_transfer
    → assert_round_payout_transaction_matches t win db
      ≡ err (bad_request "Idempotency key was already used for a different round payout.")
unfolding assert_round_payout_transaction_matches
not_payout win db t kind = rw kind refl

refuses_once :
    (key : String) (assertion : LedgerTransaction → Tx ⊤) (new_id wallet_id : String) (amount : ℤ)
    (draft : WalletAccount → Draft) (others : Db → Db) (db : Db) (t : LedgerTransaction) (e : Error)
    → find (has_key key) db.ledger ≡ some t
    → assertion t db ≡ err e
    → credit_once key assertion new_id wallet_id amount draft others db ≡ (err e, db)
unfolding credit_once find_transaction
refuses_once key assertion new_id wallet_id amount draft others db t e there kind = ground arith

win_steps :
    (wallet_id new_id : String) (win : RoundWinArgs) (others : Db → Db) (db : Db)
    (w : WalletAccount)
    → leb_ℤ win.amount (pos 0) ≡ false
    → ensure_main_wallet_for_user_id wallet_id win.user_id db ≡ (ok w, db)
    → credit_round_win wallet_id new_id win others db
      ≡ credit_once
          (round_win_key win)
          (λ r. assert_round_payout_transaction_matches r win)
          new_id
          w.id
          win.amount
          (round_win_draft win)
          others
          db
unfolding credit_round_win
win_steps wallet_id new_id win others db w positive main = ground arith

none_has :
    (key : String) (ts : List LedgerTransaction)
    → any (has_key key) ts ≡ false
    → find (has_key key) ts ≡ none
none_has key [] h = refl
none_has key (t ∷ ts) h =
    let (other, rest) = any-false (has_key key) t ts h in rw other (none_has key ts rest)

-- A committed transfer is found under its key.
transfer_found :
    (new_id user_id : String) (args : TransferArgs) (from to : WalletAccount) (db : Db)
    (t : LedgerTransaction) (next : Db)
    → transfer_tx new_id user_id args from to db ≡ ok (t, next)
    → (find (has_key args.idempotency_key) next.ledger ≡ some t) × (t.type ≡ wallet_transfer)
transfer_found new_id user_id args from to db t next h =
    elim (Option-cases (find (can_pay from.id user_id args.amount) db.wallets)) [
      | inl refused ↦
          absurd (err-ne-ok (sym (transfer_refused new_id user_id args from to db refused) ∙ h))
      | inr (w, payer) ↦
          elim (Option-cases (find (has_id to.id) (paid from.id user_id args.amount db))) [
            | inl missing ↦ absurd (
                err-ne-ok
                  (sym (transfer_missing new_id user_id args from to db w payer missing) ∙ h))
            | inr (v, there) ↦ elim (Bool-cases (any (has_key args.idempotency_key) db.ledger)) [
              | inl taken ↦ absurd (
                  err-ne-ok
                    (sym (transfer_taken new_id user_id args from to db w v payer there taken) ∙ h))
              | inr free ↦
                  let run = transfer_run new_id user_id args from to db w v payer there free in
                  let row =
                    transfer_row new_id user_id args (lowered args.amount w)
                      (raised args.amount v) in
                  let same = ok_eq (sym h ∙ run) in
                  (
                    ap (λ z. find (has_key args.idempotency_key) z.1.ledger) same
                        ∙ find-append (has_key args.idempotency_key) db.ledger row
                            (none_has args.idempotency_key db.ledger free)
                            ((str_eq_iff args.idempotency_key args.idempotency_key).1 refl)
                        ∙ ap some (ap (λ z. z.0) (sym same)),
                    ap (λ z. z.0.type) same,
                  )
            ]
          ]
    ]

-- The key of a transfer is any text of the sender's: a player who makes a transfer under the key of
-- a round's payout stops that payout. In every later database that still has under that key what the
-- transfer left there, the credit of the win throws, for a winner who has a wallet and an amount above
-- zero, and changes nothing.
pub win-blocked :
    (new_id user_id : String) (args : TransferArgs) (from to : WalletAccount) (db : Db)
    (t : LedgerTransaction) (next later : Db) (wallet_id win_id : String) (win : RoundWinArgs)
    (others : Db → Db) (w : WalletAccount)
    → transfer_tx new_id user_id args from to db ≡ ok (t, next)
    → args.idempotency_key ≡ round_win_key win
    → find (has_key args.idempotency_key) later.ledger
      ≡ find (has_key args.idempotency_key) next.ledger
    → find (is_main_of win.user_id) later.wallets ≡ some w
    → is_empty win.user_id ≡ false
    → leb_ℤ win.amount (pos 0) ≡ false
    → credit_round_win wallet_id win_id win others later
      ≡ (err (bad_request "Idempotency key was already used for a different round payout."), later)
win-blocked new_id user_id args from to db t next later wallet_id win_id win others w h key still
      main named positive =
    let (there, kind) = transfer_found new_id user_id args from to db t next h in
    win_steps wallet_id win_id win others later w positive
      (has_main wallet_id win.user_id later w main named)
    ∙ refuses_once (round_win_key win) (λ r. assert_round_payout_transaction_matches r win) win_id
        w.id win.amount (round_win_draft win) others later t
        (bad_request "Idempotency key was already used for a different round payout.")
        (ap (λ k. find (has_key k) later.ledger) (sym key) ∙ still ∙ there)
        (not_payout win later t kind)
