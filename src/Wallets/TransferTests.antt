-- ===== src/Wallets/TransferTests.antt =====
-- A transfer between two players, one with a balance of 1000 and one without money.
use kingspin.Prelude.{ℕ, ◌≡◌, refl, true, [], ◌∷◌, ◌++◌, map, some, none, arith}
use kingspin.Prelude.Int.{pos, ◌+ℤ◌, ◌-ℤ◌}
use kingspin.Prelude.Result.{ok, err, bad_request}
use kingspin.Store.Tables.{main, admin_credit, credit, WalletAccount, LedgerTransaction, Db}
use kingspin.Store.Queries.{entry_of, decrement_balance, increment_balance, create_transaction}
use kingspin.Store.Sound.{IsSound}
use kingspin.Wallets.Matches.{RoundWinArgs}
use kingspin.Wallets.Wins.{credit_round_win}
use kingspin.Wallets.Transfers.{
  TransferEnv, TransferArgs, TransferIds, transfer_row, transfer_tx, create_transfer,
}
use kingspin.Wallets.TransferLaws.{moved}
use kingspin.Wallets.TransferKept.{total, transfer-conserves, transfer-IsSound}
use kingspin.Wallets.TransferClash.{win-blocked}

abbrev payer : WalletAccount
payer = record { id = "w1"; user_id = some "u1"; type = main; balance = pos 1000 }

abbrev payee : WalletAccount
payee = record { id = "w2"; user_id = some "u2"; type = main; balance = pos 0 }

abbrev opening : LedgerTransaction
opening = record {
  id = "t1";
  type = admin_credit;
  reference_type = some "ADMIN_DEV_CREDIT";
  reference_id = some "u1";
  idempotency_key = "opening";
  metadata = [];
  entries = entry_of credit (pos 1000) payer ∷ [];
}

abbrev db : Db
db = record {
  wallets = payer ∷ payee ∷ [];
  ledger = opening ∷ [];
  withdrawals = [];
  users = [];
  categories = [];
  rooms = [];
  rounds = [];
  round_entries = [];
}

db-IsSound : IsSound db
unfolding ◌+ℤ◌ ◌-ℤ◌
db-IsSound = record {
  balanced = (refl, (refl, tt));
  solvent = (omega arith, (omega arith, tt));
  known = ((refl, tt), tt);
  amounts = ((omega arith, tt), tt);
  unique_keys = (refl, tt);
  unique_ids = (refl, (refl, tt));
}

-- The key is that of the payout of a round.
abbrev gift : TransferArgs
gift = record {
  recipient_id = "u2";
  amount = pos 250;
  note = none;
  idempotency_key = "round-win:r1:e1";
}

abbrev given : WalletAccount
given = record { id = "w1"; user_id = some "u1"; type = main; balance = pos 750 }

abbrev got : WalletAccount
got = record { id = "w2"; user_id = some "u2"; type = main; balance = pos 250 }

abbrev gift_row : LedgerTransaction
gift_row = transfer_row "t2" "u1" gift given got

abbrev after_gift : Db
after_gift = record db { wallets = given ∷ got ∷ []; ledger = opening ∷ gift_row ∷ [] }

gift_runs : transfer_tx "t2" "u1" gift payer payee db ≡ ok (gift_row, after_gift)
unfolding transfer_tx decrement_balance increment_balance create_transaction ◌+ℤ◌ ◌-ℤ◌
gift_runs = refl

transfer-conserves_example :
    (after_gift.wallets ≡ map (moved "w1" "w2" (pos 250)) db.wallets)
    × (total after_gift.wallets ≡ total db.wallets)
transfer-conserves_example =
    transfer-conserves "t2" "u1" gift payer payee db gift_row after_gift db-IsSound gift_runs

abbrev ids : TransferIds
ids = record { sender_wallet_id = "w3"; recipient_wallet_id = "w4"; transaction_id = "t2" }

abbrev env : TransferEnv
env = record { transfer_min = pos 10; transfer_max = pos 500; is_user = λ id. true }

-- Another player's transfer under another key comes in between.
abbrev others : ℕ → Db → Db
others i d =
    (create_transfer ids env "u2" (record gift { recipient_id = "u1"; idempotency_key = "k" })
      (λ j e. e) d).1

transfer-IsSound_example : IsSound (create_transfer ids env "u1" gift others db).1
transfer-IsSound_example =
    transfer-IsSound ids env "u1" gift others db (omega arith)
      (λ i d s.
        transfer-IsSound ids env "u2" (record gift { recipient_id = "u1"; idempotency_key = "k" })
          (λ j e. e) d (omega arith) (λ j e k. k) s)
      db-IsSound

abbrev win : RoundWinArgs
win = record { user_id = "u2"; round_id = "r1"; winner_entry_id = "e1"; amount = pos 40 }

-- The same database after one more row in the ledger.
abbrev next_day : Db
next_day = record after_gift {
  ledger = after_gift.ledger ++ record opening { id = "t9"; idempotency_key = "later" } ∷ [];
}

win-blocked_example :
    credit_round_win "w5" "t3" win (λ d. d) next_day
    ≡ (err (bad_request "Idempotency key was already used for a different round payout."), next_day)
win-blocked_example =
    win-blocked "t2" "u1" gift payer payee db gift_row after_gift next_day "w5" "t3" win (λ d. d)
      got gift_runs refl refl refl refl refl
