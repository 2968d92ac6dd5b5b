-- ===== src/Wallets/Tests.antt =====
-- The wallets service on a small database: one player with a balance of 1000.
use kingspin.Prelude.{◌≡◌, refl, true, false, [], ◌∷◌, some, none, arith, ◌⊎◌, String}
use kingspin.Prelude.Int.{pos, ◌+ℤ◌, ◌-ℤ◌}
use kingspin.Prelude.Result.{ok}
use kingspin.Store.Tables.{main, admin_credit, credit, WalletAccount, LedgerTransaction, Db}
use kingspin.Store.Queries.{
  find_transaction, decrement_balance, increment_balance, create_transaction, post_debit,
  post_credit, entry_of,
}
use kingspin.Store.Sound.{IsSound}
use kingspin.Wallets.{MoneyMutationResult, debit_main, reused_result}
use kingspin.Wallets.Matches.{
  EntryHoldArgs, WithdrawalArgs, DepositCreditArgs, RoundWinArgs, PlatformFeeArgs,
  assert_round_payout_transaction_matches, assert_platform_fee_transaction_matches,
}
use kingspin.Wallets.Money.{
  hold_entry_amount_in_transaction, hold_draft, reserve_withdrawal_in_transaction, reserve_draft,
  refund_withdrawal_in_transaction, refund_draft, credit_deposit_in_transaction, deposit_draft,
  deposit_fresh, ensure_main_wallet_for_user_id_in_transaction, create_wallet,
}
use kingspin.Wallets.Wins.{
  credit_round_win, credit_once, ensure_main_wallet_for_user_id, round_win_key, round_win_draft,
  credit_platform_fee, upsert_house, platform_fee_key, platform_fee_draft, house_wallet, house_id,
}
use kingspin.Wallets.EntryRefund.{
  EntryRefundResult, refund_entry_holds, refund_entry_draft, refunded, already_refunded,
}
use kingspin.Wallets.EntryRefundLaws.{entry_refund-once, entry_refund-IsSound}
use kingspin.Wallets.Effect.{IsDebit}
use kingspin.Wallets.HoldOutcome.{hold-outcome}
use kingspin.Wallets.Answered.{Answered}
use kingspin.Wallets.WinLaws.{win-recorded, fee-recorded}
use kingspin.Wallets.DepositOnce.{deposit-replay}
use kingspin.Wallets.Kept.{hold-IsSound, deposit-IsSound, reserve-IsSound}
use kingspin.Wallets.Outcomes.{debit_row, debited}
use kingspin.Wallets.Once.{hold-replay, reserve-replay}
use kingspin.Store.Tx.{commit}
use kingspin.Store.Runs.{credit_row, credited}

abbrev wallet : WalletAccount
wallet = record { id = "w1"; user_id = some "u1"; type = main; balance = pos 1000 }

abbrev opening : LedgerTransaction
opening = record {
  id = "t1";
  type = admin_credit;
  reference_type = some "ADMIN_DEV_CREDIT";
  reference_id = some "u1";
  idempotency_key = "opening";
  metadata = [];
  entries = entry_of credit (pos 1000) wallet ∷ [];
}

abbrev db : Db
db = record {
  wallets = wallet ∷ [];
  ledger = opening ∷ [];
  withdrawals = [];
  users = [];
  categories = [];
  rooms = [];
  rounds = [];
  round_entries = [];
}

db-IsSound : IsSound db
unfolding ◌+ℤ◌ ◌-ℤ◌
db-IsSound = record {
  balanced = (refl, tt);
  solvent = (omega arith, tt);
  known = ((refl, tt), tt);
  amounts = ((omega arith, tt), tt);
  unique_keys = (refl, tt);
  unique_ids = (refl, tt);
}

abbrev hold : EntryHoldArgs
hold = record {
  wallet_account_id = "w1";
  user_id = "u1";
  round_id = "r1";
  entry_id = "e1";
  amount = pos 250;
  idempotency_key = "hold:e1";
}

abbrev held : WalletAccount
held = record wallet { balance = wallet.balance -ℤ pos 250 }

abbrev hold_row : LedgerTransaction
hold_row = debit_row "t2" (pos 250) (hold_draft hold) wallet

abbrev after_hold : Db
after_hold = debited "w1" (pos 250) hold_row db

hold_runs :
    hold_entry_amount_in_transaction "t2" hold db
    ≡ ok (record { wallet = held; transaction = hold_row; reused = false }, after_hold)
unfolding hold_entry_amount_in_transaction find_transaction debit_main decrement_balance post_debit
    ◌-ℤ◌ create_transaction
hold_runs = refl

hold-replay_example :
    hold_entry_amount_in_transaction "t3" hold after_hold
    ≡ ok (reused_result hold_row held, after_hold)
hold-replay_example = hold-replay "t2" "t3" hold db db-IsSound hold_runs

hold-IsSound_example : IsSound (commit (hold_entry_amount_in_transaction "t2" hold) db).1
hold-IsSound_example = hold-IsSound "t2" hold db (omega arith) db-IsSound

hold-outcome_example :
    (false ≡ true) × (after_hold ≡ db)
    ⊎ (false ≡ false)
      × IsDebit "t2" "w1" "u1"
          (pos 250)
          (hold_draft hold)
          db
          (record { wallet = held; transaction = hold_row; reused = false })
          after_hold
hold-outcome_example = hold-outcome "t2" hold db db-IsSound hold_runs

abbrev withdrawal : WithdrawalArgs
withdrawal = record {
  user_id = "u1";
  withdrawal_id = "x1";
  wallet_account_id = "w1";
  amount = pos 250;
  currency = "ETB";
  provider = "MOCK";
  idempotency_key = none;
}

abbrev reserve_row : LedgerTransaction
reserve_row = debit_row "t2" (pos 250) (reserve_draft withdrawal) wallet

abbrev after_reserve : Db
after_reserve = debited "w1" (pos 250) reserve_row db

reserve_runs :
    reserve_withdrawal_in_transaction "t2" withdrawal db
    ≡ ok (record { wallet = held; transaction = reserve_row; reused = false }, after_reserve)
unfolding reserve_withdrawal_in_transaction find_transaction debit_main decrement_balance post_debit
    ◌-ℤ◌ create_transaction
reserve_runs = refl

reserve-replay_example :
    reserve_withdrawal_in_transaction "t3" withdrawal after_reserve
    ≡ ok (reused_result reserve_row held, after_reserve)
reserve-replay_example = reserve-replay "t2" "t3" withdrawal db db-IsSound reserve_runs

reserve-IsSound_example : IsSound (commit (reserve_withdrawal_in_transaction "t2" withdrawal) db).1
reserve-IsSound_example = reserve-IsSound "t2" withdrawal db (omega arith) db-IsSound

abbrev richer : WalletAccount
richer = record wallet { balance = wallet.balance +ℤ pos 250 }

abbrev refund_row : LedgerTransaction
refund_row = credit_row "t2" (pos 250) (refund_draft withdrawal "no") wallet

abbrev after_refund : Db
after_refund = credited "w1" (pos 250) refund_row db

refund_runs :
    refund_withdrawal_in_transaction "t2" withdrawal "no" db
    ≡ ok (record { wallet = richer; transaction = refund_row; reused = false }, after_refund)
unfolding refund_withdrawal_in_transaction find_transaction increment_balance post_credit ◌+ℤ◌
    create_transaction
refund_runs = refl

abbrev deposit : DepositCreditArgs
deposit = record {
  user_id = "u1";
  deposit_id = "d1";
  amount = pos 250;
  currency = "ETB";
  provider = "MOCK";
  idempotency_key = none;
}

abbrev deposit_row : LedgerTransaction
deposit_row = credit_row "t2" (pos 250) (deposit_draft deposit) wallet

abbrev after_deposit : Db
after_deposit = credited "w1" (pos 250) deposit_row db

deposit_runs :
    credit_deposit_in_transaction "w2" "t2" deposit db
    ≡ ok (record { wallet = richer; transaction = deposit_row; reused = false }, after_deposit)
unfolding credit_deposit_in_transaction deposit_fresh ensure_main_wallet_for_user_id_in_transaction
    find_transaction increment_balance post_credit ◌+ℤ◌ create_transaction
deposit_runs = refl

deposit-replay_example :
    credit_deposit_in_transaction "w3" "t3" deposit after_deposit
    ≡ ok (reused_result deposit_row richer, after_deposit)
deposit-replay_example = deposit-replay "w2" "w3" "t2" "t3" deposit db deposit_runs

deposit-IsSound_example : IsSound (commit (credit_deposit_in_transaction "w2" "t2" deposit) db).1
deposit-IsSound_example = deposit-IsSound "w2" "t2" deposit db (omega arith) db-IsSound

abbrev entry_refund : EntryRefundResult
entry_refund = record { entry_id = "e1"; is_refunded = true; amount = pos 250; reason = refunded }

abbrev back : WalletAccount
back = record held { balance = held.balance +ℤ pos 250 }

abbrev after_entry_refund : Db
after_entry_refund =
    credited "w1" (pos 250)
      (credit_row "t3" (pos 250) (refund_entry_draft "e1" "r1" (pos 250)) held) after_hold

entry_refund_runs :
    refund_entry_holds "t3" "e1" "r1" after_hold ≡ ok (entry_refund, after_entry_refund)
unfolding refund_entry_holds find_transaction increment_balance post_credit ◌+ℤ◌ ◌-ℤ◌
    create_transaction
entry_refund_runs = refl

entry_refund-once_example :
    refund_entry_holds "t4" "e1" "r1" after_entry_refund
    ≡ ok
        (record entry_refund { is_refunded = false; reason = already_refunded }, after_entry_refund)
entry_refund-once_example =
    entry_refund-once "t3" "t4" "e1" "r1" "r1" after_hold entry_refund_runs refl

entry_refund-IsSound_example : IsSound (commit (refund_entry_holds "t3" "e1" "r1") db).1
entry_refund-IsSound_example = entry_refund-IsSound "t3" "e1" "r1" db db-IsSound

abbrev win : RoundWinArgs
win = record { user_id = "u1"; round_id = "r1"; winner_entry_id = "e1"; amount = pos 250 }

abbrev win_row : LedgerTransaction
win_row = credit_row "t2" (pos 250) (round_win_draft win) wallet

abbrev win_result : MoneyMutationResult
win_result = record { wallet = richer; transaction = win_row; reused = false }

abbrev after_win : Db
after_win = credited "w1" (pos 250) win_row db

win_runs : credit_round_win "w2" "t2" win (λ d. d) db ≡ (ok win_result, after_win)
unfolding credit_round_win credit_once ensure_main_wallet_for_user_id find_transaction
    increment_balance post_credit ◌+ℤ◌ create_transaction
win_runs = refl

win-recorded_example :
    (id : String) × Answered
      (round_win_key win)
      (λ t. assert_round_payout_transaction_matches t win)
      id
      win_result
      after_win
win-recorded_example = win-recorded "w2" "t2" win (λ d. d) db win_runs

abbrev fee : PlatformFeeArgs
fee = record { round_id = "r1"; amount = pos 25; platform_fee_bps = pos 500 }

abbrev house_db : Db
house_db = record db { wallets = wallet ∷ house_wallet ∷ [] }

abbrev fee_row : LedgerTransaction
fee_row = credit_row "t2" (pos 25) (platform_fee_draft fee) house_wallet

abbrev fee_result : MoneyMutationResult
fee_result = record {
  wallet = record house_wallet { balance = pos 0 +ℤ pos 25 };
  transaction = fee_row;
  reused = false;
}

abbrev after_fee : Db
after_fee = credited house_id (pos 25) fee_row house_db

fee_runs : credit_platform_fee "t2" fee (λ d. d) db ≡ (ok (some fee_result), after_fee)
unfolding credit_platform_fee upsert_house create_wallet credit_once find_transaction
    increment_balance post_credit ◌+ℤ◌ create_transaction
fee_runs = refl

fee-recorded_example :
    (id : String) × Answered
      (platform_fee_key fee)
      (λ t. assert_platform_fee_transaction_matches t fee)
      id
      fee_result
      after_fee
fee-recorded_example = fee-recorded "t2" fee (λ d. d) db fee_runs
