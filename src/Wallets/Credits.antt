-- ===== src/Wallets/Credits.antt =====
-- What the credits of a settled round keep: every condition on the database that the posting of a
-- credit and the creation of a wallet keep.
use mathlib.Core.Path.{subst}
use kingspin.Prelude.{
  ◌≡◌, refl, sym, ⊤, true, false, String, none, some, arith, inl, inr, Bool-cases,
}
use kingspin.Prelude.Int.{ℤ, pos, ◌≤ℤ◌, leb_ℤ}
use kingspin.Prelude.Text.{is_empty}
use kingspin.Prelude.Result.{ok, bad_request, record_not_found}
use kingspin.Store.Tables.{WalletAccount, LedgerTransaction, Db}
use kingspin.Store.Tx.{Tx, commit}
use kingspin.Store.Service as Service
use kingspin.Store.Service.{Service, done, fail_if}
use kingspin.Store.Queries.{find_transaction, find_wallet, find_wallet_or_throw, Draft}
use kingspin.Store.Invariant.InTx as InTx
use kingspin.Store.Invariant.InTx.{InTx}
use kingspin.Store.Invariant.Holds.{
  Holds, ◌>>=◌, ◌>>◌, commits, dones, fails_if, catches, others_keep, cases_option,
}
use kingspin.Wallets.{MoneyMutationResult, reuse, reused_result, credit_fresh}
use kingspin.Wallets.Matches.{
  RoundWinArgs, PlatformFeeArgs, assert_round_payout_transaction_matches,
  assert_platform_fee_transaction_matches,
}
use kingspin.Wallets.Money.{new_main_wallet, create_wallet}
use kingspin.Wallets.Wins.{
  find_main, ensure_main_wallet_for_user_id, after_violation, credit_once, round_win_key,
  round_win_draft, credit_round_win, house_wallet, house_id, upsert_house, platform_fee_key,
  platform_fee_draft, credit_platform_fee,
}

-- The credit of the fee to the wallet of the house.
abbrev post_fee : String → PlatformFeeArgs → (Db → Db) → WalletAccount → Service MoneyMutationResult
post_fee new_id args others w =
    credit_once (platform_fee_key args) (λ t. assert_platform_fee_transaction_matches t args) new_id
      w.id args.amount (platform_fee_draft args) others

no_fee :
    (new_id : String) (args : PlatformFeeArgs) (others : Db → Db) (db : Db)
    → leb_ℤ args.amount (pos 0) ≡ true
    → credit_platform_fee new_id args others db ≡ (ok none, db)
unfolding credit_platform_fee
no_fee new_id args others db h = ground arith

some_fee :
    (new_id : String) (args : PlatformFeeArgs) (others : Db → Db) (db : Db)
    → leb_ℤ args.amount (pos 0) ≡ false
    → credit_platform_fee new_id args others db
      ≡ Service.◌>>=◌
          (commit upsert_house)
          (λ w. Service.◌>>=◌ (post_fee new_id args others w) (λ r. done (some r)))
          db
unfolding credit_platform_fee
some_fee new_id args others db h = ground arith

module _ (P : Db → Type 0)
    (credits : (new_id id : String) (amount : ℤ) (draft : WalletAccount → Draft)
      → pos 0 ≤ℤ amount
      → InTx P (credit_fresh new_id id amount draft))
    (creates : (w : WalletAccount) → w.balance ≡ pos 0 → InTx P (create_wallet w)) where
  pub finds_transaction : (key : String) → InTx P (find_transaction key)
  unfolding find_transaction
  finds_transaction key = record { kept = λ db h. h }

  finds_wallet : (id : String) → InTx P (find_wallet id)
  unfolding find_wallet
  finds_wallet id = record { kept = λ db h. h }

  finds_wallet_or_throw : (id : String) → InTx P (find_wallet_or_throw id)
  unfolding find_wallet_or_throw
  finds_wallet_or_throw id = InTx.◌>>=◌ (finds_wallet id) (λ w. InTx.needs w record_not_found)

  reuses : (m : Tx ⊤) (id : String) (t : LedgerTransaction) → InTx P m → InTx P (reuse m id t)
  reuses m id t h =
      InTx.◌>>◌ h (InTx.◌>>=◌ (finds_wallet_or_throw id) (λ w. InTx.pures (reused_result t w)))

  finds_main : (user_id : String) → InTx P (find_main user_id)
  finds_main user_id = record { kept = λ db h. h }

  pub ensures_main :
      (new_wallet_id user_id : String)
      → Holds P (ensure_main_wallet_for_user_id new_wallet_id user_id)
  unfolding ensure_main_wallet_for_user_id
  ensures_main new_wallet_id user_id = do
    fails_if (is_empty user_id) (bad_request "userId is required.")
    existing ← commits (finds_main user_id)
    cases_option existing
        (catches (commits (creates (new_main_wallet new_wallet_id user_id) refl))
          (commits (InTx.◌>>=◌ (finds_main user_id) (λ w. InTx.needs w record_not_found))))
        (λ w. dones w)

  answers_violation :
      (key : String) (assertion : LedgerTransaction → Tx ⊤) (wallet_id : String)
      → ((t : LedgerTransaction) → InTx P (assertion t))
      → Holds P (after_violation key assertion wallet_id)
  answers_violation key assertion wallet_id q = do
    t ← commits (InTx.◌>>=◌ (finds_transaction key) (λ t. InTx.needs t record_not_found))
    commits (reuses (assertion t) wallet_id t (q t))

  credits_once :
      (key : String) (assertion : LedgerTransaction → Tx ⊤) (new_id wallet_id : String) (amount : ℤ)
      (draft : WalletAccount → Draft) (others : Db → Db)
      → ((t : LedgerTransaction) → InTx P (assertion t))
      → pos 0 ≤ℤ amount
      → ((db : Db) → P db → P (others db))
      → Holds P (credit_once key assertion new_id wallet_id amount draft others)
  unfolding credit_once
  credits_once key assertion new_id wallet_id amount draft others q low o = do
    existing ← commits (finds_transaction key)
    cases_option existing
        (others_keep others o
          >> catches (commits (credits new_id wallet_id amount draft low))
              (answers_violation key assertion wallet_id q))
        (λ t. commits (reuses (assertion t) wallet_id t (q t)))

  -- The credit of a win keeps the condition, whatever keeps it is committed before its transaction.
  pub credits_round_win :
      (new_wallet_id new_id : String) (args : RoundWinArgs) (others : Db → Db)
      → ((db : Db) → P db → P (others db))
      → Holds P (credit_round_win new_wallet_id new_id args others)
  unfolding credit_round_win assert_round_payout_transaction_matches
  credits_round_win new_wallet_id new_id args others o =
      elim (Bool-cases (leb_ℤ args.amount (pos 0))) [
        | inl low ↦ record { kept = λ db h. rw low h }
        | inr fine ↦ do
          fails_if (leb_ℤ args.amount (pos 0))
              (bad_request "Round win amount must be greater than zero.")
          w ← ensures_main new_wallet_id args.user_id
          credits_once (round_win_key args) (λ t. assert_round_payout_transaction_matches t args)
              new_id w.id args.amount (round_win_draft args) others (λ t. InTx.throws_if _ _)
              (ground arith) o
      ]

  upserts_house : InTx P upsert_house
  unfolding upsert_house
  upserts_house =
      InTx.◌>>=◌ (finds_wallet house_id)
        (λ found. InTx.cases_option found (creates house_wallet refl) (λ w. InTx.pures w))

  fee_posts :
      (new_id : String) (args : PlatformFeeArgs) (others : Db → Db)
      → leb_ℤ args.amount (pos 0) ≡ false
      → ((db : Db) → P db → P (others db))
      → Holds P (
          Service.◌>>=◌
            (commit upsert_house)
            (λ w. Service.◌>>=◌ (post_fee new_id args others w) (λ r. done (some r))))
  unfolding assert_platform_fee_transaction_matches
  fee_posts new_id args others fine o = do
    w ← commits upserts_house
    r ←
        credits_once (platform_fee_key args) (λ t. assert_platform_fee_transaction_matches t args)
          new_id w.id args.amount (platform_fee_draft args) others (λ t. InTx.throws_if _ _)
          (ground arith) o
    dones (some r)

  -- So does the credit of the fee.
  pub credits_platform_fee :
      (new_id : String) (args : PlatformFeeArgs) (others : Db → Db)
      → ((db : Db) → P db → P (others db))
      → Holds P (credit_platform_fee new_id args others)
  credits_platform_fee new_id args others o = record {
    kept = λ db h. elim (Bool-cases (leb_ℤ args.amount (pos 0))) [
      | inl low ↦ subst (λ z. P z.1) (sym (no_fee new_id args others db low)) h
      | inr fine ↦
          subst (λ z. P z.1) (sym (some_fee new_id args others db fine))
            ((fee_posts new_id args others fine o).kept db h)
    ];
  }
