-- ===== src/Wallets/Wins.antt =====
-- The credits of a settled round: the win of the player and the fee of the house. `others` stands for
-- what other requests commit between the lookup of the key and the transaction.
use kingspin.Prelude.{⊤, true, false, String, [], ◌∷◌, Option, none, some}
use kingspin.Prelude.Int.{ℤ, pos, leb_ℤ}
use kingspin.Prelude.Lists.{find}
use kingspin.Prelude.Text.{is_empty, ◌<>◌, to_string}
use kingspin.Prelude.Result.{bad_request, record_not_found}
use kingspin.Store.Tables.{house, round_payout, house_fee, WalletAccount, LedgerTransaction, Db}
use kingspin.Store.Tx as Tx
use kingspin.Store.Tx.{Tx, commit}
use kingspin.Store.Service.{Service, ◌>>=◌, ◌>>◌, done, fail_if, catch_unique, meanwhile}
use kingspin.Store.Queries.{find_transaction, find_wallet, Draft}
use kingspin.Wallets.{MoneyMutationResult, reuse, credit_fresh}
use kingspin.Wallets.Matches.{
  RoundWinArgs, PlatformFeeArgs, assert_round_payout_transaction_matches,
  assert_platform_fee_transaction_matches,
}
use kingspin.Wallets.Money.{is_main_of, new_main_wallet, create_wallet}

abbrev pub find_main : String → Tx (Option WalletAccount)
find_main user_id = Tx.gets λ db. find (is_main_of user_id) db.wallets

abbrev pub find_main_or_throw : String → Tx WalletAccount
find_main_or_throw user_id = Tx.◌>>=◌ (find_main user_id) (λ w. Tx.or_throw w record_not_found)

unfoldable pub ensure_main_wallet_for_user_id : String → String → Service WalletAccount
ensure_main_wallet_for_user_id new_wallet_id user_id = do
  fail_if (is_empty user_id) (bad_request "userId is required.")
  existing ← commit (find_main user_id)
  elim existing [
    | some w ↦ done w
    | none ↦
        catch_unique (commit (create_wallet (new_main_wallet new_wallet_id user_id)))
          (commit (find_main_or_throw user_id))
  ]

abbrev pub find_transaction_or_throw : String → Tx LedgerTransaction
find_transaction_or_throw key =
    Tx.◌>>=◌ (find_transaction key) (λ t. Tx.or_throw t record_not_found)

abbrev pub after_violation :
    String → (LedgerTransaction → Tx ⊤) → String → Service MoneyMutationResult
after_violation key assertion wallet_id = do
  t ← commit (find_transaction_or_throw key)
  commit (reuse (assertion t) wallet_id t)

-- The lookup, the transaction, and the handler for a row of the same key that came first.
unfoldable pub credit_once :
    String
    → (LedgerTransaction → Tx ⊤)
    → String
    → String
    → ℤ
    → (WalletAccount → Draft)
    → (Db → Db)
    → Service MoneyMutationResult
credit_once key assertion new_id wallet_id amount draft others = do
  existing ← commit (find_transaction key)
  elim existing [
    | some t ↦ commit (reuse (assertion t) wallet_id t)
    | none ↦ do
      meanwhile others
      catch_unique (commit (credit_fresh new_id wallet_id amount draft))
          (after_violation key assertion wallet_id)
  ]

abbrev pub round_win_key : RoundWinArgs → String
round_win_key args = "round-win:" <> args.round_id <> ":" <> args.winner_entry_id

abbrev pub round_win_draft : RoundWinArgs → WalletAccount → Draft
round_win_draft args w = record {
  type = round_payout;
  reference_type = "ROUND";
  reference_id = some args.round_id;
  idempotency_key = round_win_key args;
  metadata =
      ("userId", args.user_id)
      ∷ ("roundId", args.round_id)
      ∷ ("winnerEntryId", args.winner_entry_id)
      ∷ ("amount", to_string args.amount)
      ∷ ("walletAccountId", w.id)
      ∷ [];
}

unfoldable pub credit_round_win :
    String → String → RoundWinArgs → (Db → Db) → Service MoneyMutationResult
credit_round_win new_wallet_id new_id args others = do
  fail_if (leb_ℤ args.amount (pos 0)) (bad_request "Round win amount must be greater than zero.")
  w ← ensure_main_wallet_for_user_id new_wallet_id args.user_id
  credit_once (round_win_key args) (λ t. assert_round_payout_transaction_matches t args) new_id w.id
      args.amount (round_win_draft args) others

abbrev pub house_id : String
house_id = "platform-house-main"

abbrev pub house_wallet : WalletAccount
house_wallet = record { id = house_id; user_id = none; type = house; balance = pos 0 }

-- The upsert of the wallet of the house.
unfoldable pub upsert_house : Tx WalletAccount
unfolding find_wallet
upsert_house =
    Tx.◌>>=◌ (find_wallet house_id)
      (λ found. elim found [ some w ↦ Tx.pure w | none ↦ create_wallet house_wallet ])

abbrev pub platform_fee_key : PlatformFeeArgs → String
platform_fee_key args = "round-platform-fee:" <> args.round_id

abbrev pub platform_fee_draft : PlatformFeeArgs → WalletAccount → Draft
platform_fee_draft args w = record {
  type = house_fee;
  reference_type = "ROUND";
  reference_id = some args.round_id;
  idempotency_key = platform_fee_key args;
  metadata =
      ("roundId", args.round_id)
      ∷ ("amount", to_string args.amount)
      ∷ ("platformFeeBps", to_string args.platform_fee_bps)
      ∷ ("walletAccountId", w.id)
      ∷ [];
}

unfoldable pub credit_platform_fee :
    String → PlatformFeeArgs → (Db → Db) → Service (Option MoneyMutationResult)
credit_platform_fee new_id args others = elim (leb_ℤ args.amount (pos 0)) [
  | true ↦ done none
  | false ↦ do
    w ← commit upsert_house
    r ←
        credit_once (platform_fee_key args) (λ t. assert_platform_fee_transaction_matches t args)
          new_id w.id args.amount (platform_fee_draft args) others
    done (some r)
]
