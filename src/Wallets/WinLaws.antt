-- ===== src/Wallets/WinLaws.antt =====
-- The credits of a settled round are recorded once.
use kingspin.Prelude.{
  ◌≡◌, refl, sym, ◌∙◌, true, false, String, [], ◌∷◌, none, some, arith, inl, inr, Bool-cases,
}
use kingspin.Prelude.Int.{pos, leb_ℤ}
use kingspin.Prelude.Text.{str_eq_self, to_string}
use kingspin.Prelude.Result.{ok, bad_request}
use kingspin.Store.Tables.{credit, WalletAccount, LedgerTransaction, Db}
use kingspin.Store.Tx.{commit}
use kingspin.Store.Service.{◌>>=◌, fail_if, done}
use kingspin.Store.Queries.{to_transaction, entry_of}
use kingspin.Store.Sound.Rules.{Quiet}
use kingspin.Store.Statements.{bind_steps}
use kingspin.Wallets.{MoneyMutationResult}
use kingspin.Wallets.Answered.{Answered, credit_once-Answered}
use kingspin.Wallets.Matches.{
  RoundWinArgs, PlatformFeeArgs, assert_round_payout_transaction_matches,
  assert_platform_fee_transaction_matches,
}
use kingspin.Wallets.Wins.{
  credit_once, credit_round_win, ensure_main_wallet_for_user_id, round_win_key, round_win_draft,
  credit_platform_fee, upsert_house, platform_fee_key, platform_fee_draft,
}

Quiet-win :
    (args : RoundWinArgs) (t : LedgerTransaction)
    → Quiet (assert_round_payout_transaction_matches t args)
unfolding assert_round_payout_transaction_matches
Quiet-win args t db a next h = ground arith

own_win :
    (new_id : String) (args : RoundWinArgs) (w : WalletAccount) (d : Db)
    → assert_round_payout_transaction_matches
        (to_transaction new_id (round_win_draft args w) (entry_of credit args.amount w ∷ []))
        args
        d
      ≡ ok (tt, d)
unfolding assert_round_payout_transaction_matches
own_win new_id args w d =
    rw
      (
        str_eq_self args.round_id,
        str_eq_self args.user_id,
        str_eq_self args.winner_entry_id,
        str_eq_self (to_string args.amount),
      )
      refl

-- A credit of a round's win that is answered is in the ledger: whatever other requests commit before
-- its transaction, the row of the win's key is the one that was answered, and it passes the assertion
-- that it is the payout of this user, round, entry and amount.
pub win-recorded :
    (wallet_id new_id : String) (args : RoundWinArgs) (others : Db → Db) (db : Db)
    {r : MoneyMutationResult} {next : Db}
    → credit_round_win wallet_id new_id args others db ≡ (ok r, next)
    → (id : String) × Answered
        (round_win_key args)
        (λ t. assert_round_payout_transaction_matches t args)
        id
        r
        next
unfolding credit_round_win
win-recorded wallet_id new_id args others db {r} {next} e =
    let once = λ (w : WalletAccount).
      credit_once (round_win_key args) (λ t. assert_round_payout_transaction_matches t args) new_id
        w.id args.amount (round_win_draft args) others in
    let ensure = ensure_main_wallet_for_user_id wallet_id args.user_id in
    let guard =
      fail_if (leb_ℤ args.amount (pos 0))
        (bad_request "Round win amount must be greater than zero.") in
    let (u, d, _, e1) = bind_steps guard (λ u. ensure >>= once) db e in
    let (w, d2, _, e2) = bind_steps ensure once d e1 in
    (
      w.id,
      credit_once-Answered (round_win_key args)
          (λ t. assert_round_payout_transaction_matches t args) new_id w.id args.amount
          (round_win_draft args) others d2 (Quiet-win args) (λ v. refl)
          (λ v a same. own_win new_id args v a) e2,
    )

Quiet-fee :
    (args : PlatformFeeArgs) (t : LedgerTransaction)
    → Quiet (assert_platform_fee_transaction_matches t args)
unfolding assert_platform_fee_transaction_matches
Quiet-fee args t db a next h = ground arith

own_fee :
    (new_id : String) (args : PlatformFeeArgs) (w : WalletAccount) (d : Db)
    → assert_platform_fee_transaction_matches
        (to_transaction new_id (platform_fee_draft args w) (entry_of credit args.amount w ∷ []))
        args
        d
      ≡ ok (tt, d)
unfolding assert_platform_fee_transaction_matches
own_fee new_id args w d =
    rw
      (
        str_eq_self args.round_id,
        str_eq_self (to_string args.amount),
        str_eq_self (to_string args.platform_fee_bps),
      )
      refl

fee_low :
    (new_id : String) (args : PlatformFeeArgs) (others : Db → Db) (db : Db)
    → leb_ℤ args.amount (pos 0) ≡ true
    → credit_platform_fee new_id args others db ≡ (ok none, db)
unfolding credit_platform_fee
fee_low new_id args others db low = ground arith

fee_due :
    (new_id : String) (args : PlatformFeeArgs) (others : Db → Db) (db : Db)
    → leb_ℤ args.amount (pos 0) ≡ false
    → credit_platform_fee new_id args others db
      ≡ (commit upsert_house >>= λ w.
            credit_once
              (platform_fee_key args)
              (λ t. assert_platform_fee_transaction_matches t args)
              new_id
              w.id
              args.amount
              (platform_fee_draft args)
              others
            >>= λ x. done (some x))
          db
unfolding credit_platform_fee
fee_due new_id args others db due = ground arith

-- A platform fee that is answered is in the ledger: whatever other requests commit before its
-- transaction, the row of the fee's key is the one that was answered, and it passes the assertion that
-- it is the fee of this round, amount and rate.
pub fee-recorded :
    (new_id : String) (args : PlatformFeeArgs) (others : Db → Db) (db : Db)
    {r : MoneyMutationResult} {next : Db}
    → credit_platform_fee new_id args others db ≡ (ok (some r), next)
    → (id : String) × Answered
        (platform_fee_key args)
        (λ t. assert_platform_fee_transaction_matches t args)
        id
        r
        next
fee-recorded new_id args others db {r} {next} e = elim (Bool-cases (leb_ℤ args.amount (pos 0))) [
  | inl low ↦ cc (fee_low new_id args others db low, e)
  | inr due ↦
      let once = λ (w : WalletAccount).
        credit_once (platform_fee_key args) (λ t. assert_platform_fee_transaction_matches t args)
          new_id w.id args.amount (platform_fee_draft args) others in
      let (w, d, _, e1) =
        bind_steps (commit upsert_house) (λ w. once w >>= λ x. done (some x)) db
          (sym (fee_due new_id args others db due) ∙ e) in
      let (x, d2, e2, e3) = bind_steps (once w) (λ x. done (some x)) d e1 in
      let same : once w d ≡ (ok r, next) = cc (e2, e3) in
      (
        w.id,
        credit_once-Answered (platform_fee_key args)
            (λ t. assert_platform_fee_transaction_matches t args) new_id w.id args.amount
            (platform_fee_draft args) others d (Quiet-fee args) (λ v. refl)
            (λ v a k. own_fee new_id args v a) same,
      )
]
