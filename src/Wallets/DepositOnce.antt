-- ===== src/Wallets/DepositOnce.antt =====
-- The idempotency of the credit of a deposit.
use mathlib.Core.Path.{subst}
use kingspin.Prelude.{◌≡◌, refl, sym, ◌∙◌, String, List, [], ◌∷◌, none, some, arith, inl, inr}
use kingspin.Prelude.Int.{◌+ℤ◌}
use kingspin.Prelude.Lists.{find}
use kingspin.Prelude.Text.{str_eq_self, to_string}
use kingspin.Prelude.Result.{ok, Result-cases}
use kingspin.Store.Tables.{credit, WalletAccount, LedgerEntry, LedgerTransaction, Db}
use kingspin.Store.Queries.{has_id, has_key, to_transaction, entry_of}
use kingspin.Store.Runs.{credit_row, credited, bind_after, bind_failed}
use kingspin.Store.Sound.Rules.{found_id}
use kingspin.Store.Sound.Rules.{Quiet}
use kingspin.Wallets.{MoneyMutationResult, reused_result, credit_fresh}
use kingspin.Wallets.Effect.{IsCredit, credit_fresh-IsCredit}
use kingspin.Wallets.Matches.{DepositCreditArgs, assert_deposit_credit_transaction_matches}
use kingspin.Wallets.Money.{
  ensure_main_wallet_for_user_id_in_transaction, create_wallet, credit_deposit_in_transaction,
  deposit_fresh, deposit_draft, deposit_key, reuse_deposit, reuse_by_entries,
}
use kingspin.Wallets.Outcomes.{reuse_run}
use kingspin.Wallets.Replay.{replay, reuse-Quiet, find-append, find-adjust}

pub Quiet-deposit :
    (t : LedgerTransaction) (args : DepositCreditArgs)
    → Quiet (assert_deposit_credit_transaction_matches t args)
unfolding assert_deposit_credit_transaction_matches
Quiet-deposit t args db a next h = ground arith

own_deposit :
    (new_id : String) (args : DepositCreditArgs) (w : WalletAccount) (d : Db)
    → assert_deposit_credit_transaction_matches
        (to_transaction new_id (deposit_draft args w) (entry_of credit args.amount w ∷ []))
        args
        d
      ≡ ok (tt, d)
unfolding assert_deposit_credit_transaction_matches
own_deposit new_id args w d =
    rw
      (
        str_eq_self args.deposit_id,
        str_eq_self args.user_id,
        str_eq_self (to_string args.amount),
        str_eq_self args.currency,
        str_eq_self args.provider,
      )
      refl

pub ensure-ledger :
    (new_wallet_id user_id : String) (db : Db) {w : WalletAccount} {d : Db}
    → ensure_main_wallet_for_user_id_in_transaction new_wallet_id user_id db ≡ ok (w, d)
    → d.ledger ≡ db.ledger
unfolding ensure_main_wallet_for_user_id_in_transaction create_wallet
ensure-ledger new_wallet_id user_id db e = ground arith

reuse_by_entries-Quiet :
    (args : DepositCreditArgs) (t : LedgerTransaction) (es : List LedgerEntry) (db : Db)
    {r : MoneyMutationResult} {next : Db}
    → reuse_by_entries args t es db ≡ ok (r, next)
    → (next ≡ db) × (r ≡ reused_result t r.wallet)
reuse_by_entries-Quiet args t [] db e = ground arith
reuse_by_entries-Quiet args t (x ∷ xs) db e =
    reuse-Quiet (assert_deposit_credit_transaction_matches t args) x.wallet_account_id t db
      (Quiet-deposit t args) e

deposit_again :
    (new_id : String) (args : DepositCreditArgs) (w : WalletAccount) (d : Db)
    {r : MoneyMutationResult} {next : Db}
    → find (has_key (deposit_key args)) d.ledger ≡ none
    → IsCredit new_id w.id args.amount (deposit_draft args) d r next
    → (find (has_key (deposit_key args)) next.ledger ≡ some r.transaction)
      × (reuse_deposit args r.transaction next ≡ ok (reused_result r.transaction r.wallet, next))
deposit_again new_id args w d {r} {next} missing c =
    let payee = c.payee in
    let v = record payee { balance = payee.balance +ℤ args.amount } in
    let row = credit_row new_id args.amount (deposit_draft args) payee in
    let after = credited w.id args.amount row d in
    let same : payee.id ≡ w.id = found_id w.id d.wallets payee c.is_there in
    let still = find-adjust (λ b. b +ℤ args.amount) w.id d.wallets c.is_there in
    rw (c.answer, c.after)
      (
        find-append (has_key (deposit_key args)) d.ledger row missing
            (str_eq_self (deposit_key args)),
        reuse_run (assert_deposit_credit_transaction_matches row args) payee.id row after v
            (own_deposit new_id args v after)
            (subst (λ id. find (has_id id) after.wallets ≡ some v) (sym same) still),
      )

-- The credit of a deposit that went through is not paid twice: the same request again, under any new
-- row ids, changes nothing and answers with the first row, marked as reused.
pub deposit-replay :
    (wallet_id other_wallet_id new_id other_id : String) (args : DepositCreditArgs) (db : Db)
    {r : MoneyMutationResult} {next : Db}
    → credit_deposit_in_transaction wallet_id new_id args db ≡ ok (r, next)
    → credit_deposit_in_transaction other_wallet_id other_id args next
      ≡ ok (reused_result r.transaction r.wallet, next)
unfolding credit_deposit_in_transaction deposit_fresh
deposit-replay wallet_id other_wallet_id new_id other_id args db {r} {next} e =
    replay (deposit_key args) (reuse_deposit args) (deposit_fresh wallet_id new_id args)
      (deposit_fresh other_wallet_id other_id args) db
      (λ t h. reuse_by_entries-Quiet args t t.entries db h)
      (λ missing h.
        let ensure = ensure_main_wallet_for_user_id_in_transaction wallet_id args.user_id in
        let credit_it =
          λ (w : WalletAccount). credit_fresh new_id w.id args.amount (deposit_draft args) in
        elim (Result-cases (ensure db)) [
          | inr (x, failed) ↦ cc (bind_failed ensure credit_it db failed, h)
          | inl ((w, d), there) ↦
              deposit_again new_id args w d
                (rw (ensure-ledger wallet_id args.user_id db there) missing)
                (credit_fresh-IsCredit new_id w.id args.amount (deposit_draft args) d
                  (sym (bind_after ensure credit_it db there) ∙ h))
        ])
      e
