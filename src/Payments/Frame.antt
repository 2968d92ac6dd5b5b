-- ===== src/Payments/Frame.antt =====
-- The work on wallets and on the ledger leaves the withdrawals as they are.
use mathlib.Core.Path.{subst}
use kingspin.Prelude.{
  ◌≡◌, sym, false, inl, inr, Bool-cases, Option-cases, ⊤, String, List, ◌∷◌, ◌++◌, [], map, none,
  some,
}
use kingspin.Prelude.Int.{ℤ, ◌+ℤ◌, ◌-ℤ◌}
use kingspin.Prelude.Lists.{any, find}
use kingspin.Prelude.Result.{bad_request, record_not_found, unique_constraint}
use kingspin.Store.Tables.{credit, debit, Withdrawal, WalletAccount, LedgerTransaction, Db}
use kingspin.Store.Tx.{Tx}
use kingspin.Store.Queries.{
  has_key, has_id, adjust, pay, can_pay, find_transaction, find_wallet, find_wallet_or_throw,
  increment_balance, decrement_balance, create_transaction, Draft, to_transaction, entry_of,
  post_credit, post_debit,
}
use kingspin.Store.Invariant.InTx.{
  InTx, ◌>>=◌, ◌>>◌, pures, reads, needs, throws, throws_if, modifies, cases_option,
}
use kingspin.Wallets.{
  MoneyMutationResult, unless_done, reuse, reused_result, fresh_result, insufficient_text,
  debit_main, credit_fresh,
}
use kingspin.Wallets.Matches.{
  WithdrawalArgs, assert_withdrawal_reserve_transaction_matches,
  assert_withdrawal_refund_transaction_matches,
}
use kingspin.Wallets.Money.{
  create_wallet, reserve_key, reserve_draft, reserve_withdrawal_in_transaction, refund_key,
  refund_draft, refund_withdrawal_in_transaction,
}
use kingspin.Store.Sound.Rules.{IfOk, IfOk-ok, IfOk-err}
use kingspin.Payments.Withdrawals.{
  has_withdrawal_id, is_closed, money_of, refund_and_transition, Transition, closed_by,
}
use kingspin.Payments.Transition.{
  at_id, transition_missing, transition_closed, transition_open, after_close,
}

module _ (P : List Withdrawal → Type 0) where
  -- A condition on the withdrawals only.
  abbrev pub OfWithdrawals : Db → Type 0
  OfWithdrawals db = P db.withdrawals

  finds : (key : String) → InTx OfWithdrawals (find_transaction key)
  unfolding find_transaction
  finds key = reads (λ db. find (has_key key) db.ledger)

  creates : (t : LedgerTransaction) → InTx OfWithdrawals (create_transaction t)
  unfolding create_transaction
  creates t = do
    taken ← reads λ db. any (has_key t.idempotency_key) db.ledger
    throws_if taken unique_constraint
    modifies (λ db. record db { ledger = db.ledger ++ t ∷ [] }) (λ db h. h)
    pures t

  reuses :
      (m : Tx ⊤) (id : String) (t : LedgerTransaction)
      → InTx OfWithdrawals m
      → InTx OfWithdrawals (reuse m id t)
  unfolding find_wallet_or_throw find_wallet
  reuses m id t h = do
    h
    w ← reads (λ db. find (has_id id) db.wallets) >>= λ w. needs w record_not_found
    pures (reused_result t w)

  once :
      (key : String) {again : LedgerTransaction → Tx MoneyMutationResult}
      {fresh : Tx MoneyMutationResult}
      → ((t : LedgerTransaction) → InTx OfWithdrawals (again t))
      → InTx OfWithdrawals fresh
      → InTx OfWithdrawals (unless_done key again fresh)
  once key h k = do existing ← finds key; cases_option existing k h

  pub credits :
      (new_id id : String) (amount : ℤ) (draft : WalletAccount → Draft)
      → InTx OfWithdrawals (credit_fresh new_id id amount draft)
  unfolding post_credit increment_balance
  credits new_id id amount draft = do
    posted ←
        (reads (λ db. find (has_id id) db.wallets) >>= λ found.
        needs found record_not_found >>= λ w.
        modifies (λ db. record db { wallets = map (adjust (λ b. b +ℤ amount) id) db.wallets })
          (λ db h. h)
        >> pures (record w { balance = w.balance +ℤ amount }))
        >>= λ w. creates (to_transaction new_id (draft w) (entry_of credit amount w ∷ [])) >>= λ t.
            pures (w, t)
    pures (fresh_result posted)

  decrements :
      (id user_id : String) (amount : ℤ) → InTx OfWithdrawals (decrement_balance id user_id amount)
  unfolding decrement_balance
  decrements id user_id amount = do
    found ← reads λ db. find (can_pay id user_id amount) db.wallets
    modifies (λ db. record db { wallets = map (pay id user_id amount) db.wallets }) (λ db h. h)
    pures (elim found [ none ↦ none | some w ↦ some (record w { balance = w.balance -ℤ amount }) ])

  debits_main :
      (id user_id : String) (amount : ℤ) → InTx OfWithdrawals (debit_main id user_id amount)
  unfolding debit_main find_wallet
  debits_main id user_id amount = do
    updated ← decrements id user_id amount
    cases_option updated
        (reads (λ db. find (has_id id) db.wallets) >>= λ seen.
          throws (bad_request (insufficient_text seen amount)))
        (λ w. pures w)

  pub reserves :
      (new_id : String) (args : WithdrawalArgs)
      → InTx OfWithdrawals (reserve_withdrawal_in_transaction new_id args)
  unfolding reserve_withdrawal_in_transaction assert_withdrawal_reserve_transaction_matches
      post_debit
  reserves new_id args =
      once (reserve_key args)
        (λ t.
          reuses (assert_withdrawal_reserve_transaction_matches t args) args.wallet_account_id t
            (throws_if _ _))
        (debits_main args.wallet_account_id args.user_id args.amount >>= λ w.
          (creates
              (to_transaction new_id (reserve_draft args w) (entry_of debit args.amount w ∷ []))
            >>= λ t. pures (w, t))
          >>= λ posted. pures (fresh_result posted))

  pub refunds_money :
      (new_id reason : String) (args : WithdrawalArgs)
      → InTx OfWithdrawals (refund_withdrawal_in_transaction new_id args reason)
  unfolding refund_withdrawal_in_transaction assert_withdrawal_refund_transaction_matches
  refunds_money new_id reason args =
      once (refund_key args)
        (λ t.
          reuses (assert_withdrawal_refund_transaction_matches t args) args.wallet_account_id t
            (throws_if _ _))
        (credits new_id args.wallet_account_id args.amount (refund_draft args reason))

  pub creates_wallet : (w : WalletAccount) → InTx OfWithdrawals (create_wallet w)
  unfolding create_wallet
  creates_wallet w = do
    taken ← reads λ db. any (has_id w.id) db.wallets
    throws_if taken unique_constraint
    modifies (λ db. record db { wallets = db.wallets ++ w ∷ [] }) (λ db h. h)
    pures w

  -- The refund of a withdrawal writes the withdrawals once.
  pub transition-OfWithdrawals :
      (new_id id actor_id : String) (args : Transition) (db : Db)
      → ((w : Withdrawal)
          → find (has_withdrawal_id id) db.withdrawals ≡ some w
          → is_closed w.status ≡ false
          → w.id ≡ id
          → OfWithdrawals (after_close args actor_id w db))
      → OfWithdrawals db
      → IfOk (λ a next. OfWithdrawals next) (refund_and_transition new_id id actor_id args db)
  transition-OfWithdrawals new_id id actor_id args db closes p =
      elim (Option-cases (find (has_withdrawal_id id) db.withdrawals)) [
        | inl missing ↦ IfOk-err _ (transition_missing new_id id actor_id args db missing)
        | inr (w, found) ↦ elim (Bool-cases (is_closed w.status)) [
          | inl closed ↦
              IfOk-ok (λ a next. OfWithdrawals next)
                (transition_closed new_id id actor_id args db w found closed) p
          | inr open_yet ↦
              let same : w.id ≡ id = at_id id db found in
              let updated = closed_by args actor_id w in
              subst (IfOk (λ a next. OfWithdrawals next))
                (sym (transition_open new_id id actor_id args db w found same open_yet))
                ((refunds_money new_id args.reason (money_of updated) >>= λ r.
                    pures (record { withdrawal = updated; reused = r.reused })).kept
                  (after_close args actor_id w db) (closes w found open_yet same))
        ]
      ]
