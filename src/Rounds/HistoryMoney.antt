-- ===== src/Rounds/HistoryMoney.antt =====
-- The work on wallets and on the ledger leaves the rounds as they are.
use mathlib.Core.Path.{subst}
use kingspin.Prelude.{sym, true, String, List, [], ◌∷◌, inl, inr, Bool-cases, Option-cases}
use kingspin.Prelude.Int.{ℤ}
use kingspin.Prelude.Lists.{any, find}
use kingspin.Prelude.Result.{bad_request}
use kingspin.Store.Tables.{Round, WalletAccount, LedgerEntry, Db}
use kingspin.Store.Queries.{has_key, has_id, post_credit, Draft}
use kingspin.Store.Runs.{credit_row, post_credit_run, post_credit_taken, post_credit_missing}
use kingspin.Store.Invariant.InTx.{InTx, ◌>>=◌, ◌>>◌, pures, throws_if}
use kingspin.Store.Sound.Rules.{IfOk, IfOk-ok, IfOk-err}
use kingspin.Wallets.{credit_fresh, fresh_result}
use kingspin.Wallets.MainWallet.{create_wallet_run, create_wallet_taken}
use kingspin.Wallets.Matches.{mixed_wallet}
use kingspin.Wallets.Money.{create_wallet}
use kingspin.Wallets.EntryRefund.{
  sum_entries, refundable, refund_entry_key, refund_entry_draft, mixed_text, refund_debits,
  refund_entry_holds, refunded,
}
use kingspin.Wallets.EntryRefundLaws.{holds_fresh, holds_done}
use kingspin.Rounds.History.{Follows}

module _ (start : List Round) where
  -- The rounds have come on from those of the start.
  abbrev pub OnFrom : Db → Type 0
  OnFrom db = Follows start db.rounds

  post_credit-OnFrom :
      (new_id id : String) (amount : ℤ) (draft : WalletAccount → Draft)
      → InTx OnFrom (post_credit new_id id amount draft)
  post_credit-OnFrom new_id id amount draft = record {
    kept = λ db h. elim (Option-cases (find (has_id id) db.wallets)) [
      | inl missing ↦ IfOk-err _ (post_credit_missing new_id id amount draft db missing)
      | inr (w, found) ↦
          let row = credit_row new_id amount draft w in
          elim (Bool-cases (any (has_key row.idempotency_key) db.ledger)) [
            | inl taken ↦ IfOk-err _ (post_credit_taken new_id id amount draft db w found taken)
            | inr free ↦
                IfOk-ok (λ a next. OnFrom next)
                  (post_credit_run new_id id amount draft db w found free) h
          ]
    ];
  }

  pub credit_fresh-OnFrom :
      (new_id id : String) (amount : ℤ) (draft : WalletAccount → Draft)
      → InTx OnFrom (credit_fresh new_id id amount draft)
  credit_fresh-OnFrom new_id id amount draft = do
    posted ← post_credit-OnFrom new_id id amount draft
    pures (fresh_result posted)

  pub create_wallet-OnFrom : (w : WalletAccount) → InTx OnFrom (create_wallet w)
  create_wallet-OnFrom w = record {
    kept = λ db h. elim (Bool-cases (any (has_id w.id) db.wallets)) [
      | inl taken ↦ IfOk-err _ (create_wallet_taken w db taken)
      | inr new ↦ IfOk-ok (λ a next. OnFrom next) (create_wallet_run w db new) h
    ];
  }

  refund_debits-OnFrom :
      (new_id entry_id round_id : String) (es : List LedgerEntry)
      → InTx OnFrom (refund_debits new_id entry_id round_id es)
  refund_debits-OnFrom new_id entry_id round_id [] = record { kept = λ db h. h }
  refund_debits-OnFrom new_id entry_id round_id (e ∷ es) = do
    throws_if (mixed_wallet (e ∷ es)) (bad_request (mixed_text entry_id))
    posted ←
        post_credit-OnFrom new_id e.wallet_account_id (sum_entries (e ∷ es))
          (refund_entry_draft entry_id round_id (sum_entries (e ∷ es)))
    pures (record {
      entry_id = entry_id;
      is_refunded = true;
      amount = sum_entries (e ∷ es);
      reason = refunded;
    })

  pub refund_entry_holds-OnFrom :
      (new_id entry_id round_id : String)
      → InTx OnFrom (refund_entry_holds new_id entry_id round_id)
  refund_entry_holds-OnFrom new_id entry_id round_id = record {
    kept = λ db h. elim (Option-cases (find (has_key (refund_entry_key entry_id)) db.ledger)) [
      | inl missing ↦
          subst (IfOk (λ a next. OnFrom next))
            (sym (holds_fresh new_id entry_id round_id db missing))
            ((refund_debits-OnFrom new_id entry_id round_id (refundable entry_id db.ledger)).kept db
              h)
      | inr (t, found) ↦
          subst (IfOk (λ a next. OnFrom next))
            (sym (holds_done new_id entry_id round_id db t found)) h
    ];
  }
