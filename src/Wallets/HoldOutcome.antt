-- ===== src/Wallets/HoldOutcome.antt =====
-- The effect of an entry hold on the wallets and on the ledger.
use kingspin.Prelude.{◌≡◌, sym, ap, ◌∙◌, true, false, String, inl, inr, ◌⊎◌, Option-cases}
use kingspin.Prelude.Lists.{find}
use kingspin.Prelude.Result.{ok}
use kingspin.Store.Tables.{LedgerTransaction, Db}
use kingspin.Store.Queries.{has_key}
use kingspin.Store.Sound.{IsSound}
use kingspin.Wallets.{MoneyMutationResult, reuse, debit_fresh}
use kingspin.Wallets.Effect.{IsDebit, debit_fresh-IsDebit}
use kingspin.Wallets.Matches.{EntryHoldArgs, assert_entry_hold_transaction_matches}
use kingspin.Wallets.Money.{hold_entry_amount_in_transaction, hold_draft}
use kingspin.Wallets.Once.{Quiet-hold}
use kingspin.Wallets.Outcomes.{unless_done-none, unless_done-some}
use kingspin.Wallets.Replay.{reuse-Quiet}

-- On a sound database, an entry hold that goes through either finds the row of its key, and then
-- changes nothing, or it is a debit: the user's main wallet held the amount, its balance and no other
-- is lowered by the amount, and one row with a new key is added to the ledger.
pub hold-outcome :
    (new_id : String) (args : EntryHoldArgs) (db : Db) {r : MoneyMutationResult} {next : Db}
    → IsSound db
    → hold_entry_amount_in_transaction new_id args db ≡ ok (r, next)
    → (r.reused ≡ true) × (next ≡ db)
      ⊎ (r.reused ≡ false)
        × IsDebit new_id args.wallet_account_id args.user_id args.amount (hold_draft args) db r next
unfolding hold_entry_amount_in_transaction
hold-outcome new_id args db {r} {next} s e =
    let again = λ (t : LedgerTransaction).
      reuse (assert_entry_hold_transaction_matches t args) args.wallet_account_id t in
    let fresh =
      debit_fresh new_id args.wallet_account_id args.user_id args.amount (hold_draft args) in
    elim (Option-cases (find (has_key args.idempotency_key) db.ledger)) [
      | inl missing ↦
          let d =
            debit_fresh-IsDebit new_id args.wallet_account_id args.user_id args.amount
              (hold_draft args) db s.unique_ids
              (sym (unless_done-none args.idempotency_key again fresh db missing) ∙ e) in
          inr (ap (λ x. x.reused) d.answer, d)
      | inr (t, found) ↦
          let (still, is_t) =
            reuse-Quiet (assert_entry_hold_transaction_matches t args) args.wallet_account_id t db
              (Quiet-hold t args)
              (sym (unless_done-some args.idempotency_key again fresh db t found) ∙ e) in
          inl (ap (λ x. x.reused) is_t, still)
    ]
