-- ===== src/Wallets/Answered.antt =====
-- What a credit with a lookup of its key answers, whatever other requests commit before it.
use mathlib.Core.Path.{subst}
use kingspin.Prelude.{
  ◌≡◌, sym, ap, ◌∙◌, false, String, [], ◌∷◌, some, inl, inr, Bool-cases, Option-cases, ⊤,
}
use kingspin.Prelude.Int.{ℤ, ◌+ℤ◌}
use kingspin.Prelude.Lists.{any, find}
use kingspin.Prelude.Result.{ok, Result-cases}
use kingspin.Store.Tables.{credit, WalletAccount, LedgerTransaction, Db}
use kingspin.Store.Tx.{Tx, commit}
use kingspin.Store.Service.{is_unique_constraint_error}
use kingspin.Store.Queries.{has_key, Draft, to_transaction, entry_of}
use kingspin.Store.Runs.{credit_row}
use kingspin.Store.Sound.Rules.{Quiet}
use kingspin.Wallets.{MoneyMutationResult, reused_result, reuse, credit_fresh}
use kingspin.Wallets.CreditOnce.{
  commit_ok, once_found, once_ok, once_failed, once_violated, violation_found, violation_missing,
}
use kingspin.Wallets.Effect.{credit_fresh-IsCredit}
use kingspin.Wallets.Replay.{reuse-Quiet, credit_again, any-none}
use kingspin.Wallets.Wins.{credit_once}

-- The row of the key is the one that was answered, and a request that finds it is answered by it.
abbrev pub Answered :
    String → (LedgerTransaction → Tx ⊤) → String → MoneyMutationResult → Db → Type 0
Answered key assertion wallet_id r next =
    (find (has_key key) next.ledger ≡ some r.transaction)
    × (reuse (assertion r.transaction) wallet_id r.transaction next
        ≡ ok (reused_result r.transaction r.wallet, next))

found-Answered :
    (key : String) (assertion : LedgerTransaction → Tx ⊤) (wallet_id : String) (db : Db)
    (t : LedgerTransaction) {r : MoneyMutationResult} {next : Db}
    → ((t : LedgerTransaction) → Quiet (assertion t))
    → find (has_key key) db.ledger ≡ some t
    → commit (reuse (assertion t) wallet_id t) db ≡ (ok r, next)
    → Answered key assertion wallet_id r next
found-Answered key assertion wallet_id db t {r} {next} q found e =
    let first = commit_ok (reuse (assertion t) wallet_id t) db e in
    let (still, is_t) = reuse-Quiet (assertion t) wallet_id t db (q t) first in
    let row_is_t : r.transaction ≡ t = ap (λ x. x.transaction) is_t in
    let answer : r ≡ reused_result t r.wallet = is_t in
    subst (λ x. Answered key assertion wallet_id x next) (sym answer)
      (
        rw still found,
        subst (λ d. reuse (assertion t) wallet_id t d ≡ ok (r, next)) (sym still) first
            ∙ ap (λ x. ok (x, next)) answer,
      )

pub credit_once-Answered :
    (key : String) (assertion : LedgerTransaction → Tx ⊤) (new_id wallet_id : String) (amount : ℤ)
    (draft : WalletAccount → Draft) (others : Db → Db) (db : Db) {r : MoneyMutationResult}
    {next : Db}
    → ((t : LedgerTransaction) → Quiet (assertion t))
    → ((w : WalletAccount) → (draft w).idempotency_key ≡ key)
    → ((w : WalletAccount) (d : Db)
        → w.id ≡ wallet_id
        → assertion (to_transaction new_id (draft w) (entry_of credit amount w ∷ [])) d
          ≡ ok (tt, d))
    → credit_once key assertion new_id wallet_id amount draft others db ≡ (ok r, next)
    → Answered key assertion wallet_id r next
credit_once-Answered key assertion new_id wallet_id amount draft others db {r} {next} q keyed own
      e =
    elim (Option-cases (find (has_key key) db.ledger)) [
      | inr (t, found) ↦
          found-Answered key assertion wallet_id db t q found
            (sym (once_found key assertion new_id wallet_id amount draft others db t found) ∙ e)
      | inl missing ↦ elim (Result-cases (credit_fresh new_id wallet_id amount draft (others db))) [
        | inl ((x, d), went) ↦
            let same =
              sym (once_ok key assertion new_id wallet_id amount draft others db x d missing went)
              ∙ e in
            let run : credit_fresh new_id wallet_id amount draft (others db) ≡ ok (r, next) =
              cc (same, went) in
            let c = credit_fresh-IsCredit new_id wallet_id amount draft (others db) run in
            let free : any (has_key key) (others db).ledger ≡ false =
              subst (λ k. any (has_key k) (others db).ledger ≡ false)
                {x = (credit_row new_id amount draft c.payee).idempotency_key}
                (keyed (record c.payee { balance = c.payee.balance +ℤ amount })) c.new_key in
            credit_again new_id wallet_id amount draft assertion key (others db) keyed own
              (any-none (has_key key) (others db).ledger free) run
        | inr (x, failed) ↦ elim (Bool-cases (is_unique_constraint_error x)) [
          | inr other ↦ cc (
            once_failed key assertion new_id wallet_id amount draft others db x missing failed
                other,
            e,
          )
          | inl violated ↦
              let then =
                sym (
                  once_violated key assertion new_id wallet_id amount draft others db x missing
                    failed violated)
                ∙ e in
              elim (Option-cases (find (has_key key) (others db).ledger)) [
                | inl nothing ↦
                    cc (violation_missing key assertion wallet_id (others db) nothing, then)
                | inr (t, found) ↦
                    found-Answered key assertion wallet_id (others db) t q found
                      (sym (violation_found key assertion wallet_id (others db) t found) ∙ then)
              ]
        ]
      ]
    ]
