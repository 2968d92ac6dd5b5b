-- ===== src/Wallets/Effect.antt =====
-- What a debit or a credit that went through has done.
use kingspin.Prelude.{◌≡◌, false, String, some, inl, inr, Bool-cases, Option-cases}
use kingspin.Prelude.Int.{ℤ, ◌+ℤ◌, ◌-ℤ◌}
use kingspin.Prelude.Lists.{any, find}
use kingspin.Prelude.Result.{ok}
use kingspin.Store.Tables.{WalletAccount, Db}
use kingspin.Store.Queries.{has_id, has_key, can_pay, Draft}
use kingspin.Store.Runs.{credit_row, credited}
use kingspin.Store.Sound.{UniqueIds}
use kingspin.Wallets.{MoneyMutationResult, fresh_result, debit_fresh, credit_fresh}
use kingspin.Wallets.Outcomes.{
  debit_row, debited, debit_fresh_run, debit_fresh_taken, debit_fresh_refused, credit_fresh_run,
  credit_fresh_taken, credit_fresh_missing,
}

-- The debit of a wallet that could pay, with a new key.
pub record IsDebit (new_id id user_id : String) (amount : ℤ) (draft : WalletAccount → Draft)
    (db : Db) (r : MoneyMutationResult) (next : Db) : Type 0 where
  pub payer : WalletAccount
  pub could_pay : find (can_pay id user_id amount) db.wallets ≡ some payer
  pub new_key :
      any (has_key (debit_row new_id amount draft payer).idempotency_key) db.ledger ≡ false
  pub answer :
      r
      ≡ fresh_result
          (record payer { balance = payer.balance -ℤ amount }, debit_row new_id amount draft payer)
  pub after : next ≡ debited id amount (debit_row new_id amount draft payer) db

pub record IsCredit (new_id id : String) (amount : ℤ) (draft : WalletAccount → Draft) (db : Db)
    (r : MoneyMutationResult) (next : Db) : Type 0 where
  pub payee : WalletAccount
  pub is_there : find (has_id id) db.wallets ≡ some payee
  pub new_key :
      any (has_key (credit_row new_id amount draft payee).idempotency_key) db.ledger ≡ false
  pub answer :
      r
      ≡ fresh_result
          (record payee { balance = payee.balance +ℤ amount }, credit_row new_id amount draft payee)
  pub after : next ≡ credited id amount (credit_row new_id amount draft payee) db

pub debit_fresh-IsDebit :
    (new_id id user_id : String) (amount : ℤ) (draft : WalletAccount → Draft) (db : Db)
    {r : MoneyMutationResult} {next : Db}
    → UniqueIds db.wallets
    → debit_fresh new_id id user_id amount draft db ≡ ok (r, next)
    → IsDebit new_id id user_id amount draft db r next
debit_fresh-IsDebit new_id id user_id amount draft db {r} {next} u e =
    elim (Option-cases (find (can_pay id user_id amount) db.wallets)) [
      | inl missing ↦ cc (debit_fresh_refused new_id id user_id amount draft db missing, e)
      | inr (w, found) ↦
          elim (Bool-cases
            (any (has_key (debit_row new_id amount draft w).idempotency_key) db.ledger)) [
              | inl taken ↦
                  cc (debit_fresh_taken new_id id user_id amount draft db w found taken, e)
              | inr free ↦
                  let run = debit_fresh_run new_id id user_id amount draft db w u found free in
                  record {
                    payer = w;
                    could_pay = found;
                    new_key = free;
                    answer = cc (run, e);
                    after = cc (run, e);
                  }
            ]
    ]

pub credit_fresh-IsCredit :
    (new_id id : String) (amount : ℤ) (draft : WalletAccount → Draft) (db : Db)
    {r : MoneyMutationResult} {next : Db}
    → credit_fresh new_id id amount draft db ≡ ok (r, next)
    → IsCredit new_id id amount draft db r next
credit_fresh-IsCredit new_id id amount draft db {r} {next} e =
    elim (Option-cases (find (has_id id) db.wallets)) [
      | inl missing ↦ cc (credit_fresh_missing new_id id amount draft db missing, e)
      | inr (w, found) ↦
          elim (Bool-cases
            (any (has_key (credit_row new_id amount draft w).idempotency_key) db.ledger)) [
              | inl taken ↦ cc (credit_fresh_taken new_id id amount draft db w found taken, e)
              | inr free ↦
                  let run = credit_fresh_run new_id id amount draft db w found free in
                  record {
                    payee = w;
                    is_there = found;
                    new_key = free;
                    answer = cc (run, e);
                    after = cc (run, e);
                  }
            ]
    ]
