-- ===== src/Wallets/Sound.antt =====
-- The operations of the wallets service keep the database sound.
use mathlib.Core.Path.{subst}
use kingspin.Prelude.{
  ◌≡◌, refl, sym, true, false, String, [], ◌∷◌, map, inl, inr, Bool-cases, Option-cases, ⊤,
}
use kingspin.Prelude.Int.{ℤ, pos, ◌+ℤ◌, ◌-ℤ◌, ◌≤ℤ◌, int_laws}
use kingspin.Prelude.Lists.{All, any, find, any-find}
use kingspin.Store.Tables.{debit, WalletAccount, LedgerTransaction, Db}
use kingspin.Store.Tx.{Tx, ◌>>=◌, pure}
use kingspin.Store.Queries.{has_id, has_key, adjust, can_pay, find_wallet_or_throw, Draft}
use kingspin.Store.Runs.{credit_row}
use kingspin.Store.Sound.{IsSound}
use kingspin.Store.Sound.Debit.{pay-some}
use kingspin.Store.Sound.Post.{post-IsSound, adjust-moves, adjust-KeepsId, pay-solvent}
use kingspin.Store.Sound.Rules.{
  IfOk, Keeps, SoundAfter, IfOk-ok, IfOk-err, Keeps-bind, Keeps-pure, credited-IsSound, row_entries,
  any-can_pay,
}
use kingspin.Wallets.{
  MoneyMutationResult, unless_done, reuse, reused_result, debit_fresh, credit_fresh,
}
use kingspin.Wallets.Outcomes.{
  debit_row, debited, debit_fresh_run, debit_fresh_taken, debit_fresh_refused, unless_done-none,
  unless_done-some, credit_fresh_run, credit_fresh_taken, credit_fresh_missing,
}

debited-IsSound :
    (id : String) (amount : ℤ) (t : LedgerTransaction) (after : ℤ) (db : Db)
    → IsSound db
    → pos 0 ≤ℤ amount
    → t.entries
      ≡ record { wallet_account_id = id; direction = debit; amount = amount; balance_after = after }
        ∷ []
    → any (has_id id) db.wallets ≡ true
    → All (λ v. pos 0 ≤ℤ v.balance) (map (adjust (λ b. b -ℤ amount) id) db.wallets)
    → any (has_key t.idempotency_key) db.ledger ≡ false
    → IsSound (debited id amount t db)
debited-IsSound id amount t after db s h e there solvent free =
    post-IsSound db (adjust (λ b. b -ℤ amount) id) t s (adjust-KeepsId (λ b. b -ℤ amount) id)
      (λ v. rw e (adjust-moves id debit amount after (λ b. b -ℤ amount) (λ c. omega int_laws) v))
      solvent (rw e (h, tt)) (rw e (there, tt)) free

pub debit_fresh-Keeps :
    (new_id id user_id : String) (amount : ℤ) (draft : WalletAccount → Draft)
    → pos 0 ≤ℤ amount
    → Keeps (debit_fresh new_id id user_id amount draft)
debit_fresh-Keeps new_id id user_id amount draft h db s =
    elim (Option-cases (find (can_pay id user_id amount) db.wallets)) [
      | inl missing ↦
          IfOk-err SoundAfter (debit_fresh_refused new_id id user_id amount draft db missing)
      | inr (w, found) ↦
          let row = debit_row new_id amount draft w in
          let (same, at_id) = pay-some id user_id amount db.wallets s.unique_ids found in
          let solvent = pay-solvent id user_id amount db.wallets s.solvent in
          elim (Bool-cases (any (has_key row.idempotency_key) db.ledger)) [
            | inl taken ↦
                IfOk-err SoundAfter
                  (debit_fresh_taken new_id id user_id amount draft db w found taken)
            | inr free ↦
                IfOk-ok SoundAfter
                  (debit_fresh_run new_id id user_id amount draft db w s.unique_ids found free)
                  (debited-IsSound id amount row (w.balance -ℤ amount) db s h (rw at_id refl)
                    (any-can_pay id user_id amount db.wallets found) (rw same at solvent) free)
          ]
    ]

pub credit_fresh-Keeps :
    (new_id id : String) (amount : ℤ) (draft : WalletAccount → Draft)
    → pos 0 ≤ℤ amount
    → Keeps (credit_fresh new_id id amount draft)
credit_fresh-Keeps new_id id amount draft h db s =
    elim (Option-cases (find (has_id id) db.wallets)) [
      | inl missing ↦ IfOk-err SoundAfter (credit_fresh_missing new_id id amount draft db missing)
      | inr (w, found) ↦
          let row = credit_row new_id amount draft w in
          elim (Bool-cases (any (has_key row.idempotency_key) db.ledger)) [
            | inl taken ↦
                IfOk-err SoundAfter (credit_fresh_taken new_id id amount draft db w found taken)
            | inr free ↦
                IfOk-ok SoundAfter (credit_fresh_run new_id id amount draft db w found free) (
                  credited-IsSound id amount row (w.balance +ℤ amount) db s h
                    (row_entries new_id id amount draft w db found)
                    (any-find (has_id id) db.wallets found) free)
          ]
    ]

pub Keeps-unless_done :
    (key : String) (again : LedgerTransaction → Tx MoneyMutationResult)
    (fresh : Tx MoneyMutationResult)
    → ((t : LedgerTransaction) → Keeps (again t))
    → Keeps fresh
    → Keeps (unless_done key again fresh)
Keeps-unless_done key again fresh h k db s = elim (Option-cases (find (has_key key) db.ledger)) [
  | inl missing ↦
      subst (IfOk SoundAfter) (sym (unless_done-none key again fresh db missing)) (k db s)
  | inr (t, found) ↦
      subst (IfOk SoundAfter) (sym (unless_done-some key again fresh db t found)) (h t db s)
]

pub Keeps-find_wallet_or_throw : (id : String) → Keeps (find_wallet_or_throw id)
unfolding find_wallet_or_throw
Keeps-find_wallet_or_throw id db s = elim (Option-cases (find (has_id id) db.wallets)) [
  | inl missing ↦ rw missing tt
  | inr (w, found) ↦ rw found s
]

pub Keeps-reuse : (m : Tx ⊤) (id : String) (t : LedgerTransaction) → Keeps m → Keeps (reuse m id t)
Keeps-reuse m id t h =
    Keeps-bind m (λ u. find_wallet_or_throw id >>= λ w. pure (reused_result t w)) h
      (λ u.
        Keeps-bind (find_wallet_or_throw id) (λ w. pure (reused_result t w))
          (Keeps-find_wallet_or_throw id) (λ w. Keeps-pure (reused_result t w)))
