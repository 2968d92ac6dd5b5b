-- ===== src/Payments/Kept.antt =====
-- What every request on withdrawals keeps of the money.
use mathlib.Core.Path.{subst}
use kingspin.Prelude.{
  ◌≡◌, refl, sym, Bool, true, false, String, List, [], ◌∷◌, ◌++◌, map, arith, inl, inr, Bool-cases,
  ◌||◌,
}
use kingspin.Prelude.Int.{pos, ◌≤ℤ◌}
use kingspin.Prelude.Lists.{All, All-append, All-map, any, find}
use kingspin.Prelude.Text.{str_eq}
use kingspin.Prelude.Result.{err, unique_constraint, record_not_found}
use kingspin.Store.Tables.{WalletAccount, Withdrawal, Db}
use kingspin.Store.Tx as Tx
use kingspin.Store.Tx.{Tx}
use kingspin.Store.Sound.{IsSound}
use kingspin.Store.Sound.Rules.{IfOk, IfOk-err}
use kingspin.Store.Invariant.InTx.{InTx, ◌>>=◌, ◌>>◌, pures, reads, needs, modifies}
use kingspin.Wallets.Money.{create_wallet, reserve_withdrawal_in_transaction}
use kingspin.Wallets.Kept.{Keeps-reserve}
use kingspin.Wallets.NewWallet.{Keeps-create}
use kingspin.Rounds.Kept.{pair}
use kingspin.Payments.Withdrawals.{
  has_withdrawal_id, set_withdrawal, update_withdrawal, money_of, refund_and_transition, Transition,
  closed_by, answer,
}
use kingspin.Payments.Opening.{create_withdrawal, open_withdrawal}
use kingspin.Payments.Transition.{same_money-IsSound, transition_keeps}
use kingspin.Payments.Frame.{reserves, creates_wallet, transition-OfWithdrawals}
use kingspin.Payments.Rules.{IsMinor}

-- The database once a withdrawal was created.
abbrev pub opened : Withdrawal → Db → Db
opened row db = record db { withdrawals = db.withdrawals ++ row ∷ [] }

abbrev is_taken : Withdrawal → Db → Bool
is_taken row db =
    any (λ x. has_withdrawal_id row.id x || str_eq x.idempotency_key row.idempotency_key)
      db.withdrawals

open_taken :
    (new_id : String) (row : Withdrawal) (db : Db)
    → is_taken row db ≡ true
    → open_withdrawal new_id row db ≡ err unique_constraint
unfolding open_withdrawal create_withdrawal
open_taken new_id row db h = ground arith

open_run :
    (new_id : String) (row : Withdrawal) (db : Db)
    → is_taken row db ≡ false
    → open_withdrawal new_id row db
      ≡ Tx.◌>>=◌
          (reserve_withdrawal_in_transaction new_id (money_of row))
          (λ r. answer false row)
          (opened row db)
unfolding open_withdrawal create_withdrawal
open_run new_id row db h = ground arith

pub opens_lem :
    (P : Db → Type 0) (new_id : String) (row : Withdrawal)
    → ((db : Db) → P db → P (opened row db))
    → InTx P (reserve_withdrawal_in_transaction new_id (money_of row))
    → InTx P (open_withdrawal new_id row)
opens_lem P new_id row keeps reserve = record {
  kept = λ db p. elim (Bool-cases (is_taken row db)) [
    | inl taken ↦ IfOk-err _ (open_taken new_id row db taken)
    | inr free ↦ subst (IfOk (λ a next. P next)) (sym (open_run new_id row db free)) (
        (reserve >>= λ r. pures (record { withdrawal = row; reused = false })).kept (opened row db)
          (keeps db p))
  ];
}

-- The money is sound, and no withdrawal has a negative amount.
abbrev pub HasAmounts : List Withdrawal → Type 0
HasAmounts ws = All (λ w. pos 0 ≤ℤ w.amount) ws

abbrev pub Kept : Db → Type 0
Kept db = IsSound db × HasAmounts db.withdrawals

set-HasAmounts :
    (id : String) (f : Withdrawal → Withdrawal) (ws : List Withdrawal)
    → IsMinor f
    → HasAmounts ws
    → HasAmounts (map (set_withdrawal id f) ws)
set-HasAmounts id f ws minor =
    All-map (λ w. pos 0 ≤ℤ w.amount) (λ w. pos 0 ≤ℤ w.amount) (set_withdrawal id f) keeps ws
  where
    keeps : (x : Withdrawal) → pos 0 ≤ℤ x.amount → pos 0 ≤ℤ (set_withdrawal id f x).amount
    keeps x low = elim (Bool-cases (has_withdrawal_id id x)) [
      | inl mine ↦ rw (mine, (minor x).1) low
      | inr other ↦ rw other low
    ]

pub updates :
    (w : Withdrawal) (f : Withdrawal → Withdrawal) → IsMinor f → InTx Kept (update_withdrawal w f)
unfolding update_withdrawal
updates w f minor = do
  found ← reads λ db. find (has_withdrawal_id w.id) db.withdrawals
  old ← needs found record_not_found
  modifies (λ db. record db { withdrawals = map (set_withdrawal w.id f) db.withdrawals })
      (λ db p. (
        same_money-IsSound db (map (set_withdrawal w.id f) db.withdrawals) p.0,
        set-HasAmounts w.id f db.withdrawals minor p.1,
      ))
  pures (f old)

pub refunds :
    (new_id id actor_id : String) (args : Transition)
    → InTx Kept (refund_and_transition new_id id actor_id args)
refunds new_id id actor_id args = record {
  kept = λ db p.
      pair IsSound (λ d. HasAmounts d.withdrawals)
        (refund_and_transition new_id id actor_id args db)
        (transition_keeps new_id id actor_id args db p.1 p.0)
        (transition-OfWithdrawals HasAmounts new_id id actor_id args db
          (λ w found open_yet same.
            set-HasAmounts w.id (closed_by args actor_id) db.withdrawals (λ x. (refl, refl)) p.1)
          p.1);
}

pub creates : (w : WalletAccount) → w.balance ≡ pos 0 → InTx Kept (create_wallet w)
creates w empty = record {
  kept = λ db p.
      pair IsSound (λ d. HasAmounts d.withdrawals) (create_wallet w db)
        (Keeps-create w empty db p.0) ((creates_wallet HasAmounts w).kept db p.1);
}

pub opens :
    (new_id : String) (row : Withdrawal)
    → pos 0 ≤ℤ row.amount
    → InTx Kept (open_withdrawal new_id row)
opens new_id row low =
    opens_lem Kept new_id row
      (λ db p. (
        same_money-IsSound db (db.withdrawals ++ row ∷ []) p.0,
        All-append (λ w. pos 0 ≤ℤ w.amount) db.withdrawals (row ∷ []) p.1 (low, tt),
      ))
      (record {
        kept = λ db p.
            pair IsSound (λ d. HasAmounts d.withdrawals)
              (reserve_withdrawal_in_transaction new_id (money_of row) db)
              (Keeps-reserve new_id (money_of row) low db p.0)
              ((reserves HasAmounts new_id (money_of row)).kept db p.1);
      })
