-- ===== src/Payments/Transition.antt =====
-- The refund of a withdrawal that ends without a payout.
use mathlib.Core.Path.{subst}
use kingspin.Prelude.{
  ◌≡◌, ⊤, sym, true, false, String, List, map, none, some, arith, inl, inr, Bool-cases,
  Option-cases,
}
use kingspin.Prelude.Int.{pos, ◌≤ℤ◌}
use kingspin.Prelude.Lists.{All, All-find, every, find}
use kingspin.Prelude.Text.{str_eq_iff}
use kingspin.Prelude.Result.{ok, err, not_found}
use kingspin.Store.Tables.{Withdrawal, Db}
use kingspin.Store.Tx.{◌>>=◌, commit}
use kingspin.Store.Sound.{IsSound}
use kingspin.Store.Sound.Rules.{
  IfOk, SoundAfter, IfOk-ok, IfOk-err, Keeps-bind, Keeps-pure, commit_one-IsSound,
}
use kingspin.Wallets.Money.{refund_withdrawal_in_transaction}
use kingspin.Wallets.Kept.{Keeps-refund}
use kingspin.Payments.Withdrawals.{
  WithdrawalResult, has_withdrawal_id, set_withdrawal, find_withdrawal_or_throw, update_withdrawal,
  answer, is_closed, money_of, refund_and_transition, Transition, closed_by,
}

pub at_id :
    (id : String) (db : Db) {w : Withdrawal}
    → find (has_withdrawal_id id) db.withdrawals ≡ some w
    → w.id ≡ id
at_id id db {w} found =
    (str_eq_iff w.id id).0
      (All-find (λ v. ⊤) (has_withdrawal_id id) db.withdrawals (every db.withdrawals) found).1

pub transition_missing :
    (new_id id actor_id : String) (args : Transition) (db : Db)
    → find (has_withdrawal_id id) db.withdrawals ≡ none
    → refund_and_transition new_id id actor_id args db ≡ err (not_found "Withdrawal not found.")
unfolding refund_and_transition find_withdrawal_or_throw
transition_missing new_id id actor_id args db missing = ground arith

pub transition_closed :
    (new_id id actor_id : String) (args : Transition) (db : Db) (w : Withdrawal)
    → find (has_withdrawal_id id) db.withdrawals ≡ some w
    → is_closed w.status ≡ true
    → refund_and_transition new_id id actor_id args db
      ≡ ok (record { withdrawal = w; reused = true }, db)
unfolding refund_and_transition find_withdrawal_or_throw
transition_closed new_id id actor_id args db w found closed = ground arith

abbrev pub after_close : Transition → String → Withdrawal → Db → Db
after_close args actor_id w db = record db {
  withdrawals = map (set_withdrawal w.id (closed_by args actor_id)) db.withdrawals;
}

pub transition_open :
    (new_id id actor_id : String) (args : Transition) (db : Db) (w : Withdrawal)
    → find (has_withdrawal_id id) db.withdrawals ≡ some w
    → w.id ≡ id
    → is_closed w.status ≡ false
    → refund_and_transition new_id id actor_id args db
      ≡ (refund_withdrawal_in_transaction new_id (money_of (closed_by args actor_id w)) args.reason
            >>= λ refund. answer refund.reused (closed_by args actor_id w))
          (after_close args actor_id w db)
unfolding refund_and_transition find_withdrawal_or_throw update_withdrawal
transition_open new_id id actor_id args db w found same still_open = ground arith

pub same_money-IsSound :
    (db : Db) (ws : List Withdrawal) → IsSound db → IsSound (record db { withdrawals = ws })
same_money-IsSound db ws s = record {
  balanced = s.balanced;
  solvent = s.solvent;
  known = s.known;
  amounts = s.amounts;
  unique_keys = s.unique_keys;
  unique_ids = s.unique_ids;
}

pub transition_keeps :
    (new_id id actor_id : String) (args : Transition) (db : Db)
    → All (λ w. pos 0 ≤ℤ w.amount) db.withdrawals
    → IsSound db
    → IfOk SoundAfter (refund_and_transition new_id id actor_id args db)
transition_keeps new_id id actor_id args db amounts s =
    elim (Option-cases (find (has_withdrawal_id id) db.withdrawals)) [
      | inl missing ↦ IfOk-err SoundAfter (transition_missing new_id id actor_id args db missing)
      | inr (w, found) ↦
          let low =
            (All-find (λ x. pos 0 ≤ℤ x.amount) (has_withdrawal_id id) db.withdrawals amounts
              found).0 in
          let same : w.id ≡ id = at_id id db found in
          elim (Bool-cases (is_closed w.status)) [
            | inl closed ↦
                IfOk-ok SoundAfter (transition_closed new_id id actor_id args db w found closed) s
            | inr still_open ↦
                let updated = closed_by args actor_id w in
                let refund =
                  refund_withdrawal_in_transaction new_id (money_of updated) args.reason in
                subst (IfOk SoundAfter)
                  (sym (transition_open new_id id actor_id args db w found same still_open))
                  (Keeps-bind refund (λ r. answer r.reused updated)
                    (Keeps-refund new_id args.reason (money_of updated) low)
                    (λ r.
                      Keeps-pure {A = WithdrawalResult}
                        (record { withdrawal = updated; reused = r.reused }))
                    (after_close args actor_id w db)
                    (same_money-IsSound db
                      (map (set_withdrawal w.id (closed_by args actor_id)) db.withdrawals) s))
          ]
    ]

-- On a sound database whose withdrawals have amounts that are not negative, a rejection, a failure or
-- a cancellation with its refund leaves the database sound, whatever the status of the withdrawal.
transition-IsSound :
    (new_id id actor_id : String) (args : Transition) (db : Db)
    → All (λ w. pos 0 ≤ℤ w.amount) db.withdrawals
    → IsSound db
    → IsSound (commit (refund_and_transition new_id id actor_id args) db).1
transition-IsSound new_id id actor_id args db amounts s =
    commit_one-IsSound (refund_and_transition new_id id actor_id args) db
      (transition_keeps new_id id actor_id args db amounts s) s
