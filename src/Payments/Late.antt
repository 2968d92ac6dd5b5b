-- ===== src/Payments/Late.antt =====
-- A withdrawal that is cancelled while it is marked as paid.
use kingspin.Prelude.{
  ℕ, ◌≡◌, refl, ap, ◌∙◌, true, false, ◌||◌, String, List, [], ◌∷◌, ◌++◌, map, Option, some, none,
  arith, inl, inr, Bool-cases,
}
use kingspin.Prelude.Int.{◌+ℤ◌}
use kingspin.Prelude.Lists.{any, find}
use kingspin.Prelude.Text.{str_eq}
use kingspin.Prelude.Result.{ok}
use kingspin.Store.Tables.{
  WithdrawalStatus, approved, processing, paid, withdrawal_refund, WalletAccount, Withdrawal,
  LedgerTransaction, Db,
}
use kingspin.Store.Queries.{has_id, has_key, adjust}
use kingspin.Store.Runs.{credited, credit_row, bind_after}
use kingspin.Wallets.{fresh_result}
use kingspin.Wallets.Money.{refund_key, refund_draft, refund_withdrawal_in_transaction}
use kingspin.Wallets.Outcomes.{unless_done-none, credit_fresh_run}
use kingspin.Payments.Withdrawals.{
  WithdrawalResult, has_withdrawal_id, set_withdrawal, status_eq, find_withdrawal_or_throw,
  update_withdrawal, answer, is_closed, money_of, refund_and_transition, closed_by,
}
use kingspin.Store.Service.{Service}
use kingspin.Payments.Review.{paid_by, mark_paid}
use kingspin.Payments.Webhook.{by_user, cancel_withdrawal}
use kingspin.Payments.Transition.{transition_open, after_close, at_id}
use kingspin.Payments.Rules.{IsMinor}

-- The row of an id after an update of that row.
find_written :
    (id : String) (f : Withdrawal → Withdrawal) (ws : List Withdrawal) {w : Withdrawal}
    → IsMinor f
    → find (has_withdrawal_id id) ws ≡ some w
    → find (has_withdrawal_id id) (map (set_withdrawal id f) ws) ≡ some (f w)
find_written id f [] minor e = cc
find_written id f (x ∷ ws) minor e = elim (Bool-cases (str_eq x.id id)) [
  | inl mine ↦
      let new : str_eq (f x).id id ≡ true = rw (minor x).0 mine in
      rw (mine, new) (ap (λ o. map_some f o) (rw mine at e))
  | inr other ↦ rw (other, other) (find_written id f ws minor (rw other at e))
]
  where
    map_some : (Withdrawal → Withdrawal) → Option Withdrawal → Option Withdrawal
    map_some g none = none
    map_some g (some v) = some (g v)

none_has :
    (key : String) (ts : List LedgerTransaction)
    → any (has_key key) ts ≡ false
    → find (has_key key) ts ≡ none
none_has key [] h = refl
none_has key (t ∷ ts) h = ground (arith, none_has key ts)

abbrev refund_row : String → String → Withdrawal → WalletAccount → LedgerTransaction
refund_row new_id reason w v = credit_row new_id w.amount (refund_draft (money_of w) reason) v

-- The database that the cancellation leaves: the amount is back in the wallet, and the ledger says so.
abbrev cancelled_db : String → String → Withdrawal → WalletAccount → Db → Db
cancelled_db new_id user_id w v db =
    credited w.wallet_account_id w.amount (refund_row new_id by_user.reason w v)
      (after_close by_user user_id w db)

refund_run :
    (new_id reason : String) (w : Withdrawal) (v : WalletAccount) (db : Db)
    → find (has_id w.wallet_account_id) db.wallets ≡ some v
    → any (has_key (refund_key (money_of w))) db.ledger ≡ false
    → refund_withdrawal_in_transaction new_id (money_of w) reason db
      ≡ ok (
        fresh_result (record v { balance = v.balance +ℤ w.amount }, refund_row new_id reason w v),
        credited w.wallet_account_id w.amount (refund_row new_id reason w v) db,
      )
unfolding refund_withdrawal_in_transaction
refund_run new_id reason w v db there free =
    unless_done-none (refund_key (money_of w)) _ _ db
      (none_has (refund_key (money_of w)) db.ledger free)
    ∙ credit_fresh_run new_id w.wallet_account_id w.amount (refund_draft (money_of w) reason) db v
        there free

cancel_run :
    (new_id id user_id : String) (others : ℕ → Db → Db) (w : Withdrawal) (v : WalletAccount)
    (db : Db)
    → find (has_withdrawal_id id) db.withdrawals ≡ some w
    → str_eq w.user_id user_id ≡ true
    → refund_and_transition new_id id user_id by_user (others 0 db)
      ≡ ok (
        record { withdrawal = closed_by by_user user_id w; reused = false },
        cancelled_db new_id user_id w v db,
      )
    → (cancel_withdrawal new_id id user_id others db).1 ≡ cancelled_db new_id user_id w v db
unfolding cancel_withdrawal find_withdrawal_or_throw
cancel_run new_id id user_id others w v db found mine run = ground arith

ends_run :
    (new_id id user_id : String) (w : Withdrawal) (v : WalletAccount) (db : Db)
    → find (has_withdrawal_id id) db.withdrawals ≡ some w
    → is_closed w.status ≡ false
    → find (has_id w.wallet_account_id) db.wallets ≡ some v
    → any (has_key (refund_key (money_of w))) db.ledger ≡ false
    → refund_and_transition new_id id user_id by_user db
      ≡ ok (
        record { withdrawal = closed_by by_user user_id w; reused = false },
        cancelled_db new_id user_id w v db,
      )
ends_run new_id id user_id w v db found open_yet there free =
    let run =
      refund_run new_id by_user.reason (closed_by by_user user_id w) v
        (after_close by_user user_id w db) there free in
    transition_open new_id id user_id by_user db w found (at_id id db found) open_yet
    ∙ bind_after
        (refund_withdrawal_in_transaction new_id (money_of (closed_by by_user user_id w))
          by_user.reason)
        (λ r. answer r.reused (closed_by by_user user_id w)) (after_close by_user user_id w db) run

payable-open :
    (s : WithdrawalStatus)
    → (status_eq s approved || status_eq s processing) ≡ true
    → is_closed s ≡ false
payable-open s h = ground arith

mark_run :
    (id admin_id : String) (reference : Option String) (others : ℕ → Db → Db) (w x : Withdrawal)
    (db : Db)
    → find (has_withdrawal_id id) db.withdrawals ≡ some w
    → w.id ≡ id
    → (status_eq w.status approved || status_eq w.status processing) ≡ true
    → find (has_withdrawal_id id) (others 0 db).withdrawals ≡ some x
    → mark_paid id admin_id reference others db ≡ (
      ok (record { withdrawal = paid_by admin_id reference w x; reused = false }),
      record (others 0 db) {
        withdrawals =
            map (set_withdrawal id (paid_by admin_id reference w)) (others 0 db).withdrawals;
      },
    )
unfolding mark_paid find_withdrawal_or_throw update_withdrawal
mark_run id admin_id reference others w x db found same payable there = ground arith

abbrev paid_over : String → Option String → Withdrawal → Db → Db
paid_over admin_id reference w db = record db {
  withdrawals = map (set_withdrawal w.id (paid_by admin_id reference w)) db.withdrawals;
}

-- The mark as paid of a withdrawal, with a cancellation by the user between its two statements.
abbrev pub mark_while_cancelled :
    String → String → String → Option String → Withdrawal → Service WithdrawalResult
mark_while_cancelled new_id user_id admin_id reference w =
    mark_paid w.id admin_id reference
      (λ i d. (cancel_withdrawal new_id w.id user_id (λ j e. e) d).1)

-- A user may cancel an approved withdrawal, or one that is processed, between the read and the update
-- of its mark as paid. Then both go through, if the wallet is there and the refund is the first one:
-- the mark as paid answers with the withdrawal as PAID, which is its row in the end, while its amount
-- is back in the wallet and the ledger has one more row, the refund under its key.
pub paid-cancelled :
    (new_id user_id admin_id : String) (reference : Option String) (w : Withdrawal)
    (v : WalletAccount) (db : Db)
    → find (has_withdrawal_id w.id) db.withdrawals ≡ some w
    → (status_eq w.status approved || status_eq w.status processing) ≡ true
    → str_eq w.user_id user_id ≡ true
    → find (has_id w.wallet_account_id) db.wallets ≡ some v
    → any (has_key (refund_key (money_of w))) db.ledger ≡ false
    → (a : Withdrawal) × (row : LedgerTransaction) × (next : Db) × (mark_while_cancelled new_id
          user_id admin_id reference w db
        ≡ (ok (record { withdrawal = a; reused = false }), next))
      × (a.status ≡ paid)
      × (find (has_withdrawal_id w.id) next.withdrawals ≡ some a)
      × (next.wallets ≡ map (adjust (λ b. b +ℤ w.amount) w.wallet_account_id) db.wallets)
      × (next.ledger ≡ db.ledger ++ row ∷ [])
      × (row.type ≡ withdrawal_refund)
      × (row.idempotency_key ≡ refund_key (money_of w))
paid-cancelled new_id user_id admin_id reference w v db found payable mine there free =
    let both = cancelled_db new_id user_id w v db in
    let ended = closed_by by_user user_id w in
    let cancelled_run =
      cancel_run new_id w.id user_id (λ j e. e) w v db found mine
        (ends_run new_id w.id user_id w v db found (payable-open w.status payable) there free) in
    let closed : find (has_withdrawal_id w.id) both.withdrawals ≡ some ended =
      find_written w.id (closed_by by_user user_id) db.withdrawals (λ x. (refl, refl)) found in
    let others : ℕ → Db → Db = λ i d. (cancel_withdrawal new_id w.id user_id (λ j e. e) d).1 in
    (
      paid_by admin_id reference w ended,
      refund_row new_id by_user.reason w v,
      paid_over admin_id reference w both,
      mark_run w.id admin_id reference others w ended db found refl payable
            (ap (λ d. find (has_withdrawal_id w.id) d.withdrawals) cancelled_run ∙ closed)
          ∙ ap
              (λ d. (
                ok (record { withdrawal = paid_by admin_id reference w ended; reused = false }),
                paid_over admin_id reference w d,
              ))
              cancelled_run,
      refl,
      find_written w.id (paid_by admin_id reference w) both.withdrawals (λ x. (refl, refl)) closed,
      refl,
      refl,
      refl,
      refl,
    )
