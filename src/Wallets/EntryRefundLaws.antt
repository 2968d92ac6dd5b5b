-- ===== src/Wallets/EntryRefundLaws.antt =====
-- The refund of the holds of an entry.
use mathlib.Core.Path.{subst}
use kingspin.Prelude.{
  ◌≡◌, sym, ap, ◌∙◌, Bool, true, false, not, String, List, [], ◌∷◌, none, some, arith, inl, inr,
  Bool-cases, Option-cases,
}
use kingspin.Prelude.Int.{pos, ◌≤ℤ◌, int_laws}
use kingspin.Prelude.Lists.{All, All-append, find, select}
use kingspin.Prelude.Text.{str_eq_self}
use kingspin.Prelude.Result.{ok, bad_request}
use kingspin.Store.Tables.{LedgerEntry, LedgerTransaction, Db}
use kingspin.Store.Tx.{◌>>=◌, pure, throw_if, commit}
use kingspin.Store.Queries.{has_key, post_credit, find_transaction}
use kingspin.Store.Runs.{credit_row, credited, tx_steps, bind_after}
use kingspin.Store.Sound.{NonNegative, IsSound}
use kingspin.Store.Sound.Rules.{
  IfOk, SoundAfter, Keeps, Keeps-bind, Keeps-pure, Keeps-throw_if, commit-IsSound,
  post_credit-Keeps,
}
use kingspin.Wallets.Matches.{is_debit, mixed_wallet}
use kingspin.Wallets.EntryRefund.{
  EntryRefundResult, sum_entries, is_hold_of, is_compensated, debit_entries, refundable,
  refund_entry_key, refund_entry_draft, mixed_text, refund_debits, refund_entry_holds,
  already_refunded, refunded,
}
use kingspin.Wallets.{fresh_result}
use kingspin.Wallets.Effect.{credit_fresh-IsCredit}
use kingspin.Wallets.Once.{Quiet-throw_if}
use kingspin.Wallets.Replay.{find-append}

All-select :
    {A : Type 0} (P : A → Type 0) (p : A → Bool) (xs : List A) → All P xs → All P (select p xs)
All-select P p [] h = tt
All-select P p (x ∷ xs) h = elim (Bool-cases (p x)) [
  | inl t ↦ rw t (h.0, All-select P p xs h.1)
  | inr t ↦ rw t (All-select P p xs h.1)
]

abbrev Positive : LedgerEntry → Type 0
Positive e = pos 0 ≤ℤ e.amount

debits-Positive :
    (ts : List LedgerTransaction) → All NonNegative ts → All Positive (debit_entries ts)
debits-Positive [] h = tt
debits-Positive (t ∷ ts) h =
    All-append Positive (select is_debit t.entries) (debit_entries ts)
      (All-select Positive is_debit t.entries h.0) (debits-Positive ts h.1)

sum_positive : (es : List LedgerEntry) → All Positive es → pos 0 ≤ℤ sum_entries es
sum_positive [] h = omega int_laws
sum_positive (e ∷ es) h = let low = sum_positive es h.1 in let first = h.0 in omega int_laws

refundable-Positive :
    (entry_id : String) (ts : List LedgerTransaction)
    → All NonNegative ts
    → All Positive (refundable entry_id ts)
refundable-Positive entry_id ts h =
    let holds = select (is_hold_of entry_id) ts in
    debits-Positive (select (λ t. not (is_compensated ts holds t)) holds) (
      All-select NonNegative (λ t. not (is_compensated ts holds t)) holds
        (All-select NonNegative (is_hold_of entry_id) ts h))

Keeps-refund_debits :
    (new_id entry_id round_id : String) (es : List LedgerEntry)
    → All Positive es
    → Keeps (refund_debits new_id entry_id round_id es)
Keeps-refund_debits new_id entry_id round_id [] h = λ db s. s
Keeps-refund_debits new_id entry_id round_id (e ∷ es) h =
    let amount = sum_entries (e ∷ es) in
    let answer : EntryRefundResult = record {
      entry_id = entry_id;
      is_refunded = true;
      amount = amount;
      reason = refunded;
    } in
    let post =
      post_credit new_id e.wallet_account_id amount (refund_entry_draft entry_id round_id amount) in
    Keeps-bind (throw_if (mixed_wallet (e ∷ es)) (bad_request (mixed_text entry_id)))
      (λ u. post >>= λ p. pure answer)
      (Keeps-throw_if (mixed_wallet (e ∷ es)) (bad_request (mixed_text entry_id)))
      (λ u.
        Keeps-bind post (λ p. pure answer)
          (post_credit-Keeps new_id e.wallet_account_id amount
            (refund_entry_draft entry_id round_id amount) (sum_positive (e ∷ es) h))
          (λ p. Keeps-pure answer))

pub holds_fresh :
    (new_id entry_id round_id : String) (db : Db)
    → find (has_key (refund_entry_key entry_id)) db.ledger ≡ none
    → refund_entry_holds new_id entry_id round_id db
      ≡ refund_debits new_id entry_id round_id (refundable entry_id db.ledger) db
unfolding refund_entry_holds find_transaction
holds_fresh new_id entry_id round_id db missing = ground arith

pub holds_done :
    (new_id entry_id round_id : String) (db : Db) (t : LedgerTransaction)
    → find (has_key (refund_entry_key entry_id)) db.ledger ≡ some t
    → refund_entry_holds new_id entry_id round_id db
      ≡ ok (
        record {
          entry_id = entry_id;
          is_refunded = false;
          amount = sum_entries t.entries;
          reason = already_refunded;
        },
        db,
      )
unfolding refund_entry_holds find_transaction
holds_done new_id entry_id round_id db t found = ground arith

pub Keeps-refund_entry_holds :
    (new_id entry_id round_id : String) → Keeps (refund_entry_holds new_id entry_id round_id)
Keeps-refund_entry_holds new_id entry_id round_id db s =
    elim (Option-cases (find (has_key (refund_entry_key entry_id)) db.ledger)) [
      | inl missing ↦
          subst (IfOk SoundAfter) (sym (holds_fresh new_id entry_id round_id db missing)) (
            Keeps-refund_debits new_id entry_id round_id (refundable entry_id db.ledger)
              (refundable-Positive entry_id db.ledger s.amounts) db s)
      | inr (t, found) ↦
          subst (IfOk SoundAfter) (sym (holds_done new_id entry_id round_id db t found)) s
    ]

-- The refund of an entry's holds leaves a sound database sound.
pub entry_refund-IsSound :
    (new_id entry_id round_id : String) (db : Db)
    → IsSound db
    → IsSound (commit (refund_entry_holds new_id entry_id round_id) db).1
entry_refund-IsSound new_id entry_id round_id db s =
    commit-IsSound (refund_entry_holds new_id entry_id round_id) db
      (Keeps-refund_entry_holds new_id entry_id round_id) s

-- The row that a refund that paid has left.
abbrev Paid : String → EntryRefundResult → Db → Type 0
Paid entry_id r next =
    (t : LedgerTransaction) × (find (has_key (refund_entry_key entry_id)) next.ledger ≡ some t)
    × (sum_entries t.entries ≡ r.amount)
    × (r.entry_id ≡ entry_id)

posted-Paid :
    (new_id entry_id round_id : String) (e : LedgerEntry) (es : List LedgerEntry) (db : Db)
    {r : EntryRefundResult} {next : Db}
    → find (has_key (refund_entry_key entry_id)) db.ledger ≡ none
    → refund_debits new_id entry_id round_id (e ∷ es) db ≡ ok (r, next)
    → Paid entry_id r next
posted-Paid new_id entry_id round_id e es db {r} {next} missing went =
    let amount = sum_entries (e ∷ es) in
    let draft = refund_entry_draft entry_id round_id amount in
    let answer : EntryRefundResult = record {
      entry_id = entry_id;
      is_refunded = true;
      amount = amount;
      reason = refunded;
    } in
    let guard = throw_if (mixed_wallet (e ∷ es)) (bad_request (mixed_text entry_id)) in
    let post = post_credit new_id e.wallet_account_id amount draft in
    let (u, d, e1, rest) = tx_steps guard (λ u. post >>= λ p. pure answer) db went in
    let (p, after, e2, last) = tx_steps post (λ p. pure answer) d rest in
    let same : d ≡ db =
      Quiet-throw_if (mixed_wallet (e ∷ es)) (bad_request (mixed_text entry_id)) db u d e1 in
    let c =
      credit_fresh-IsCredit new_id e.wallet_account_id amount draft d
        (bind_after post (λ x. pure (fresh_result x)) d e2) in
    let row = credit_row new_id amount draft c.payee in
    let is_next : after ≡ next = cc last in
    let at_next : next ≡ credited e.wallet_account_id amount row db =
      sym is_next ∙ c.after ∙ ap (λ x. credited e.wallet_account_id amount row x) same in
    let is_answer : answer ≡ r = cc last in
    let total : sum_entries row.entries ≡ amount = omega int_laws in
    (
      row,
      ap (λ x. find (has_key (refund_entry_key entry_id)) x.ledger) at_next
          ∙ find-append (has_key (refund_entry_key entry_id)) db.ledger row missing
              (str_eq_self (refund_entry_key entry_id)),
      total ∙ ap (λ x. x.amount) is_answer,
      ap (λ x. x.entry_id) (sym is_answer),
    )

debits-Paid :
    (new_id entry_id round_id : String) (es : List LedgerEntry) (db : Db) {r : EntryRefundResult}
    {next : Db}
    → find (has_key (refund_entry_key entry_id)) db.ledger ≡ none
    → r.is_refunded ≡ true
    → refund_debits new_id entry_id round_id es db ≡ ok (r, next)
    → Paid entry_id r next
debits-Paid new_id entry_id round_id [] db {r} {next} missing paid went = cc (paid, went)
debits-Paid new_id entry_id round_id (e ∷ es) db {r} {next} missing paid went =
    posted-Paid new_id entry_id round_id e es db missing went

-- A refund of an entry's holds that paid is not paid again: the same request afterwards changes
-- nothing and answers that the entry was refunded, with the same amount.
pub entry_refund-once :
    (new_id other_id entry_id round_id other_round : String) (db : Db) {r : EntryRefundResult}
    {next : Db}
    → refund_entry_holds new_id entry_id round_id db ≡ ok (r, next)
    → r.is_refunded ≡ true
    → refund_entry_holds other_id entry_id other_round next
      ≡ ok (record r { is_refunded = false; reason = already_refunded }, next)
entry_refund-once new_id other_id entry_id round_id other_round db {r} {next} e paid =
    elim (Option-cases (find (has_key (refund_entry_key entry_id)) db.ledger)) [
      | inr (t, found) ↦ cc (holds_done new_id entry_id round_id db t found, e, paid)
      | inl missing ↦
          let went = sym (holds_fresh new_id entry_id round_id db missing) ∙ e in
          let (t, found, same, id) =
            debits-Paid new_id entry_id round_id (refundable entry_id db.ledger) db missing paid
              went in
          holds_done other_id entry_id other_round next t found ∙ cc (same, id)
    ]
