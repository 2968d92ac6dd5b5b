-- ===== src/Wallets/Replay.antt =====
-- A second request with the idempotency key of a first one: what it finds, and what it answers.
use mathlib.Core.Path.{subst}
use kingspin.Prelude.{
  ◌≡◌, refl, sym, ap, ◌∙◌, Bool, true, false, String, List, [], ◌∷◌, ◌++◌, map, none, some, arith,
  inl, inr, Bool-cases, Option-cases, ⊤,
}
use kingspin.Prelude.Int.{ℤ, ◌+ℤ◌, ◌-ℤ◌}
use kingspin.Prelude.Lists.{any, find}
use kingspin.Prelude.Result.{Result, ok, Result-cases, ok_eq}
use kingspin.Store.Tables.{credit, debit, WalletAccount, LedgerTransaction, Db}
use kingspin.Store.Tx.{Tx}
use kingspin.Store.Queries.{has_id, has_key, adjust, can_pay, Draft, to_transaction, entry_of}
use kingspin.Prelude.Text.{str_eq_iff, str_eq_self}
use kingspin.Store.Sound.{UniqueIds}
use kingspin.Store.Sound.Debit.{can_pay-id, pay-some}
use kingspin.Store.Sound.Rules.{Quiet, any-can_pay, found_id}
use kingspin.Store.Runs.{credit_row, credited}
use kingspin.Wallets.{
  MoneyMutationResult, unless_done, reuse, reused_result, fresh_result, debit_fresh, credit_fresh,
}
use kingspin.Wallets.Outcomes.{
  unless_done-none, unless_done-some, reuse_run, reuse_missing, reuse_failed, debit_row, debited,
  debit_fresh_run, debit_fresh_refused, credit_fresh_run, credit_fresh_missing,
}

pub replay :
    (key : String) (again : LedgerTransaction → Tx MoneyMutationResult)
    (fresh fresh_again : Tx MoneyMutationResult) (db : Db) {r : MoneyMutationResult} {next : Db}
    → ((t : LedgerTransaction)
        → again t db ≡ ok (r, next)
        → (next ≡ db) × (r ≡ reused_result t r.wallet))
    → (find (has_key key) db.ledger ≡ none
        → fresh db ≡ ok (r, next)
        → (find (has_key key) next.ledger ≡ some r.transaction)
          × (again r.transaction next ≡ ok (reused_result r.transaction r.wallet, next)))
    → unless_done key again fresh db ≡ ok (r, next)
    → unless_done key again fresh_again next ≡ ok (reused_result r.transaction r.wallet, next)
replay key again fresh fresh_again db {r} {next} h k e =
    elim (Option-cases (find (has_key key) db.ledger)) [
      | inl missing ↦
          let (found, same) = k missing (sym (unless_done-none key again fresh db missing) ∙ e) in
          unless_done-some key again fresh_again next r.transaction found ∙ same
      | inr (t, found) ↦
          let first : again t db ≡ ok (r, next) =
            sym (unless_done-some key again fresh db t found) ∙ e in
          let (still, is_t) = h t first in
          let row_is_t : r.transaction ≡ t = ap (λ x. x.transaction) is_t in
          let answer : r ≡ reused_result r.transaction r.wallet =
            is_t ∙ ap (λ x. reused_result x r.wallet) (sym row_is_t) in
          unless_done-some key again fresh_again next t (rw still found)
          ∙ subst (λ d. again t d ≡ ok (r, next)) (sym still) first
          ∙ ap (λ x. ok (x, next)) answer
    ]

-- The early return changes nothing and answers with the row that it found.
pub reuse-Quiet :
    (m : Tx ⊤) (id : String) (t : LedgerTransaction) (db : Db) {r : MoneyMutationResult} {next : Db}
    → Quiet m
    → reuse m id t db ≡ ok (r, next)
    → (next ≡ db) × (r ≡ reused_result t r.wallet)
reuse-Quiet m id t db {r} {next} q e = elim (Result-cases (m db)) [
  | inr (x, failed) ↦ cc (reuse_failed m id t db x failed, e)
  | inl ((u, d), passed) ↦
      let ready : m db ≡ ok (tt, db) = passed ∙ ap (λ x. ok (tt, x)) (q db u d passed) in
      elim (Option-cases (find (has_id id) db.wallets)) [
        | inl missing ↦ cc (reuse_missing m id t db ready missing, e)
        | inr (w, found) ↦ of_run w (sym e ∙ reuse_run m id t db w ready found)
      ]
]
  where
    of_run :
        (w : WalletAccount)
        → ◌≡◌ {A = Result (MoneyMutationResult × Db)} (ok (r, next)) (ok (reused_result t w, db))
        → (next ≡ db) × (r ≡ reused_result t r.wallet)
    of_run w h =
        let same : ◌≡◌ {A = MoneyMutationResult × Db} (r, next) (reused_result t w, db) = ok_eq h in
        let at_r : r ≡ reused_result t w = ap (λ x. x.0) same in
        (ap (λ x. x.1) same, at_r ∙ ap (λ x. reused_result t x) (sym (ap (λ x. x.wallet) at_r)))

pub find-append :
    (p : LedgerTransaction → Bool) (ts : List LedgerTransaction) (t : LedgerTransaction)
    → find p ts ≡ none
    → p t ≡ true
    → find p (ts ++ t ∷ []) ≡ some t
find-append p [] t h k = rw k refl
find-append p (s ∷ ts) t h k = ground (arith, find-append p ts t)

pub find-none :
    (p : LedgerTransaction → Bool) (ts : List LedgerTransaction)
    → find p ts ≡ none
    → any p ts ≡ false
find-none p [] h = refl
find-none p (s ∷ ts) h = ground (arith, find-none p ts)

pub find-adjust :
    (f : ℤ → ℤ) (id : String) (ws : List WalletAccount) {w : WalletAccount}
    → find (has_id id) ws ≡ some w
    → find (has_id id) (map (adjust f id) ws) ≡ some (record w { balance = f w.balance })
find-adjust f id [] h = cc
find-adjust f id (v ∷ ws) {w} h = elim (Bool-cases (has_id id v)) [
  | inl t ↦ let same : v ≡ w = cc (rw t at h) in rw (t, t, same) refl
  | inr t ↦ rw (t, t) (find-adjust f id ws (rw t at h))
]

-- The wallet that pays is the one of its id.
pub find-can_pay :
    (id user_id : String) (amount : ℤ) (ws : List WalletAccount) {w : WalletAccount}
    → UniqueIds ws
    → find (can_pay id user_id amount) ws ≡ some w
    → find (has_id id) ws ≡ some w
find-can_pay id user_id amount [] u h = cc
find-can_pay id user_id amount (v ∷ ws) {w} u h = elim (Bool-cases (can_pay id user_id amount v)) [
  | inl t ↦ rw (can_pay-id id user_id amount v t) (rw t at h)
  | inr t ↦
      let later : find (can_pay id user_id amount) ws ≡ some w = rw t at h in
      elim (Bool-cases (has_id id v)) [
        | inl mine ↦
            let same : v.id ≡ id = (str_eq_iff v.id id).0 mine in
            let there = any-can_pay id user_id amount ws later in
            let none_else : any (has_id id) ws ≡ false = rw (← same) u.0 in cc (there, none_else)
        | inr other ↦ rw other (find-can_pay id user_id amount ws u.1 later)
      ]
]

-- After a debit, the row is found, and so is the wallet.
pub debit_again :
    (new_id id user_id : String) (amount : ℤ) (draft : WalletAccount → Draft)
    (assertion : LedgerTransaction → Tx ⊤) (key : String) (db : Db) {r : MoneyMutationResult}
    {next : Db}
    → UniqueIds db.wallets
    → ((w : WalletAccount) → (draft w).idempotency_key ≡ key)
    → ((w : WalletAccount) (d : Db)
        → w.id ≡ id
        → assertion (to_transaction new_id (draft w) (entry_of debit amount w ∷ [])) d ≡ ok (tt, d))
    → find (has_key key) db.ledger ≡ none
    → debit_fresh new_id id user_id amount draft db ≡ ok (r, next)
    → (find (has_key key) next.ledger ≡ some r.transaction)
      × (reuse (assertion r.transaction) id r.transaction next
          ≡ ok (reused_result r.transaction r.wallet, next))
debit_again new_id id user_id amount draft assertion key db {r} {next} u keyed passes missing e =
    elim (Option-cases (find (can_pay id user_id amount) db.wallets)) [
      | inl none_pays ↦ cc (debit_fresh_refused new_id id user_id amount draft db none_pays, e)
      | inr (w, found) ↦ of_run w found
    ]
  where
    of_run :
        (w : WalletAccount)
        → find (can_pay id user_id amount) db.wallets ≡ some w
        → (find (has_key key) next.ledger ≡ some r.transaction)
          × (reuse (assertion r.transaction) id r.transaction next
              ≡ ok (reused_result r.transaction r.wallet, next))
    of_run w found =
        let v = record w { balance = w.balance -ℤ amount } in
        let row = debit_row new_id amount draft w in
        let after = debited id amount row db in
        let free : any (has_key row.idempotency_key) db.ledger ≡ false =
          rw (keyed v) (find-none (has_key key) db.ledger missing) in
        let run = debit_fresh_run new_id id user_id amount draft db w u found free in
        let at_id = (pay-some id user_id amount db.wallets u found).1 in
        let same : ◌≡◌ {A = MoneyMutationResult × Db} (fresh_result (v, row), after) (r, next) =
          ok_eq (sym run ∙ e) in
        let still =
          find-adjust (λ b. b -ℤ amount) id db.wallets
            (find-can_pay id user_id amount db.wallets u found) in
        subst
          (λ (p : MoneyMutationResult × Db).
            (find (has_key key) p.1.ledger ≡ some p.0.transaction)
            × (reuse (assertion p.0.transaction) id p.0.transaction p.1
                ≡ ok (reused_result p.0.transaction p.0.wallet, p.1)))
          same
          (
            find-append (has_key key) db.ledger row missing (rw (keyed v) (str_eq_self key)),
            reuse_run (assertion row) id row after v (passes v after at_id) still,
          )

-- After a credit likewise.
pub credit_again :
    (new_id id : String) (amount : ℤ) (draft : WalletAccount → Draft)
    (assertion : LedgerTransaction → Tx ⊤) (key : String) (db : Db) {r : MoneyMutationResult}
    {next : Db}
    → ((w : WalletAccount) → (draft w).idempotency_key ≡ key)
    → ((w : WalletAccount) (d : Db)
        → w.id ≡ id
        → assertion (to_transaction new_id (draft w) (entry_of credit amount w ∷ [])) d
          ≡ ok (tt, d))
    → find (has_key key) db.ledger ≡ none
    → credit_fresh new_id id amount draft db ≡ ok (r, next)
    → (find (has_key key) next.ledger ≡ some r.transaction)
      × (reuse (assertion r.transaction) id r.transaction next
          ≡ ok (reused_result r.transaction r.wallet, next))
credit_again new_id id amount draft assertion key db {r} {next} keyed passes missing e =
    elim (Option-cases (find (has_id id) db.wallets)) [
      | inl no_wallet ↦ cc (credit_fresh_missing new_id id amount draft db no_wallet, e)
      | inr (w, found) ↦ of_run w found
    ]
  where
    of_run :
        (w : WalletAccount)
        → find (has_id id) db.wallets ≡ some w
        → (find (has_key key) next.ledger ≡ some r.transaction)
          × (reuse (assertion r.transaction) id r.transaction next
              ≡ ok (reused_result r.transaction r.wallet, next))
    of_run w found =
        let v = record w { balance = w.balance +ℤ amount } in
        let row = credit_row new_id amount draft w in
        let after = credited id amount row db in
        let free : any (has_key row.idempotency_key) db.ledger ≡ false =
          rw (keyed v) (find-none (has_key key) db.ledger missing) in
        let run = credit_fresh_run new_id id amount draft db w found free in
        let same : ◌≡◌ {A = MoneyMutationResult × Db} (fresh_result (v, row), after) (r, next) =
          ok_eq (sym run ∙ e) in
        let still = find-adjust (λ b. b +ℤ amount) id db.wallets found in
        subst
          (λ (p : MoneyMutationResult × Db).
            (find (has_key key) p.1.ledger ≡ some p.0.transaction)
            × (reuse (assertion p.0.transaction) id p.0.transaction p.1
                ≡ ok (reused_result p.0.transaction p.0.wallet, p.1)))
          same
          (
            find-append (has_key key) db.ledger row missing (rw (keyed v) (str_eq_self key)),
            reuse_run (assertion row) id row after v
                (passes v after (found_id id db.wallets w found)) still,
          )

pub any-none :
    (p : LedgerTransaction → Bool) (ts : List LedgerTransaction)
    → any p ts ≡ false
    → find p ts ≡ none
any-none p [] h = refl
any-none p (s ∷ ts) h = ground (arith, any-none p ts)
