-- ===== src/Payments/Final.antt =====
-- A withdrawal that ended stays as it is.
use mathlib.Core.Path.{subst}
use kingspin.Prelude.{
  ℕ, ◌≡◌, refl, sym, ap, ◌∙◌, Bool, true, false, String, List, [], ◌∷◌, map, Option, some, arith,
  inl, inr, Bool-cases,
}
use kingspin.Prelude.Lists.{All, find, find-more}
use kingspin.Prelude.Text.{str_eq, str_eq_iff}
use kingspin.Prelude.Result.{Result, record_not_found}
use kingspin.Store.Tables.{Withdrawal, Db}
use kingspin.Store.Invariant.InTx.{InTx, ◌>>=◌, ◌>>◌, pures, reads, needs, modifies}
use kingspin.Store.Invariant.Holds.{Holds}
use kingspin.Store.Service.{Service}
use kingspin.Wallets.Credits.{ensures_main}
use kingspin.Payments.Withdrawals.{
  has_withdrawal_id, set_withdrawal, find_withdrawal_or_throw, update_withdrawal, is_closed,
  money_of, refund_and_transition, Transition, closed_by,
}
use kingspin.Payments.Review.{approve_withdrawal, Payout, create_payout, mark_paid}
use kingspin.Payments.Webhook.{Reported, paid_out, reported_failed, reported_cancelled, in_progress}
use kingspin.Payments.Opening.{new_withdrawal}
use kingspin.Payments.Request.{WithdrawalEnv}
use kingspin.Payments.Frame.{credits, reserves, creates_wallet, transition-OfWithdrawals}
use kingspin.Payments.Kept.{opens_lem}
use kingspin.Payments.Rules.{
  IsMinor, OthersKeep, approves, pays_out, marks, rejects, fails_payout, cancels, reports,
}
use kingspin.Payments.Requests.{
  PaymentRequest, request, approve, pay_out, mark, reject, give_up, cancel, report, serve,
  serve_all, requests_lem,
}

-- An update of another row.
find_set :
    (id other : String) (f : Withdrawal → Withdrawal) (ws : List Withdrawal)
    → str_eq other id ≡ false
    → IsMinor f
    → find (has_withdrawal_id id) (map (set_withdrawal other f) ws) ≡ find (has_withdrawal_id id) ws
find_set id other f [] apart minor = refl
find_set id other f (x ∷ ws) apart minor = elim (Bool-cases (has_withdrawal_id other x)) [
  | inl mine ↦
      let same : x.id ≡ other = (str_eq_iff x.id other).0 mine in
      let old : str_eq x.id id ≡ false = rw same apart in
      let new : str_eq (f x).id id ≡ false = rw (minor x).0 old in
      rw (mine, new, old) (find_set id other f ws apart minor)
  | inr else_row ↦ ground (arith, find_set id other f ws apart minor, else_row)
]

-- A webhook that reports a payout in progress.
abbrev pub is_in_progress : Reported → Bool
is_in_progress paid_out = false
is_in_progress reported_failed = false
is_in_progress reported_cancelled = false
is_in_progress in_progress = true

abbrev pub is_progress : PaymentRequest → Bool
is_progress (report new_id provider v) = is_in_progress v.status
is_progress (request destination ids user_id args) = false
is_progress (approve id admin_id) = false
is_progress (pay_out id provider) = false
is_progress (mark id admin_id reference) = false
is_progress (reject new_id id admin_id reason) = false
is_progress (give_up new_id id admin_id reason) = false
is_progress (cancel new_id id user_id) = false

module _ (id : String) (w : Withdrawal) where
  abbrev pub IsRow : Db → Type 0
  IsRow db = find (has_withdrawal_id id) db.withdrawals ≡ some w

  -- An id of another withdrawal.
  abbrev Apart : String → Type 0
  Apart other = str_eq other id ≡ false

  updates_other :
      (v : Withdrawal) (f : Withdrawal → Withdrawal)
      → Apart v.id
      → IsMinor f
      → InTx IsRow (update_withdrawal v f)
  unfolding update_withdrawal
  updates_other v f apart minor = do
    found ← reads λ db. find (has_withdrawal_id v.id) db.withdrawals
    old ← needs found record_not_found
    modifies (λ db. record db { withdrawals = map (set_withdrawal v.id f) db.withdrawals })
        (λ db p. rw (find_set id v.id f db.withdrawals apart minor) p)
    pures (f old)

  module _ (closed : is_closed w.status ≡ true) where
    approve_closed :
        (admin_id : String) (others : ℕ → Db → Db) (db : Db)
        → IsRow db
        → (approve_withdrawal id admin_id others db).1 ≡ db
    unfolding approve_withdrawal find_withdrawal_or_throw
    approve_closed admin_id others db found = ground (arith, closed)

    payout_closed :
        (provider : Result Payout) (others : ℕ → Db → Db) (db : Db)
        → IsRow db
        → (create_payout id provider others db).1 ≡ db
    unfolding create_payout find_withdrawal_or_throw
    payout_closed provider others db found = ground (arith, closed)

    mark_closed :
        (admin_id : String) (reference : Option String) (others : ℕ → Db → Db) (db : Db)
        → IsRow db
        → (mark_paid id admin_id reference others db).1 ≡ db
    unfolding mark_paid find_withdrawal_or_throw
    mark_closed admin_id reference others db found = ground (arith, closed)

    stays : {A : Type 0} {m : Service A} → ((db : Db) → IsRow db → (m db).1 ≡ db) → Holds IsRow m
    stays h = record { kept = λ db p. subst IsRow (sym (h db p)) p }

    -- A handler of one withdrawal, of this one or of another.
    by_id :
        {A : Type 0} (m : String → Service A) (other : String)
        → ((db : Db) → IsRow db → (m id db).1 ≡ db)
        → (Apart other → Holds IsRow (m other))
        → Holds IsRow (m other)
    by_id m other h k = elim (Bool-cases (str_eq other id)) [
      | inl same ↦
          subst (λ i. Holds IsRow (m i)) (sym ((str_eq_iff other id).0 same)) (stays {m = m id} h)
      | inr apart ↦ k apart
    ]

    refunds-IsRow :
        (new_id other actor_id : String) (args : Transition)
        → InTx IsRow (refund_and_transition new_id other actor_id args)
    refunds-IsRow new_id other actor_id args = record {
      kept = λ db p.
          transition-OfWithdrawals (λ ws. find (has_withdrawal_id id) ws ≡ some w) new_id other
            actor_id args db
            (λ v found open_yet same. elim (Bool-cases (str_eq other id)) [
              | inl this ↦
                  let one : some v ≡ some w =
                    sym found
                    ∙ ap (λ i. find (has_withdrawal_id i) db.withdrawals)
                        ((str_eq_iff other id).0 this)
                    ∙ p in
                  cc (closed, open_yet, one)
              | inr apart ↦
                  let far : str_eq v.id id ≡ false = rw same apart in
                  rw
                    (find_set id v.id (closed_by args actor_id) db.withdrawals far
                      (λ x. (refl, refl)))
                    p
            ])
            p;
    }

    marks-IsRow :
        (other admin_id : String) (reference : Option String) (others : ℕ → Db → Db)
        → OthersKeep IsRow others
        → Holds IsRow (mark_paid other admin_id reference others)
    marks-IsRow other admin_id reference others k =
        by_id (λ i. mark_paid i admin_id reference others) other
          (mark_closed admin_id reference others)
          (marks IsRow Apart updates_other other admin_id reference others k)

    serve-IsRow :
        (env : WithdrawalEnv) (others : ℕ → Db → Db) (q : PaymentRequest) (db : Db)
        → OthersKeep IsRow others
        → is_progress q ≡ false
        → IsRow db
        → IsRow (serve env others q db)
    unfolding serve
    serve-IsRow env others (request destination ids user_id args) db k n p =
        (requests_lem IsRow env destination ids user_id args others k
            (ensures_main IsRow
              (λ new_id i amount draft low.
                credits (λ ws. find (has_withdrawal_id id) ws ≡ some w) new_id i amount draft)
              (λ v e. creates_wallet (λ ws. find (has_withdrawal_id id) ws ≡ some w) v)
              ids.wallet_id user_id)
            (λ wallet fits.
              let row = new_withdrawal ids.withdrawal_id user_id wallet.id args in
              opens_lem IsRow ids.transaction_id row
                (λ d h. find-more (has_withdrawal_id id) d.withdrawals (row ∷ []) h)
                (reserves (λ ws. find (has_withdrawal_id id) ws ≡ some w) ids.transaction_id
                  (money_of row)))).kept
          db p
    serve-IsRow env others (approve other admin_id) db k n p =
        (by_id (λ i. approve_withdrawal i admin_id others) other (approve_closed admin_id others)
            (approves IsRow Apart updates_other other admin_id others k)).kept
          db p
    serve-IsRow env others (pay_out other provider) db k n p =
        (by_id (λ i. create_payout i provider others) other (payout_closed provider others)
            (pays_out IsRow Apart updates_other other provider others k)).kept
          db p
    serve-IsRow env others (mark other admin_id reference) db k n p =
        (marks-IsRow other admin_id reference others k).kept db p
    serve-IsRow env others (reject new_id other admin_id reason) db k n p =
        (rejects IsRow marks-IsRow refunds-IsRow new_id other admin_id reason).kept db p
    serve-IsRow env others (give_up new_id other admin_id reason) db k n p =
        (fails_payout IsRow marks-IsRow refunds-IsRow new_id other admin_id reason).kept db p
    serve-IsRow env others (cancel new_id other user_id) db k n p =
        (cancels IsRow marks-IsRow refunds-IsRow new_id other user_id others k).kept db p
    serve-IsRow env others (report new_id provider v) db k n p =
        (reports IsRow marks-IsRow refunds-IsRow new_id provider v others (λ e x. cc (rw e at n))
            k).kept
          db p

-- A withdrawal that is paid, rejected or cancelled stays as it is: its row is the same after any
-- sequence of later requests on withdrawals, if none of them is a webhook that reports a payout in
-- progress, and if what others commit between their statements leaves that row as it is. That
-- condition leaves out a handler that read the withdrawal before its end and updates it afterwards.
pub closed-final :
    (id : String) (w : Withdrawal) (env : WithdrawalEnv)
    (qs : List (PaymentRequest × (ℕ → Db → Db))) (db : Db)
    → is_closed w.status ≡ true
    → All (λ q. OthersKeep (IsRow id w) q.1 × (is_progress q.0 ≡ false)) qs
    → find (has_withdrawal_id id) db.withdrawals ≡ some w
    → find (has_withdrawal_id id) (serve_all env qs db).withdrawals ≡ some w
unfolding serve_all
closed-final id w env [] db closed h p = p
closed-final id w env ((q, others) ∷ qs) db closed h p =
    closed-final id w env qs (serve env others q db) closed h.1
      (serve-IsRow id w closed env others q db h.0.0 h.0.1 p)
