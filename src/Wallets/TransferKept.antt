-- ===== src/Wallets/TransferKept.antt =====
-- A transfer keeps the ledger in balance, and moves money without making or losing any.
use kingspin.Store.Invariant.InTx as InTx
use mathlib.Core.Path.{subst}
use kingspin.Prelude.{
  ℕ, ◌≡◌, refl, sym, ap, ◌∙◌, true, false, String, List, [], ◌∷◌, ◌++◌, map, some, inl, inr,
  Bool-cases, Option-cases, ◌||◌, not,
}
use kingspin.Prelude.Int.{ℤ, pos, ◌+ℤ◌, ◌-ℤ◌, ◌≤ℤ◌, int_laws, ltb_ℤ}
use kingspin.Prelude.Lists.{All, any, find, any-find, any-false}
use kingspin.Prelude.Text.{str_eq_iff, str_eq, ◌<>◌, to_string}
use kingspin.Prelude.Result.{ok, err-ne-ok, ok_eq, record_not_found, not_found, bad_request}
use kingspin.Store.Tables.{WalletAccount, LedgerTransaction, Db}
use kingspin.Store.Queries.{has_id, has_key, adjust, pay, can_pay, Draft}
use kingspin.Store.Sound.{UniqueIds, IsSound}
use kingspin.Store.Sound.Debit.{pay-some}
use kingspin.Store.Sound.Post.{
  post-IsSound, adjust-KeepsId, pay-KeepsId, pay-solvent, adjust-solvent, any-map, UniqueIds-map,
}
use kingspin.Store.Sound.Rules.{Keeps, SoundAfter, IfOk-ok, IfOk-err, any-can_pay, found_id}
use kingspin.Store.Invariant.InTx.{InTx}
use kingspin.Store.Invariant.Holds.{
  Holds, ◌>>=◌, ◌>>◌, commits, dones, fails_if, catches, others_keep, cases_option, lifts,
}
use kingspin.Store.Service.{Service}
use kingspin.Wallets.{credit_fresh}
use kingspin.Wallets.Money.{create_wallet}
use kingspin.Wallets.Transfers.{
  TransferMatch, check_transfer, settled, TransferEnv, TransferArgs, TransferIds, transfer_row,
  transfer_tx, match_of, both, assert_transfer_matches, transfer_between, create_transfer,
}
use kingspin.Wallets.Sound.{credit_fresh-Keeps}
use kingspin.Wallets.NewWallet.{Keeps-create}
use kingspin.Wallets.Credits.{ensures_main, finds_transaction}
use kingspin.Wallets.TransferLaws.{
  paid, lowered, raised, moved, transfer_refused, transfer_missing, transfer_taken, transfer_run,
  map-map, moved-balance,
}

-- Two updates of all wallets are one.
moved-both :
    (from to user_id : String) (amount : ℤ) (db : Db) {w : WalletAccount}
    → IsSound db
    → find (can_pay from user_id amount) db.wallets ≡ some w
    → map (adjust (λ b. b +ℤ amount) to) (paid from user_id amount db)
      ≡ map (moved from to amount) db.wallets
moved-both from to user_id amount db s h =
    ap (map (adjust (λ b. b +ℤ amount) to))
      (pay-some from user_id amount db.wallets s.unique_ids h).0
    ∙ map-map (adjust (λ b. b -ℤ amount) from) (adjust (λ b. b +ℤ amount) to) db.wallets

-- The database that a transfer leaves.
transferred-IsSound :
    (new_id user_id : String) (args : TransferArgs) (from to : String) (db : Db)
    (w v : WalletAccount)
    → pos 0 ≤ℤ args.amount
    → IsSound db
    → find (can_pay from user_id args.amount) db.wallets ≡ some w
    → find (has_id to) (paid from user_id args.amount db) ≡ some v
    → any (has_key args.idempotency_key) db.ledger ≡ false
    → IsSound (record db {
      wallets = map (adjust (λ b. b +ℤ args.amount) to) (paid from user_id args.amount db);
      ledger =
          db.ledger
          ++ transfer_row new_id user_id args (lowered args.amount w) (raised args.amount v) ∷ [];
    })
transferred-IsSound new_id user_id args from to db w v low s payer there free =
    let amount = args.amount in
    let row = transfer_row new_id user_id args (lowered amount w) (raised amount v) in
    let both = moved-both from to user_id amount db s payer in
    let at_from : w.id ≡ from = (pay-some from user_id amount db.wallets s.unique_ids payer).1 in
    let at_to : v.id ≡ to = found_id to (paid from user_id amount db) v there in
    let sender_known : any (has_id w.id) db.wallets ≡ true =
      rw at_from (any-can_pay from user_id amount db.wallets payer) in
    let recipient_known : any (has_id v.id) db.wallets ≡ true = rw at_to (
      sym (any-map (pay from user_id amount) to db.wallets (pay-KeepsId from user_id amount))
      ∙ any-find (has_id to) (paid from user_id amount db) there) in
    let solvent =
      adjust-solvent to amount (paid from user_id amount db) low
        (pay-solvent from user_id amount db.wallets s.solvent) in
    subst (λ z. IsSound (record db { wallets = z; ledger = db.ledger ++ row ∷ [] })) (sym both)
      (post-IsSound db (moved from to amount) row s
        (λ x.
          adjust-KeepsId (λ b. b +ℤ amount) to (adjust (λ b. b -ℤ amount) from x)
          ∙ adjust-KeepsId (λ b. b -ℤ amount) from x)
        (λ x.
          rw (at_from, at_to)
            (moved-balance from to amount (w.balance -ℤ amount) (v.balance +ℤ amount) x))
        (subst (λ z. All (λ x. pos 0 ≤ℤ x.balance) z) both solvent) (low, (low, tt))
        (sender_known, (recipient_known, tt)) free)

transfer-Keeps :
    (new_id user_id : String) (args : TransferArgs) (from to : WalletAccount)
    → pos 0 ≤ℤ args.amount
    → Keeps (transfer_tx new_id user_id args from to)
transfer-Keeps new_id user_id args from to low db s =
    elim (Option-cases (find (can_pay from.id user_id args.amount) db.wallets)) [
      | inl none_found ↦
          IfOk-err SoundAfter (transfer_refused new_id user_id args from to db none_found)
      | inr (w, payer) ↦
          elim (Option-cases (find (has_id to.id) (paid from.id user_id args.amount db))) [
            | inl missing ↦
                IfOk-err SoundAfter
                  (transfer_missing new_id user_id args from to db w payer missing)
            | inr (v, there) ↦ elim (Bool-cases (any (has_key args.idempotency_key) db.ledger)) [
              | inl taken ↦
                  IfOk-err SoundAfter
                    (transfer_taken new_id user_id args from to db w v payer there taken)
              | inr free ↦
                  IfOk-ok SoundAfter
                    (transfer_run new_id user_id args from to db w v payer there free)
                    (transferred-IsSound new_id user_id args from.id to.id db w v low s payer there
                      free)
            ]
          ]
    ]

abbrev pub total : List WalletAccount → ℤ
total [] = pos 0
total (w ∷ ws) = w.balance +ℤ total ws

adjust-absent :
    (f : ℤ → ℤ) (id : String) (ws : List WalletAccount)
    → any (has_id id) ws ≡ false
    → map (adjust f id) ws ≡ ws
adjust-absent f id [] h = refl
adjust-absent f id (w ∷ ws) h =
    let (other, rest) = any-false (has_id id) w ws h in rw (other, adjust-absent f id ws rest) refl

-- The one wallet of an id carries the whole change.
total-adjust :
    (f : ℤ → ℤ) (d : ℤ) (id : String) (ws : List WalletAccount)
    → ((b : ℤ) → f b ≡ b +ℤ d)
    → UniqueIds ws
    → any (has_id id) ws ≡ true
    → total (map (adjust f id) ws) ≡ total ws +ℤ d
total-adjust f d id [] g u h = cc
total-adjust f d id (w ∷ ws) g u h = elim (Bool-cases (has_id id w)) [
  | inl mine ↦
      let same : w.id ≡ id = (str_eq_iff w.id id).0 mine in
      let rest = adjust-absent f id ws (rw (← same) u.0) in
      rw (mine, rest, g w.balance) (omega int_laws)
  | inr other ↦
      let later : any (has_id id) ws ≡ true = rw other at h in
      rw (other, total-adjust f d id ws g u.1 later) (omega int_laws)
]

total-moved :
    (from to user_id : String) (amount : ℤ) (db : Db) {w v : WalletAccount}
    → IsSound db
    → find (can_pay from user_id amount) db.wallets ≡ some w
    → find (has_id to) (paid from user_id amount db) ≡ some v
    → total (map (adjust (λ b. b +ℤ amount) to) (paid from user_id amount db)) ≡ total db.wallets
total-moved from to user_id amount db s payer there =
    let after = paid from user_id amount db in
    total-adjust (λ b. b +ℤ amount) amount to after (λ b. refl)
      (UniqueIds-map (pay from user_id amount) db.wallets (pay-KeepsId from user_id amount)
        s.unique_ids)
      (any-find (has_id to) after there)
    ∙ rw
        (
          (pay-some from user_id amount db.wallets s.unique_ids payer).0,
          total-adjust (λ b. b -ℤ amount) (pos 0 -ℤ amount) from db.wallets (λ b. omega int_laws)
              s.unique_ids (any-can_pay from user_id amount db.wallets payer),
        )
        (omega int_laws)

-- A transfer that is committed on a sound database lowers the balance of the sender's wallet and
-- raises that of the recipient's by the amount, changes no other wallet, and leaves the sum of all
-- balances as it was.
pub transfer-conserves :
    (new_id user_id : String) (args : TransferArgs) (from to : WalletAccount) (db : Db)
    (t : LedgerTransaction) (next : Db)
    → IsSound db
    → transfer_tx new_id user_id args from to db ≡ ok (t, next)
    → (next.wallets ≡ map (moved from.id to.id args.amount) db.wallets)
      × (total next.wallets ≡ total db.wallets)
transfer-conserves new_id user_id args from to db t next s h =
    elim (Option-cases (find (can_pay from.id user_id args.amount) db.wallets)) [
      | inl refused ↦
          absurd (err-ne-ok (sym (transfer_refused new_id user_id args from to db refused) ∙ h))
      | inr (w, payer) ↦
          elim (Option-cases (find (has_id to.id) (paid from.id user_id args.amount db))) [
            | inl missing ↦ absurd (
                err-ne-ok
                  (sym (transfer_missing new_id user_id args from to db w payer missing) ∙ h))
            | inr (v, there) ↦ elim (Bool-cases (any (has_key args.idempotency_key) db.ledger)) [
              | inl taken ↦ absurd (
                  err-ne-ok
                    (sym (transfer_taken new_id user_id args from to db w v payer there taken) ∙ h))
              | inr free ↦
                  let run = transfer_run new_id user_id args from to db w v payer there free in
                  let same = ap (λ z. z.1.wallets) (ok_eq (sym h ∙ run)) in
                  (
                    same ∙ moved-both from.id to.id user_id args.amount db s payer,
                    ap total same ∙ total-moved from.id to.id user_id args.amount db s payer there,
                  )
            ]
          ]
    ]

credits_kept :
    (new_id id : String) (amount : ℤ) (draft : WalletAccount → Draft)
    → pos 0 ≤ℤ amount
    → InTx IsSound (credit_fresh new_id id amount draft)
credits_kept new_id id amount draft low = record {
  kept = credit_fresh-Keeps new_id id amount draft low;
}

creates_kept : (w : WalletAccount) → w.balance ≡ pos 0 → InTx IsSound (create_wallet w)
creates_kept w empty = record { kept = Keeps-create w empty }

asserts : (t : LedgerTransaction) (m : TransferMatch) → InTx IsSound (assert_transfer_matches t m)
unfolding assert_transfer_matches
asserts t m = InTx.throws_if _ _

keeps_both :
    {A B : Type 0} {m : Service A} {k : Service B}
    → Holds IsSound m
    → Holds IsSound k
    → Holds IsSound (both m k)
keeps_both {A} {B} {m} {k} g h = do
  a ← holding g
  b ← holding h
  x ← lifts a
  y ← lifts b
  dones (x, y)
  where
    holding : {C : Type 0} {n : Service C} → Holds IsSound n → Holds IsSound (settled n)
    holding i = record { kept = i.kept }

keeps_between :
    (new_id user_id : String) (args : TransferArgs) (others : ℕ → Db → Db) (from to : WalletAccount)
    → pos 0 ≤ℤ args.amount
    → ((i : ℕ) (d : Db) → IsSound d → IsSound (others i d))
    → Holds IsSound (transfer_between new_id user_id args others from to)
unfolding transfer_between
keeps_between new_id user_id args others from to low o = do
  existing ← commits (finds_transaction IsSound credits_kept creates_kept args.idempotency_key)
  cases_option existing
      (others_keep (others 2) (o 2)
        >> (catches (commits (record { kept = transfer-Keeps new_id user_id args from to low })) (do
          t ← commits (
              InTx.◌>>=◌ (finds_transaction IsSound credits_kept creates_kept args.idempotency_key)
                (λ t. InTx.needs t record_not_found))
          commits (asserts t (match_of user_id args from to))
          dones t)
            >>= λ t. dones (record { transaction = t; reused = false })))
      (λ t.
        commits (asserts t (match_of user_id args from to))
        >> dones (record { transaction = t; reused = true }))

checks :
    (env : TransferEnv) (user_id : String) (args : TransferArgs)
    → Holds IsSound (check_transfer env user_id args)
checks env user_id args = do
  fails_if (ltb_ℤ args.amount env.transfer_min || ltb_ℤ env.transfer_max args.amount) (
      bad_request (
        "Transfer amount must be between "
        <> to_string env.transfer_min
        <> " and "
        <> to_string env.transfer_max
        <> " ETB."))
  fails_if (str_eq args.recipient_id user_id) (bad_request "You cannot transfer to yourself.")
  fails_if (not (env.is_user user_id)) (not_found "Sender not found.")
  fails_if (not (env.is_user args.recipient_id)) (not_found "Recipient not found.")

keeps_transfer :
    (ids : TransferIds) (env : TransferEnv) (user_id : String) (args : TransferArgs)
    (others : ℕ → Db → Db)
    → pos 0 ≤ℤ args.amount
    → ((i : ℕ) (d : Db) → IsSound d → IsSound (others i d))
    → Holds IsSound (create_transfer ids env user_id args others)
unfolding create_transfer
keeps_transfer ids env user_id args others low o = do
  checks env user_id args
  others_keep (others 0) (o 0)
  wallets ←
      keeps_both (ensures_main IsSound credits_kept creates_kept ids.sender_wallet_id user_id)
        (ensures_main IsSound credits_kept creates_kept ids.recipient_wallet_id args.recipient_id)
  others_keep (others 1) (o 1)
  keeps_between ids.transaction_id user_id args others wallets.0 wallets.1 low o

-- A request to transfer an amount that is not negative leaves a sound database sound, whether it
-- goes through, answers an earlier transfer or throws, and whatever others commit between its
-- statements, as long as they leave a sound database sound.
pub transfer-IsSound :
    (ids : TransferIds) (env : TransferEnv) (user_id : String) (args : TransferArgs)
    (others : ℕ → Db → Db) (db : Db)
    → pos 0 ≤ℤ args.amount
    → ((i : ℕ) (d : Db) → IsSound d → IsSound (others i d))
    → IsSound db
    → IsSound (create_transfer ids env user_id args others db).1
transfer-IsSound ids env user_id args others db low o s =
    (keeps_transfer ids env user_id args others low o).kept db s
