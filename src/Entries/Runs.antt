-- ===== src/Entries/Runs.antt =====
-- The steps of a placement that meets the rules.
use kingspin.Prelude.{
  ◌≡◌, refl, ap, ◌∙◌, Bool, true, false, ◌&&◌, ◌||◌, List, [], ◌∷◌, ◌++◌, map, Option, none, some,
  is_some, Bool-cases, Option-cases, inl, inr,
}
use kingspin.Prelude.Int.{◌-ℤ◌, leb_ℤ}
use kingspin.Prelude.Lists.{All, find, any, some_eq}
use kingspin.Prelude.Result.{ok}
use kingspin.Store.Tables.{Category, WalletAccount, Entry, Round, Db}
use kingspin.Store.Queries.{has_key, pay, can_pay}
use kingspin.Store.Runs.{decrement_some}
use kingspin.Rounds.Rows.{has_entry_id, is_round}
use kingspin.Entries.{PlacementArgs, EntryPlacementStatus}
use kingspin.Entries.Request.{
  RequestRows, tx_matches, target_entry_id, is_entry_of, held_retry, applied_replay, target_round,
  target_wallet,
}
use kingspin.Entries.Rules.{
  held_entry_mismatch, breaks_rules, room_is_active, category_is_active, is_flexible,
}
use kingspin.Entries.Statement.{
  Writable, may_write, writable_of, writable_request, debit_wallet, upsert_entry, upsert_at,
  insert_new, may_top_up, new_entry, top_up, change_entry,
}
use kingspin.Entries.Ledger.{insert_transaction, hold_transaction, total_in, apply_held_transaction}
use kingspin.Entries.Status.{case_when}
use kingspin.Entries.Steps.{upsert_at-missing, upsert_at-found}
use kingspin.Entries.Passed.{IsUntrue}

-- Tests that are not true are passed over.
pub case_when-skips :
    (cs : List (Bool × EntryPlacementStatus)) (d : EntryPlacementStatus)
    → All IsUntrue cs
    → case_when cs d ≡ d
case_when-skips [] d h = refl
case_when-skips ((b, s) ∷ cs) d h = rw h.0 (case_when-skips cs d h.1)

-- A wallet that is found and can pay
pub any-holds :
    {A : Type 0} (p q : A → Bool) (xs : List A) (v : A)
    → find p xs ≡ some v
    → q v ≡ true
    → any q xs ≡ true
any-holds p q [] v h t = cc h
any-holds p q (x ∷ xs) v h t = elim (Bool-cases (p x)) [
  | inl y ↦ let same : x ≡ v = some_eq (rw y at h) in rw (ap q same ∙ t) refl
  | inr n ↦ elim (Bool-cases (q x)) [
    | inl y ↦ rw y refl
    | inr m ↦ rw m (any-holds p q xs v (rw n at h) t)
  ]
]

pub find-holds :
    {A : Type 0} (q : A → Bool) (xs : List A) → any q xs ≡ true → (v : A) × (find q xs ≡ some v)
find-holds {A} q xs h = elim (Option-cases (find q xs)) [
  | inr there ↦ there
  | inl missing ↦ cc (none_holds xs missing, h)
]
  where
    none_holds : (ys : List A) → find q ys ≡ none → any q ys ≡ false
    none_holds [] m = refl
    none_holds (y ∷ ys) m = elim (Bool-cases (q y)) [
      | inl t ↦ cc (rw t at m)
      | inr n ↦ rw n (none_holds ys (rw n at m))
    ]

module _ (args : PlacementArgs) (rows : RequestRows) (db : Db) (round : Round)
    (wallet : WalletAccount) (category : Category) (at_round : rows.open_round ≡ some round)
    (at_wallet : rows.wallet ≡ some wallet) (at_category : rows.category ≡ some category)
    (fresh : rows.transaction ≡ none) where
  abbrev pub request_of : Writable
  request_of = record {
    round_id = round.id;
    wallet_account_id = wallet.id;
    target_id = target_entry_id args rows;
    max_entry_amount = category.max_entry_amount;
  }

  tx_matches-fresh : tx_matches args rows ≡ some true
  unfolding tx_matches
  tx_matches-fresh = rw fresh refl

  pub held_entry_mismatch-fresh : held_entry_mismatch args rows ≡ some false
  unfolding held_entry_mismatch
  held_entry_mismatch-fresh = elim (Option-cases rows.entry) [
    | inl missing ↦ rw missing refl
    | inr (e, there) ↦ rw (there, fresh) refl
  ]

  pub may :
      is_some rows.user ≡ true
      → room_is_active rows ≡ true
      → category_is_active rows ≡ true
      → breaks_rules args rows ≡ false
      → may_write args rows ≡ true
  may user room cat rules =
      let matched = tx_matches-fresh in
      let agreed = held_entry_mismatch-fresh in
      let first : applied_replay rows ≡ false = rw fresh refl in
      rw (matched, agreed, first, user, room, cat, rules) refl

  pub writes : may_write args rows ≡ true → writable_request args rows ≡ some request_of
  unfolding writable_request
  writes allowed =
      let at_id : target_round rows.transaction rows.open_round ≡ some round.id =
        rw (fresh, at_round) refl in
      let at_wallet_id : target_wallet rows ≡ some wallet.id = rw (fresh, at_wallet) refl in
      rw allowed (
        ap (λ r. writable_of args rows r (target_wallet rows) rows.category) at_id
        ∙ ap (λ v. writable_of args rows (some round.id) v rows.category) at_wallet_id
        ∙ ap (λ c. writable_of args rows (some round.id) (some wallet.id) c) at_category)

  pub pays :
      (payer : WalletAccount)
      → find (can_pay wallet.id args.user_id args.amount) db.wallets ≡ some payer
      → any (can_pay wallet.id args.user_id args.amount) db.wallets ≡ true
      → debit_wallet args rows db (some request_of) db
        ≡ ok (
          some (record payer { balance = payer.balance -ℤ args.amount }),
          record db { wallets = map (pay wallet.id args.user_id args.amount) db.wallets },
        )
  unfolding debit_wallet
  pays payer found there =
      rw (fresh, at_round, there) (decrement_some wallet.id args.user_id args.amount db payer found)

  -- The entry, by the one of that round and player that is there.
  abbrev pub placed_as : Option Entry → Entry
  placed_as none = new_entry args round.id args.entry_id
  placed_as (some old) = top_up args.amount old

  abbrev pub table_as : Option Entry → List Entry → List Entry
  table_as none es = es ++ new_entry args round.id args.entry_id ∷ []
  table_as (some old) es =
      map (change_entry (is_entry_of old.round_id old.user_id) (top_up args.amount)) es

  pub upserts_new :
      (v : WalletAccount) (d : Db)
      → rows.entry ≡ none
      → find (is_entry_of round.id args.user_id) d.round_entries ≡ none
      → any (has_entry_id args.entry_id) d.round_entries ≡ false
      → any (is_round round.id) d.rounds ≡ true
      → upsert_entry args rows (some request_of) (some v) d
        ≡ ok (some (placed_as none), record d { round_entries = table_as none d.round_entries })
  unfolding upsert_entry target_entry_id
  upserts_new v d missing none_there free round_there =
      let opened : ((held_retry rows || true) && is_some rows.open_round) ≡ true =
        rw (fresh, at_round) refl in
      let target : target_entry_id args rows ≡ some args.entry_id = rw (fresh, missing) refl in
      let run : insert_new args round.id args.entry_id d
          ≡ ok (some (placed_as none), record d { round_entries = table_as none d.round_entries }) =
        rw (free, round_there) refl in
      rw opened (
        ap (λ t. upsert_at args rows request_of t d) target
        ∙ upsert_at-missing args rows request_of args.entry_id d none_there
        ∙ run)

  pub upserts_more :
      (v : WalletAccount) (d : Db) (old : Entry)
      → rows.entry ≡ some old
      → find (is_entry_of round.id args.user_id) d.round_entries ≡ some old
      → is_flexible rows ≡ true
      → leb_ℤ old.amount (category.max_entry_amount -ℤ args.amount) ≡ true
      → upsert_entry args rows (some request_of) (some v) d
        ≡ ok (
          some (placed_as (some old)),
          record d { round_entries = table_as (some old) d.round_entries },
        )
  unfolding upsert_entry target_entry_id
  upserts_more v d old there there_too flexible room_left =
      let opened : ((held_retry rows || true) && is_some rows.open_round) ≡ true =
        rw (fresh, at_round) refl in
      let target : target_entry_id args rows ≡ some old.id = rw (fresh, there) refl in
      let may : may_top_up args rows request_of old.id old ≡ true =
        rw (room_left, flexible, fresh) refl in
      rw opened (
        ap (λ t. upsert_at args rows request_of t d) target
        ∙ upsert_at-found args rows request_of old.id d old there_too
        ∙ rw may refl)

  pub inserts :
      (v : WalletAccount) (e : Entry) (d : Db)
      → any (has_key args.idempotency_key) d.ledger ≡ false
      → insert_transaction args rows db (some request_of) (some v) (some e) d
        ≡ ok (
          true,
          record d {
            ledger = d.ledger ++ hold_transaction args round.id v e (total_in round.id db) ∷ [];
          },
        )
  unfolding insert_transaction
  inserts v e d free = rw (fresh, free) refl

  pub applies_nothing :
      (e : Entry) (d : Db)
      → apply_held_transaction args rows db (some request_of) (some e) d ≡ ok (false, d)
  unfolding apply_held_transaction
  applies_nothing e d = rw fresh refl
