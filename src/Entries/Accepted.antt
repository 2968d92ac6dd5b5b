-- ===== src/Entries/Accepted.antt =====
-- A player who has the money and keeps the rules gets the entry.
use kingspin.Entries.Runs as Runs
use kingspin.Prelude.{
  ◌≡◌, refl, ap, ◌∙◌, ⊤, true, false, ◌||◌, List, [], ◌∷◌, ◌++◌, map, none, some, arith,
  Option-cases, inl, inr,
}
use kingspin.Prelude.Int.{◌-ℤ◌, ◌≤ℤ◌}
use kingspin.Prelude.Lists.{All, find, any, All-find, every}
use kingspin.Prelude.Text.{is_empty, str_eq, str_eq_self}
use kingspin.Prelude.Result.{ok}
use kingspin.Store.Tables.{Category, WalletAccount, Entry, Round, User, Db}
use kingspin.Store.Tx.{lift}
use kingspin.Store.Runs.{bind_after}
use kingspin.Store.Queries.{has_key, pay, can_pay}
use kingspin.Wallets.Money.{is_main_of}
use kingspin.Wallets.Replay.{find-none}
use kingspin.Rounds.Rows.{latest, has_entry_id}
use kingspin.Entries.{PlacementArgs, Placement}
use kingspin.Entries.Request.{
  request_rows, target_entry_id, is_open_for, is_entry_of, entry_in, target_round, round_id_of,
}
use kingspin.Entries.Rules.{breaks_rules, room_is_active, category_is_active}
use kingspin.Entries.Statement.{Writable, upsert_entry, new_entry, top_up, change_entry}
use kingspin.Entries.Ledger.{hold_transaction, total_in}
use kingspin.Entries.Status.{placement_row, shown_round}
use kingspin.Entries.Place.{
  write_placement, to_placement_result_from_row, write_entry_placement_in_transaction,
}
use kingspin.Entries.Answer.{blank_player, blank_entry, id_missing}
use kingspin.Entries.Effect.{payer-id, found-IsEntryOf}
use kingspin.Entries.Limits.{IsAllowed, allowed}
use kingspin.Entries.Repeat.{shown_round-texts}
use kingspin.Entries.Runs.{any-holds, find-holds}
use kingspin.Entries.Chain.{any-latest, chained, more_allowed}
use kingspin.Entries.Success.{did, answer_to, answers}

module _ (args : PlacementArgs) (db : Db) (user : User) (round : Round) (wallet : WalletAccount)
    (user_found : find (λ (u : User). str_eq u.id args.user_id) db.users ≡ some user)
    (round_found : latest (is_open_for args) db.rounds ≡ some round)
    (wallet_found : find (is_main_of args.user_id) db.wallets ≡ some wallet)
    (enough : args.amount ≤ℤ wallet.balance)
    (key_is_new : find (has_key args.idempotency_key) db.ledger ≡ none)
    (id_is_new : any (has_entry_id args.entry_id) db.round_entries ≡ false)
    (room_active : room_is_active (request_rows args db) ≡ true)
    (category_active : category_is_active (request_rows args db) ≡ true)
    (keeps_rules : breaks_rules args (request_rows args db) ≡ false)
    (texts : (is_empty args.entry_id
        || is_empty wallet.id
        || is_empty round.id
        || is_empty args.user_id
        || is_empty round.room_id)
      ≡ false)
    (player_texts : blank_player user ≡ false)
    (old_ids : All (λ (e : Entry). is_empty e.id ≡ false) db.round_entries) where
  wallet-pays : can_pay wallet.id args.user_id args.amount wallet ≡ true
  wallet-pays =
      let mine : is_main_of args.user_id wallet ≡ true =
        (All-find (λ w. ⊤) (is_main_of args.user_id) db.wallets (every db.wallets)
          wallet_found).1 in
      let this = str_eq_self wallet.id in ground arith

  payer_found :
      (u : WalletAccount) × (find (can_pay wallet.id args.user_id args.amount) db.wallets ≡ some u)
  payer_found = find-holds (can_pay wallet.id args.user_id args.amount) db.wallets (
      any-holds (is_main_of args.user_id) (can_pay wallet.id args.user_id args.amount) db.wallets
        wallet wallet_found wallet-pays)

  same_entry :
      (request_rows args db).entry ≡ find (is_entry_of round.id args.user_id) db.round_entries
  unfolding request_rows
  same_entry =
      ap
        (λ t.
          entry_in (target_round t (request_rows args db).open_round) args.user_id db.round_entries)
        key_is_new
      ∙ ap (λ o. entry_in (round_id_of o) args.user_id db.round_entries) round_found

  category_found : (c : Category) × ((request_rows args db).category ≡ some c)
  category_found = elim (Option-cases (request_rows args db).category) [
    | inl missing ↦ cc (rw missing at category_active)
    | inr there ↦ there
  ]

  rules : IsAllowed args (request_rows args db)
  unfolding request_rows
  rules =
      let (category, at_category) = category_found in
      allowed args (request_rows args db) (
        Runs.may args (request_rows args db) db round wallet category round_found wallet_found
          at_category key_is_new (rw user_found refl) room_active category_active keeps_rules)

  -- The answer to what was written.
  completes :
      (v : WalletAccount) (e : Entry) (next : Db)
      → v.id ≡ wallet.id
      → is_empty e.id ≡ false
      → e.round_id ≡ round.id
      → e.user_id ≡ args.user_id
      → write_placement args db db ≡ ok (did v e, next)
      → (p : Placement) × (n : Db) × (write_entry_placement_in_transaction args db db ≡ ok (p, n))
        × (p.reused ≡ false)
  unfolding write_entry_placement_in_transaction request_rows
  completes v e next same_wallet given same_round same_user run =
      let rows = request_rows args db in
      let (category, at_category) = category_found in
      let (shown_id, shown_room) = shown_round-texts db round in
      let has_wallet : is_empty wallet.id ≡ false = ground arith in
      let has_round : is_empty round.id ≡ false = ground arith in
      let has_user : is_empty args.user_id ≡ false = ground arith in
      let has_room : is_empty round.room_id ≡ false = ground arith in
      let ids : id_missing e v (shown_round db round) ≡ false =
        rw (given, same_wallet, has_wallet, shown_id, has_round) refl in
      let entry_texts : blank_entry e ≡ false =
        rw (same_round, has_round, same_user, has_user) refl in
      let room : is_empty (shown_round db round).room_id ≡ false = rw (shown_room, has_room) refl in
      (
        answer_to args rows db user round wallet category user_found round_found wallet_found
            at_category key_is_new rules v e,
        next,
        bind_after (write_placement args db)
              (λ written.
                lift (to_placement_result_from_row args (placement_row args rows db written)))
              db run
            ∙ ap (λ r. lift r next)
                (answers args rows db user round wallet category user_found round_found wallet_found
                  at_category key_is_new rules v e ids entry_texts player_texts room),
        refl,
      )

  -- The debit of the wallet, and the row of the ledger, around a change of the entry.
  abbrev request : Category → Writable
  request category = record {
    round_id = round.id;
    wallet_account_id = wallet.id;
    target_id = target_entry_id args (request_rows args db);
    max_entry_amount = category.max_entry_amount;
  }

  placed_with :
      (category : Category) (e : Entry) (table : List Entry)
      → (request_rows args db).category ≡ some category
      → is_empty e.id ≡ false
      → e.round_id ≡ round.id
      → e.user_id ≡ args.user_id
      → ((v : WalletAccount) (d : Db)
          → d.round_entries ≡ db.round_entries
          → d.rounds ≡ db.rounds
          → upsert_entry args (request_rows args db) (some (request category)) (some v) d
            ≡ ok (some e, record d { round_entries = table }))
      → (p : Placement) × (n : Db) × (write_entry_placement_in_transaction args db db ≡ ok (p, n))
        × (p.reused ≡ false)
  unfolding request_rows
  placed_with category e table at_category given same_round same_user upsert =
      let rows = request_rows args db in
      let (u, found) = payer_found in
      let v = record u { balance = u.balance -ℤ args.amount } in
      let d1 = record db { wallets = map (pay wallet.id args.user_id args.amount) db.wallets } in
      let d2 = record d1 { round_entries = table } in
      let row = hold_transaction args round.id v e (total_in round.id db) in
      let d3 = record d2 { ledger = db.ledger ++ row ∷ [] } in
      let can =
        any-holds (is_main_of args.user_id) (can_pay wallet.id args.user_id args.amount) db.wallets
          wallet wallet_found wallet-pays in
      let allow =
        Runs.may args rows db round wallet category round_found wallet_found at_category key_is_new
          (rw user_found refl) room_active category_active keeps_rules in
      completes v e d3 (payer-id wallet.id args.user_id args.amount db.wallets u found) given
        same_round same_user
        (chained args db d1 d2 d3 (request category) v e
          (Runs.writes args rows db round wallet category round_found wallet_found at_category
            key_is_new allow)
          (Runs.pays args rows db round wallet category round_found wallet_found at_category
            key_is_new u found can)
          (upsert v d1 refl refl)
          (Runs.inserts args rows db round wallet category round_found wallet_found at_category
            key_is_new v e d2 (find-none (has_key args.idempotency_key) db.ledger key_is_new))
          (Runs.applies_nothing args rows db round wallet category round_found wallet_found
            at_category key_is_new e d3))

  -- A player with a main wallet that holds the amount, who asks under a new key to enter the open round
  -- of an active room and category, and breaks none of their rules, gets an answer that is not
  -- reused. (No id or name in these rows is empty, the new entry's id is not taken, and the
  -- statement has the database as it is for its snapshot.)
  pub placement-succeeds :
      (p : Placement) × (n : Db) × (write_entry_placement_in_transaction args db db ≡ ok (p, n))
      × (p.reused ≡ false)
  unfolding request_rows
  placement-succeeds =
      let rows = request_rows args db in
      let (category, at_category) = category_found in
      elim (Option-cases (find (is_entry_of round.id args.user_id) db.round_entries)) [
        | inl missing ↦
            placed_with category (new_entry args round.id args.entry_id)
              (db.round_entries ++ new_entry args round.id args.entry_id ∷ []) at_category
              (ground arith) refl refl
              λ v d same_entries same_rounds.
                Runs.upserts_new args rows db round wallet category round_found wallet_found
                  at_category key_is_new v d (same_entry ∙ missing) (rw same_entries missing)
                  (rw same_entries id_is_new)
                  (rw same_rounds (any-latest (is_open_for args) db.rounds round round_found))
                ∙ ap
                    (λ es. ok (
                      some (new_entry args round.id args.entry_id),
                      record d { round_entries = es ++ new_entry args round.id args.entry_id ∷ [] },
                    ))
                    same_entries
        | inr (old, there) ↦
            let (at_round, at_user) =
              found-IsEntryOf round.id args.user_id db.round_entries old there in
            let given : is_empty old.id ≡ false =
              (All-find (λ (e : Entry). is_empty e.id ≡ false) (is_entry_of round.id args.user_id)
                db.round_entries old_ids there).0 in
            let (flexible, room_left) =
              more_allowed args rows category old rules key_is_new at_category
                (same_entry ∙ there) in
            let grow = change_entry (is_entry_of old.round_id old.user_id) (top_up args.amount) in
            placed_with category (top_up args.amount old) (map grow db.round_entries) at_category
              given at_round at_user
              λ v d same_entries same_rounds.
                Runs.upserts_more args rows db round wallet category round_found wallet_found
                  at_category key_is_new v d old (same_entry ∙ there) (rw same_entries there)
                  flexible room_left
                ∙ ap
                    (λ es.
                      ok (some (top_up args.amount old), record d { round_entries = map grow es }))
                    same_entries
      ]
