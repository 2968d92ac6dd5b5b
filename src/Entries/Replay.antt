-- ===== src/Entries/Replay.antt =====
-- A placement and a second request with its key.
use mathlib.Core.Path.{subst}
use kingspin.Prelude.{
  ◌≡◌, refl, sym, ap, ◌∙◌, ⊤, true, false, ◌||◌, String, List, map, Option, none, some, Bool-cases,
  Option-cases, inl, inr, if◌then◌else◌,
}
use kingspin.Prelude.Int.{ℤ, ◌-ℤ◌}
use kingspin.Prelude.Lists.{find, any, All-find, every, some_eq}
use kingspin.Prelude.Text.{is_empty, str_eq_self}
use kingspin.Prelude.Result.{ok}
use kingspin.Store.Tables.{WalletAccount, Entry, Round, Db}
use kingspin.Store.Queries.{has_key, has_id, pay, can_pay}
use kingspin.Store.Sound.{IsSound, UniqueIds}
use kingspin.Wallets.Money.{is_main_of}
use kingspin.Wallets.Replay.{find-can_pay}
use kingspin.Rounds.Rows.{has_entry_id, is_round}
use kingspin.Entries.{PlacementArgs, Placement}
use kingspin.Entries.Request.{request_rows, is_open_for}
use kingspin.Entries.Ledger.{total_in}
use kingspin.Entries.Status.{placement_row, shown_round}
use kingspin.Entries.Place.{write_entry_placement_in_transaction}
use kingspin.Entries.Answer.{IsComplete, answered}
use kingspin.Entries.Effect.{placement-effect}
use kingspin.Entries.Outcome.{IsPlaced, row_of, is_of, entry_after, entries_after}
use kingspin.Entries.Finds.{
  Unique, find-map, find-last, found_by_id, UniqueIds-Unique, latest_found_by_id,
}
use kingspin.Entries.Repeat.{Finds, repeats, shown_round-texts}

-- A request for the same placement, at another time and with other random ids.
abbrev pub retried : PlacementArgs → ℤ → ℤ → String → String → PlacementArgs
retried args accepted_at now entry_id ledger_transaction_id = record args {
  request_accepted_at = accepted_at;
  now = now;
  entry_id = entry_id;
  ledger_transaction_id = ledger_transaction_id;
}

-- The main wallet of the player is the one that paid.
main-payer :
    (id user_id : String) (amount : ℤ) (ws : List WalletAccount) (v u : WalletAccount)
    → UniqueIds ws
    → find (is_main_of user_id) ws ≡ some v
    → v.id ≡ id
    → find (can_pay id user_id amount) ws ≡ some u
    → v ≡ u
main-payer id user_id amount ws v u unique main at_id pays =
    let one : find (has_id v.id) ws ≡ some v =
      found_by_id (λ (w : WalletAccount). w.id) (is_main_of user_id) ws v
        (UniqueIds-Unique ws unique) main in
    let two = find-can_pay id user_id amount ws unique pays in
    some_eq (sym one ∙ ap (λ i. find (has_id i) ws) at_id ∙ two)

pay-is_main_of :
    (id user_id owner : String) (amount : ℤ) (w : WalletAccount)
    → is_main_of owner (pay id user_id amount w) ≡ is_main_of owner w
pay-is_main_of id user_id owner amount w = elim (Bool-cases (can_pay id user_id amount w)) [
  | inl t ↦ rw t refl
  | inr n ↦ rw n refl
]

pay-payer :
    (id user_id : String) (amount : ℤ) (ws : List WalletAccount) (u : WalletAccount)
    → find (can_pay id user_id amount) ws ≡ some u
    → pay id user_id amount u ≡ record u { balance = u.balance -ℤ amount }
pay-payer id user_id amount ws u pays =
    rw (All-find (λ w. ⊤) (can_pay id user_id amount) ws (every ws) pays).1 refl

-- More on one entry leaves all ids as they are.
abbrev more : PlacementArgs → String → Entry → Entry
more args round_id x =
    if is_of round_id args.user_id x then entry_after args round_id x.id (some x) else x

more-id :
    (args : PlacementArgs) (round_id id : String) (x : Entry)
    → has_entry_id id (more args round_id x) ≡ has_entry_id id x
more-id args round_id id x = elim (Bool-cases (is_of round_id args.user_id x)) [
  | inl t ↦ rw t refl
  | inr n ↦ rw n refl
]

-- The entry that was placed is found by its id.
placed_entry :
    (args : PlacementArgs) (round_id : String) (e : Entry) (es : List Entry) (o : Option Entry)
    → Unique (λ (x : Entry). x.id) es
    → find (is_of round_id args.user_id) es ≡ o
    → e ≡ entry_after args round_id e.id o
    → (o ≡ none → any (has_entry_id e.id) es ≡ false)
    → find (has_entry_id e.id) (entries_after args round_id e o es) ≡ some e
placed_entry args round_id e es none unique found is_e fresh =
    find-last (has_entry_id e.id) es e (fresh refl) (str_eq_self e.id)
placed_entry args round_id e es (some old) unique found is_e fresh =
    let mine : is_of round_id args.user_id old ≡ true =
      (All-find (λ x. ⊤) (is_of round_id args.user_id) es (every es) found).1 in
    let there =
      find-map (has_entry_id old.id) (more args round_id) es old (more-id args round_id old.id)
        (found_by_id (λ (x : Entry). x.id) (is_of round_id args.user_id) es old unique found) in
    let grown : more args round_id old ≡ entry_after args round_id old.id (some old) =
      rw mine refl in
    subst (λ (x : Entry). find (has_entry_id x.id) (map (more args round_id) es) ≡ some x)
      (sym is_e) (there ∙ ap (λ x. some x) grown)

-- The wallet that was debited is still the main wallet of the player.
main_wallet-found :
    (args : PlacementArgs) (db : Db) (p : Placement) (next : Db)
    → UniqueIds db.wallets
    → (placed : IsPlaced args db db p next)
    → find (is_main_of args.user_id) (map (pay p.wallet.id args.user_id args.amount) db.wallets)
      ≡ some p.wallet
main_wallet-found args db p next unique placed =
    elim (Option-cases (find (is_main_of args.user_id) db.wallets)) [
      | inl missing ↦ cc (rw missing at placed.main_found)
      | inr (v, there) ↦
          let id = p.wallet.id in
          let at_id : v.id ≡ id = some_eq (rw there at placed.main_found) in
          let same =
            main-payer id args.user_id args.amount db.wallets v placed.payer unique there at_id
              placed.payer_found in
          find-map (is_main_of args.user_id) (pay id args.user_id args.amount) db.wallets
            placed.payer (pay-is_main_of id args.user_id args.user_id args.amount)
            (there ∙ ap (λ x. some x) same)
          ∙ ap (λ x. some x)
              (pay-payer id args.user_id args.amount db.wallets placed.payer placed.payer_found
                ∙ sym placed.wallet_is)
    ]

still-IsComplete :
    (args : PlacementArgs) (db : Db) (p : Placement) (next : Db)
    → (placed : IsPlaced args db db p next) → IsComplete p
    → IsComplete (record p { round = placed.round })
still-IsComplete args db p next placed c =
    let (same_id, same_room) = shown_round-texts db placed.round in
    let at_id : p.round.id ≡ placed.round.id = ap (λ (r : Round). r.id) placed.round_is ∙ same_id in
    let at_room : p.round.room_id ≡ placed.round.room_id =
      ap (λ (r : Round). r.room_id) placed.round_is ∙ same_room in
    record {
      ids = ap (λ i. is_empty p.entry.id || is_empty p.wallet.id || is_empty i) (sym at_id) ∙ c.ids;
      entry_texts = c.entry_texts;
      player_texts = c.player_texts;
      room_text = ap (λ i. is_empty i) (sym at_room) ∙ c.room_text;
    }

-- Once a placement was answered, the same request with the same key is answered with the same entry,
-- player and wallet, as reused, and changes nothing: no second debit and no second entry. The ids of
-- entries and of rounds are unique, and the money is sound; each statement has the database as it is
-- for its snapshot.
pub placement-replay :
    (args : PlacementArgs) (accepted_at now : ℤ) (entry_id transaction_id : String) (db : Db)
    (p : Placement) (next : Db)
    → IsSound db
    → Unique (λ (e : Entry). e.id) db.round_entries
    → Unique (λ (r : Round). r.id) db.rounds
    → find (has_key args.idempotency_key) db.ledger ≡ none
    → write_entry_placement_in_transaction args db db ≡ ok (p, next)
    → (r : Round) × (find (is_round p.round.id) db.rounds ≡ some r)
      × (write_entry_placement_in_transaction
            (retried args accepted_at now entry_id transaction_id)
            next
            next
          ≡ ok (record p { round = shown_round next r; reused = true }, next))
unfolding request_rows placement_row
placement-replay args accepted_at now entry_id transaction_id db p next s entries rounds missing h =
    let placed = placement-effect args db db p next missing h in
    let round = placed.round in
    let a = answered args db db p next h in
    let row = a.from_row in
    let again = retried args accepted_at now entry_id transaction_id in
    let there = latest_found_by_id (is_open_for args) db.rounds round rounds placed.round_found in
    let at_id : p.round.id ≡ round.id =
      ap (λ (r : Round). r.id) placed.round_is ∙ (shown_round-texts db round).0 in
    let finds : Finds args again p round (total_in round.id db) next = record {
      same_user = refl;
      same_amount = refl;
      transaction_is = rw placed.next_is (
          find-last (has_key args.idempotency_key) db.ledger
            (row_of args round.id p.wallet p.entry (total_in round.id db)) placed.key_is_new
            (str_eq_self args.idempotency_key));
      user_is = rw placed.next_is row.player_is;
      wallet_is = rw placed.next_is (main_wallet-found args db p next s.unique_ids placed);
      entry_is = rw placed.next_is (
          placed_entry args round.id p.entry db.round_entries
            (find (is_of round.id args.user_id) db.round_entries) entries refl placed.entry_is
            placed.id_is_new);
      round_is = rw placed.next_is there;
      complete = still-IsComplete args db p next placed row.complete;
    } in
    (
      round,
      ap (λ i. find (is_round i) db.rounds) at_id ∙ there,
      repeats args again p round (total_in round.id db) next finds,
    )
