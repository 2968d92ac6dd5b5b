-- ===== src/Entries/Repeat.antt =====
-- A second request with the key of a placement.
use kingspin.Prelude.{◌≡◌, refl, ap, ◌∙◌, true, false, none, some, arith, Bool-cases, inl, inr}
use kingspin.Prelude.Int.{ℤ, ==ℤ_self}
use kingspin.Prelude.Lists.{find}
use kingspin.Prelude.Text.{to_string, str_eq_self}
use kingspin.Prelude.Result.{ok}
use kingspin.Store.Tables.{Round, Db}
use kingspin.Store.Tx.{lift}
use kingspin.Store.Runs.{bind_after}
use kingspin.Engine.Machine.{open_round, status_eq}
use kingspin.Rounds.Rows.{has_entry_id, is_round}
use kingspin.Entries.{replay, PlacementArgs, Placement}
use kingspin.Entries.Request.{request_rows, tx_matches, applied_replay}
use kingspin.Entries.Statement.{may_write, writable_request, debit_wallet, upsert_entry}
use kingspin.Entries.Ledger.{insert_transaction, apply_held_transaction}
use kingspin.Entries.Status.{
  Written, placement_status, placement_row, replay_entry, replay_round, final_wallet, shown_round,
}
use kingspin.Entries.Place.{
  thrown, write_placement, to_placement_result_from_row, write_entry_placement_in_transaction,
}
use kingspin.Entries.Answer.{IsComplete}
use kingspin.Entries.Outcome.{row_of}

-- What the statement finds of a placement, the key of which a request repeats.
pub record Finds (first args : PlacementArgs) (p : Placement) (round : Round) (total : ℤ) (db : Db)
    : Type 0 where
  pub same_user : first.user_id ≡ args.user_id
  pub same_amount : first.amount ≡ args.amount
  pub transaction_is :
      (request_rows args db).transaction ≡ some (row_of first round.id p.wallet p.entry total)
  pub user_is : (request_rows args db).user ≡ some p.player
  pub wallet_is : (request_rows args db).wallet ≡ some p.wallet
  pub entry_is : find (has_entry_id p.entry.id) db.round_entries ≡ some p.entry
  pub round_is : find (is_round round.id) db.rounds ≡ some round
  pub complete : IsComplete (record p { round = round })

-- The round that is shown keeps its id and its room.
pub shown_round-texts :
    (db : Db) (round : Round)
    → ((shown_round db round).id ≡ round.id) × ((shown_round db round).room_id ≡ round.room_id)
shown_round-texts db round = elim (Bool-cases (status_eq round.status open_round)) [
  | inl t ↦ rw t (refl, refl)
  | inr n ↦ rw n (refl, refl)
]

-- Nothing is written.
abbrev nothing : Written
nothing = record { paid = none; entry = none; inserted = false; applied = false }

module _ (first args : PlacementArgs) (p : Placement) (round : Round) (total : ℤ) (db : Db)
    (finds : Finds first args p round total db) where
  matches : tx_matches args (request_rows args db) ≡ some true
  unfolding tx_matches
  matches =
      rw
        (
          finds.transaction_is,
          finds.same_user,
          finds.same_amount,
          str_eq_self round.id,
          str_eq_self p.wallet.id,
          str_eq_self args.user_id,
          ==ℤ_self args.amount,
        )
        (rw (str_eq_self (to_string args.amount)) refl)

  replays : applied_replay (request_rows args db) ≡ true
  replays = rw finds.transaction_is refl

  not_writable : writable_request args (request_rows args db) ≡ none
  unfolding writable_request
  not_writable =
      let blocked : may_write args (request_rows args db) ≡ false = ground (arith, replays) in
      rw blocked refl

  writes_nothing : write_placement args db db ≡ ok (nothing, db)
  unfolding write_placement debit_wallet upsert_entry insert_transaction apply_held_transaction
  writes_nothing = rw not_writable refl

  replayed : replay_entry args (request_rows args db) db ≡ some p.entry
  unfolding replay_entry
  replayed = rw finds.transaction_is finds.entry_is

  replayed_round : replay_round (request_rows args db) db ≡ some round
  unfolding replay_round
  replayed_round = rw finds.transaction_is finds.round_is

  status-replay : placement_status args (request_rows args db) db nothing ≡ replay
  unfolding placement_status
  status-replay = rw (matches, replays, replayed) (rw finds.transaction_is refl)

  wallet_found : final_wallet (request_rows args db) nothing ≡ some p.wallet
  wallet_found = rw (finds.transaction_is, finds.wallet_is, str_eq_self p.wallet.id) refl

  -- The first placement, with the round as it is now.
  abbrev pub repeated : Placement
  repeated = record p { round = shown_round db round; reused = true }

  answered_again :
      to_placement_result_from_row args (placement_row args (request_rows args db) db nothing)
      ≡ ok repeated
  unfolding to_placement_result_from_row placement_row thrown placement_status
  answered_again =
      let (same_id, same_room) = shown_round-texts db round in
      let c = finds.complete in
      rw (status-replay, wallet_found, replayed, replayed_round, finds.user_is)
        (rw (same_id, same_room, c.ids, c.entry_texts, c.player_texts, c.room_text) refl)

  -- The request is answered with the first placement, and changes nothing.
  pub repeats : write_entry_placement_in_transaction args db db ≡ ok (repeated, db)
  unfolding write_entry_placement_in_transaction
  repeats =
      let row = λ (written : Written). placement_row args (request_rows args db) db written in
      bind_after (write_placement args db)
        (λ written. lift (to_placement_result_from_row args (row written))) db writes_nothing
      ∙ ap (λ r. lift r db) answered_again
