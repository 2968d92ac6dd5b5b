-- ===== src/Entries/Answer.antt =====
-- A placement that was answered, step by step.
use mathlib.Core.Path.{subst}
use kingspin.Prelude.{
  false, ◌≡◌, refl, sym, ap, ◌∙◌, Bool, true, ◌||◌, Option, none, some, Bool-cases, Option-cases,
  inl, inr,
}
use kingspin.Prelude.Text.{is_empty}
use kingspin.Prelude.Result.{Result, ok, err, ok_eq}
use kingspin.Store.Tables.{User, WalletAccount, Entry, Round, Db}
use kingspin.Store.Tx.{lift}
use kingspin.Store.Runs.{tx_steps}
use kingspin.Entries.{PlacementArgs, EntryPlacementRow, Placement}
use kingspin.Entries.Request.{request_rows}
use kingspin.Entries.Status.{Written, placement_row, placement_status}
use kingspin.Entries.Place.{
  write_placement, thrown, placement_of, is_replay, to_placement_result_from_row,
  write_entry_placement_in_transaction,
}
use kingspin.Entries.Passed.{goes_on, answered-goes_on}

abbrev pub id_missing : Entry → WalletAccount → Round → Bool
id_missing e w r = is_empty e.id || is_empty w.id || is_empty r.id

abbrev pub blank_player : User → Bool
blank_player u = is_empty u.id || is_empty u.email || is_empty u.username || is_empty u.full_name

abbrev pub blank_entry : Entry → Bool
blank_entry e = is_empty e.round_id || is_empty e.user_id

-- No text that an answer needs is empty.
pub record IsComplete (p : Placement) : Type 0 where
  pub ids : id_missing p.entry p.wallet p.round ≡ false
  pub entry_texts : blank_entry p.entry ≡ false
  pub player_texts : blank_player p.player ≡ false
  pub room_text : is_empty p.round.room_id ≡ false

-- The rows of an answer are those of the statement.
pub record FromRow (row : EntryPlacementRow) (p : Placement) : Type 0 where
  pub entry_is : row.entry ≡ some p.entry
  pub wallet_is : row.wallet ≡ some p.wallet
  pub round_is : row.round ≡ some p.round
  pub player_is : row.user ≡ some p.player
  pub complete : IsComplete p
  pub reused_is : p.reused ≡ (is_replay row.status || row.reused)

made_of :
    (row : EntryPlacementRow) (e : Entry) (w : WalletAccount) (r : Round) (u : User) (p : Placement)
    → row.user ≡ some u
    → placement_of row (some e) (some w) (some r) ≡ ok p
    → (record {
      entry = e;
      player = u;
      wallet = w;
      round = r;
      reused = is_replay row.status || row.reused;
    }
        ≡ p)
      × IsComplete p
made_of row e w r u p user k = elim (Bool-cases (id_missing e w r)) [
  | inl t ↦ cc (rw t at k)
  | inr f1 ↦ elim (Bool-cases (is_empty e.round_id || is_empty e.user_id)) [
    | inl t ↦ cc (rw (f1, t) at k)
    | inr f2 ↦ elim (Bool-cases (blank_player u)) [
      | inl t ↦ cc (rw (f1, f2, user, t) at k)
      | inr f3 ↦ elim (Bool-cases (is_empty r.room_id)) [
        | inl t ↦ cc (rw (f1, f2, user, f3, t) at k)
        | inr f4 ↦
            let same = ok_eq (rw (f1, f2, user, f3, f4) at k) in
            (
              same,
              subst IsComplete same
                  (record { ids = f1; entry_texts = f2; player_texts = f3; room_text = f4 }),
            )
      ]
    ]
  ]
]

player-missing :
    (row : EntryPlacementRow) (e : Entry) (w : WalletAccount) (r : Round) (p : Placement)
    → row.user ≡ none
    → placement_of row (some e) (some w) (some r) ≡ ok p
    → FromRow row p
player-missing row e w r p user k = elim (Bool-cases (id_missing e w r)) [
  | inl t ↦ cc (rw t at k)
  | inr f1 ↦ elim (Bool-cases (is_empty e.round_id || is_empty e.user_id)) [
    | inl t ↦ cc (rw (f1, t) at k)
    | inr f2 ↦ cc (rw (f1, f2, user) at k)
  ]
]

placement-FromRow :
    (row : EntryPlacementRow) (p : Placement)
    → placement_of row row.entry row.wallet row.round ≡ ok p
    → FromRow row p
placement-FromRow row p h = go row.entry row.wallet row.round refl refl refl h
  where
    go :
        (e : Option Entry) (w : Option WalletAccount) (r : Option Round)
        → row.entry ≡ e
        → row.wallet ≡ w
        → row.round ≡ r
        → placement_of row e w r ≡ ok p
        → FromRow row p
    go (some e) (some w) (some r) a b c k = elim (Option-cases row.user) [
      | inl missing ↦ player-missing row e w r p missing k
      | inr (u, there) ↦
          let (made, complete) = made_of row e w r u p there k in
          record {
            entry_is = a ∙ ap (λ (x : Placement). some x.entry) made;
            wallet_is = b ∙ ap (λ (x : Placement). some x.wallet) made;
            round_is = c ∙ ap (λ (x : Placement). some x.round) made;
            player_is = there ∙ ap (λ (x : Placement). some x.player) made;
            complete = complete;
            reused_is = sym (ap (λ (x : Placement). x.reused) made);
          }
    ]
    go none w r a b c k = cc k
    go (some e) none r a b c k = cc k
    go (some e) (some w) none a b c k = cc k

-- What was written for an answer, and that no test of the status was in the way.
pub record AnsweredBy (args : PlacementArgs) (before db : Db) (p : Placement) (next : Db)
    : Type 0 where
  pub written : Written
  pub wrote : write_placement args before db ≡ ok (written, next)
  pub from_row : FromRow (placement_row args (request_rows args before) before written) p
  pub goes : goes_on (placement_status args (request_rows args before) before written) ≡ true

row-placed :
    (args : PlacementArgs) (row : EntryPlacementRow) (p : Placement)
    → to_placement_result_from_row args row ≡ ok p
    → placement_of row row.entry row.wallet row.round ≡ ok p
unfolding to_placement_result_from_row
row-placed args row p h = elim (Option-cases (thrown args row)) [
  | inl none_thrown ↦ cc (none_thrown, h)
  | inr (e, there) ↦ cc (there, h)
]

lift-ok :
    {A : Type 0} (r : Result A) (a : A) (d next : Db)
    → lift r d ≡ ok (a, next)
    → (r ≡ ok a) × (next ≡ d)
lift-ok (ok b) a d next h = (cc h, cc h)
lift-ok (err e) a d next h = cc h

pub answered :
    (args : PlacementArgs) (before db : Db) (p : Placement) (next : Db)
    → write_entry_placement_in_transaction args before db ≡ ok (p, next)
    → AnsweredBy args before db p next
unfolding write_entry_placement_in_transaction placement_row placement_status
answered args before db p next h =
    let rows = request_rows args before in
    let (written, d, wrote, lifted) =
      tx_steps (write_placement args before)
        (λ written.
          lift (to_placement_result_from_row args (placement_row args rows before written)))
        db h in
    let row = placement_row args rows before written in
    let (returned, same) = lift-ok (to_placement_result_from_row args row) p d next lifted in
    record {
      written = written;
      wrote = wrote ∙ ap (λ x. ok (written, x)) (sym same);
      from_row = placement-FromRow row p (row-placed args row p returned);
      goes = answered-goes_on args row p returned;
    }
