-- ===== src/Rounds/Requests.antt =====
-- The requests on rounds, from the machine of a room, from administrators, and from players who place
-- an entry.
use kingspin.Prelude.{ℕ, Bool, String, List, [], ◌∷◌, Option}
use kingspin.Prelude.Lists.{All}
use kingspin.Prelude.Int.{ℤ}
use kingspin.Store.Tables.{Round, Db}
use kingspin.Store.Sound.{IsSound}
use kingspin.Rounds.Rows.{Env}
use kingspin.Rounds.Open.{Fresh, start_open_round_for_room}
use kingspin.Rounds.Lock.{lock_current_round_for_room}
use kingspin.Rounds.Advance.{
  draw_current_round_for_room, start_spinning_current_round_for_room,
  start_settling_current_round_for_room,
}
use kingspin.Rounds.Settle.{SettleIds, settle_current_round_for_room}
use kingspin.Rounds.Cancellation.{
  cancel_expired_open_round_for_room, cancel_expired_open_round_and_start_next_for_room,
  cancel_current_round_and_start_next_for_room, cancel_current_round_for_room,
}
use kingspin.Rounds.History.{Follows, Follows-refl}
use kingspin.Rounds.Kept.{Kept, pair}
use kingspin.Store.Invariant.Holds.{Holds}
use kingspin.Entries.Place.{write_entry_placement_in_transaction}
use kingspin.Entries.Handler.{EntryRequest, FraudEvaluation, place_entry_for_user}
use kingspin.Entries.Sound.{write_entry_placement-IsSound}
use kingspin.Entries.Kept.{handles}
use kingspin.Entries.Lasting.{keeps_rounds}
use kingspin.Rounds.KeptSteps.{locks_current, draws_current, spins, starts_settling}
use kingspin.Rounds.KeptEnds.{
  starts_open, settles, cancels_expired, cancels_expired_and_starts, cancels_and_starts,
  cancels_current,
}

-- A request, with its room, its time, and the ids of the rows that it may make.
pub data Request : Type 0 where
  start_open : Fresh → Bool → String → Request
  lock draw spin start_settling : ℤ → String → Request
  settle : SettleIds → ℤ → String → Request
  cancel_expired : (String → String) → ℤ → String → String → Request
  cancel_expired_and_start : Fresh → (String → String) → Bool → Bool → String → String → Request
  cancel_and_start : Fresh → (String → String) → Bool → Bool → String → Request
  cancel : (String → String) → ℤ → String → Request
  place : Option FraudEvaluation → EntryRequest → Request

-- What a request leaves of the database, while other requests commit between its statements.
unfoldable pub serve : Env → (ℕ → Db → Db) → Request → Db → Db
serve env others (start_open fresh has_lock room_id) db =
    (start_open_round_for_room env fresh has_lock room_id db).1
serve env others (lock now room_id) db = (lock_current_round_for_room env now others room_id db).1
serve env others (draw now room_id) db = (draw_current_round_for_room env now others room_id db).1
serve env others (spin now room_id) db =
    (start_spinning_current_round_for_room now others room_id db).1
serve env others (start_settling now room_id) db =
    (start_settling_current_round_for_room now others room_id db).1
serve env others (settle ids now room_id) db =
    (settle_current_round_for_room ids now others room_id db).1
serve env others (cancel_expired ids now room_id round_id) db =
    (cancel_expired_open_round_for_room env ids now room_id round_id db).1
serve env others (cancel_expired_and_start fresh ids a b room_id round_id) db =
    (cancel_expired_open_round_and_start_next_for_room env fresh ids a b room_id round_id db).1
serve env others (cancel_and_start fresh ids a b room_id) db =
    (cancel_current_round_and_start_next_for_room env fresh ids a b room_id db).1
serve env others (cancel ids now room_id) db =
    (cancel_current_round_for_room env ids now others room_id db).1
serve env others (place fraud q) db = (place_entry_for_user fraud others q db).1

places :
    (start : List Round) (others : ℕ → Db → Db) (fraud : Option FraudEvaluation) (q : EntryRequest)
    → ((i : ℕ) (d : Db) → Kept start d → Kept start (others i d))
    → Holds (Kept start) (place_entry_for_user fraud others q)
places start others fraud q k =
    handles (Kept start) others k
      (λ args before low. record {
        kept = λ db h.
            pair IsSound (λ d. Follows start d.rounds)
              (write_entry_placement_in_transaction args before db)
              ((write_entry_placement-IsSound args before low).kept db h.0)
              ((keeps_rounds (Follows start) args before).kept db h.1);
      })
      fraud q

pub serve-Kept :
    (start : List Round) (env : Env) (others : ℕ → Db → Db) (q : Request) (db : Db)
    → ((i : ℕ) (d : Db) → Kept start d → Kept start (others i d))
    → Kept start db
    → Kept start (serve env others q db)
unfolding serve
serve-Kept start env others (start_open fresh has_lock room_id) db k =
    (starts_open start others k env fresh has_lock room_id).kept db
serve-Kept start env others (lock now room_id) db k =
    (locks_current start others k env now room_id).kept db
serve-Kept start env others (draw now room_id) db k =
    (draws_current start others k env now room_id).kept db
serve-Kept start env others (spin now room_id) db k = (spins start others k now room_id).kept db
serve-Kept start env others (start_settling now room_id) db k =
    (starts_settling start others k now room_id).kept db
serve-Kept start env others (settle ids now room_id) db k =
    (settles start others k ids now room_id).kept db
serve-Kept start env others (cancel_expired ids now room_id round_id) db k =
    (cancels_expired start others k env ids now room_id round_id).kept db
serve-Kept start env others (cancel_expired_and_start fresh ids a b room_id round_id) db k =
    (cancels_expired_and_starts start others k env fresh ids a b room_id round_id).kept db
serve-Kept start env others (cancel_and_start fresh ids a b room_id) db k =
    (cancels_and_starts start others k env fresh ids a b room_id).kept db
serve-Kept start env others (cancel ids now room_id) db k =
    (cancels_current start others k env ids now room_id).kept db
serve-Kept start env others (place fraud q) db k = (places start others fraud q k).kept db

-- Requests one after the other, each with what is committed between its statements.
unfoldable pub serve_all : Env → List (Request × (ℕ → Db → Db)) → Db → Db
unfolding serve
serve_all env [] db = db
serve_all env ((q, others) ∷ qs) db = serve_all env qs (serve env others q db)

-- Others only do what these requests do: whatever rounds a database has come on from, they keep its
-- money sound, and its rounds come on from them.
abbrev pub AreServed : (ℕ → Db → Db) → Type 0
AreServed others = (start : List Round) (i : ℕ) (d : Db) → Kept start d → Kept start (others i d)

serve_all-Kept :
    (start : List Round) (env : Env) (qs : List (Request × (ℕ → Db → Db))) (db : Db)
    → All (λ q. AreServed q.1) qs
    → Kept start db
    → Kept start (serve_all env qs db)
unfolding serve_all
serve_all-Kept start env [] db h k = k
serve_all-Kept start env ((q, others) ∷ qs) db h k =
    serve_all-Kept start env qs (serve env others q db) h.1
      (serve-Kept start env others q db (h.0 start) k)

-- Any sequence of requests on rounds, placements of entries included, among others of their kind,
-- leaves a sound database sound; and
-- every round is still there, with its room, its number, its seed and the commitment to the seed, in
-- a status that it reached by transitions of the state machine only.
pub requests-IsSound :
    (env : Env) (qs : List (Request × (ℕ → Db → Db))) (db : Db)
    → All (λ q. AreServed q.1) qs
    → IsSound db
    → IsSound (serve_all env qs db) × Follows db.rounds (serve_all env qs db).rounds
requests-IsSound env qs db h s = serve_all-Kept db.rounds env qs db h (s, Follows-refl db.rounds)
