-- ===== src/Rounds/Rows.antt =====
-- The queries on rounds and their entries, and what the code reads off the rows
-- (apps/api/src/modules/rounds/rounds.service.ts).
use kingspin.Prelude.{
  ℕ, suc, Bool, ◌&&◌, ◌||◌, String, List, [], ◌∷◌, map, Option, none, some, if◌then◌else◌,
}
use kingspin.Prelude.Int.{ℤ, ltb_ℤ, ◌==ℤ◌}
use kingspin.Prelude.Lists.{find, select, any}
use kingspin.Prelude.Text.{str_eq, ◌<>◌}
use kingspin.Prelude.Result.{Result, ok, err, bad_request, record_not_found, ◌>>=◌}
use kingspin.Store.Tables.{Round, Entry, Db}
use kingspin.Store.Tx as Tx
use kingspin.Store.Tx.{Tx, gets}
use kingspin.Engine.Machine.{
  RoundStatus, open_round, locked, drawing, spinning, settling, status_eq,
}
use kingspin.Engine.Ranges.{TicketRange}
use kingspin.Engine.EntriesHash.{FairnessEntry}

-- What the service is set up with: the hashes of the platform, the order in which the database sorts
-- texts, and `PLATFORM_FEE_BPS`.
pub record Env : Type 0 where
  pub sha256 : String → String
  pub hmac : String → String → String
  pub sorts_before : String → String → Bool
  pub platform_fee_bps : ℤ

abbrev pub active_round_statuses : List RoundStatus
active_round_statuses = open_round ∷ locked ∷ drawing ∷ spinning ∷ settling ∷ []

abbrev pub cancellable_round_statuses : List RoundStatus
cancellable_round_statuses = open_round ∷ locked ∷ []

abbrev pub has_status : List RoundStatus → Round → Bool
has_status statuses r = any (status_eq r.status) statuses

-- `where: { id }`
abbrev pub is_round : String → Round → Bool
is_round id r = str_eq r.id id

-- `where: { roomId, status: { in } }`
abbrev pub in_room : String → List RoundStatus → Round → Bool
in_room room_id statuses r = str_eq r.room_id room_id && has_status statuses r

abbrev newer : Round → Option Round → Option Round
newer r none = some r
newer r (some s) = if ltb_ℤ s.round_number r.round_number then some r else some s

-- `findFirst` with `orderBy: { roundNumber: "desc" }`
abbrev pub latest : (Round → Bool) → List Round → Option Round
latest p [] = none
latest p (r ∷ rs) = if p r then newer r (latest p rs) else latest p rs

unfoldable pub find_latest_round : (Round → Bool) → Tx (Option Round)
find_latest_round p = gets λ db. latest p db.rounds

unfoldable pub find_round : String → Tx (Option Round)
find_round id = gets λ db. find (is_round id) db.rounds

unfoldable pub find_round_or_throw : String → Tx Round
unfolding find_round
find_round_or_throw id = Tx.◌>>=◌ (find_round id) (λ r. Tx.or_throw r record_not_found)

abbrev pub change : (Round → Bool) → (Round → Round) → Round → Round
change p f r = if p r then f r else r

abbrev pub count_rows : (Round → Bool) → List Round → ℕ
count_rows p [] = 0
count_rows p (r ∷ rs) = if p r then suc (count_rows p rs) else count_rows p rs

-- `updateMany`, which returns the number of rows it changed.
unfoldable pub update_rounds : (Round → Bool) → (Round → Round) → Tx ℕ
update_rounds p f =
    Tx.◌>>=◌ (gets λ db. count_rows p db.rounds)
      (λ n. Tx.◌>>◌ (Tx.modify λ db. record db { rounds = map (change p f) db.rounds }) (Tx.pure n))

-- `update`, of a round that has to be there.
unfoldable pub update_round : String → (Round → Round) → Tx Round
unfolding find_round_or_throw
update_round id f = Tx.◌>>=◌ (find_round_or_throw id) (λ r.
    Tx.◌>>◌ (Tx.modify λ db. record db { rounds = map (change (is_round id) f) db.rounds })
      (Tx.pure (f r)))

abbrev pub entry_of_round : String → Entry → Bool
entry_of_round round_id e = str_eq e.round_id round_id

-- `orderBy: [{ createdAt: "asc" }, { id: "asc" }]`
abbrev pub entry_before : (String → String → Bool) → Entry → Entry → Bool
entry_before sorts_before a b =
    ltb_ℤ a.created_at b.created_at
    || ((a.created_at ==ℤ b.created_at) && (str_eq a.id b.id || sorts_before a.id b.id))

abbrev pub insert_entry : (String → String → Bool) → Entry → List Entry → List Entry
insert_entry sorts_before e [] = e ∷ []
insert_entry sorts_before e (x ∷ xs) =
    if entry_before sorts_before e x then e ∷ x ∷ xs else x ∷ insert_entry sorts_before e xs

abbrev pub sort_entries : (String → String → Bool) → List Entry → List Entry
sort_entries sorts_before [] = []
sort_entries sorts_before (e ∷ es) = insert_entry sorts_before e (sort_entries sorts_before es)

-- The entries of a round in their order.
abbrev pub entries_in : Env → String → Db → List Entry
entries_in env round_id db =
    sort_entries env.sorts_before (select (entry_of_round round_id) db.round_entries)

unfoldable pub find_entries : Env → String → Tx (List Entry)
find_entries env round_id = gets λ db. entries_in env round_id db

abbrev pub has_entry_id : String → Entry → Bool
has_entry_id id e = str_eq e.id id

unfoldable pub find_entry : String → Tx (Option Entry)
find_entry id = gets λ db. find (has_entry_id id) db.round_entries

-- Both ends of an entry's range, if they were assigned.
abbrev pub range_ends : Entry → Option (ℤ × ℤ)
range_ends e = ends e.ticket_start e.ticket_end
  where
    ends : Option ℤ → Option ℤ → Option (ℤ × ℤ)
    ends (some a) (some b) = some (a, b)
    ends _ _ = none

unfoldable pub to_ticket_ranges_from_entries : List Entry → Result (List TicketRange)
to_ticket_ranges_from_entries [] = ok []
to_ticket_ranges_from_entries (e ∷ es) = elim (range_ends e) [
  | none ↦ err (bad_request ("Entry " <> e.id <> " is missing ticket range."))
  | some (a, b) ↦ to_ticket_ranges_from_entries es >>= λ rest. ok (
      record { id = e.id; user_id = e.user_id; amount = e.amount; ticket_start = a; ticket_end = b }
      ∷ rest)
]

unfoldable pub to_fairness_entries : List Entry → Result (List FairnessEntry)
to_fairness_entries [] = ok []
to_fairness_entries (e ∷ es) = elim (range_ends e) [
  | none ↦ err (bad_request ("Entry " <> e.id <> " is missing ticket range."))
  | some (a, b) ↦ to_fairness_entries es >>= λ rest. ok (
      record {
        entry_id = e.id;
        user_id = e.user_id;
        amount = e.amount;
        ticket_start = a;
        ticket_end = b;
        round_id = e.round_id;
      }
      ∷ rest)
]
