-- ===== src/Rounds/Drawable.antt =====
-- A round that was locked can be drawn.
use kingspin.Prelude.{
  ℕ, ◌<◌, ap, ◌≡◌, refl, sym, ◌∙◌, Bool, true, false, String, List, [], ◌∷◌, some, arith, inl, inr,
  Bool-cases, Option-cases,
}
use kingspin.Prelude.Int.{ℤ, pos, leb_ℤ, ◌*ℤ◌, ◌/ℤ◌, ◌≤ℤ◌, ◌<ℤ◌}
use kingspin.Prelude.Text.{str_eq_iff, str_eq_self, is_empty}
use kingspin.Prelude.Lists.{find, some_eq}
use kingspin.Prelude.Json.{to_lower_case}
use kingspin.Prelude.Result.{ok, Result-cases, ok_eq}
use kingspin.Store.Tables.{Round, Entry, Db}
use kingspin.Engine.Ranges.{TicketRange, holds_ticket, find_range_by_winning_ticket}
use kingspin.Engine.SpinAngle.{calculate_spin_angle}
use kingspin.Engine.EntriesHash.{FairnessEntry, calculate_entries_hash}
use kingspin.Engine.Draw.{
  max_safe_integer, acceptance_limit, assert_draw_parts, select_winner, WinnerSelectionResult,
  fairness_algorithm,
}
use kingspin.Engine.Draw.Ticket.{digest, select_winning_ticket_total}
use kingspin.Engine.Draw.Winner.{select_winner_total, winning_ticket_bounds}
use kingspin.Engine.Proof.Flags.{select_winner_parts}
use kingspin.Engine.Proof.{text_or_empty, ranges_of}
use kingspin.Rounds.Rows.{
  Env, entries_in, has_entry_id, range_ends, to_fairness_entries, to_ticket_ranges_from_entries,
}
use kingspin.Rounds.Tickets.{lock_tx, or_env}
use kingspin.Rounds.Payout.{calculate_winner_payout_amounts}
use kingspin.Rounds.Draw.{DrawData, prepare_draw, parts_of}
use kingspin.Rounds.LockOutcome.{lock_cases}
use kingspin.Rounds.Assigned.{Distinct}
use kingspin.Rounds.Honest.{IsDigest, hash-asserted, listed-ranges, lock-covers}

here :
    (e : Entry) (es : List Entry) (id : String)
    → has_entry_id id e ≡ true
    → find (has_entry_id id) (e ∷ es) ≡ some e
here e es id h = rw h refl

there :
    (e : Entry) (es : List Entry) (id : String) (x : Entry)
    → has_entry_id id e ≡ false
    → find (has_entry_id id) es ≡ some x
    → find (has_entry_id id) (e ∷ es) ≡ some x
there e es id x h found = rw h found

abbrev entry_of_range : Entry → ℤ → ℤ → FairnessEntry
entry_of_range e a b = record {
  entry_id = e.id;
  user_id = e.user_id;
  amount = e.amount;
  ticket_start = a;
  ticket_end = b;
  round_id = e.round_id;
}

-- A range belongs to an entry.
owner :
    (p : TicketRange → Bool) (es : List Entry) (fs : List FairnessEntry) (range : TicketRange)
    → to_fairness_entries es ≡ ok fs
    → find p (ranges_of fs) ≡ some range
    → (e : Entry) × (find (has_entry_id range.id) es ≡ some e)
unfolding to_fairness_entries
owner p [] fs range h k = cc (ap (λ z. find p (ranges_of z)) (ok_eq h), k)
owner p (e ∷ es) fs range h k = elim (Option-cases (range_ends e)) [
  | inl n ↦ ground arith
  | inr ((a, b), q) ↦ elim (Result-cases (to_fairness_entries es)) [
    | inr (x, m) ↦ ground arith
    | inl (rest, m) ↦
        let first : TicketRange = record {
          id = e.id;
          user_id = e.user_id;
          amount = e.amount;
          ticket_start = a;
          ticket_end = b;
        } in
        let head : to_fairness_entries (e ∷ es) ≡ ok (entry_of_range e a b ∷ rest) = ground arith in
        let listed : find p (first ∷ ranges_of rest) ≡ some range =
          ap (λ z. find p (ranges_of z)) (ok_eq (sym head ∙ h)) ∙ k in
        elim (Bool-cases (has_entry_id range.id e)) [
          | inl own ↦ (e, here e es range.id own)
          | inr other ↦ elim (Bool-cases (p first)) [
            | inl hit ↦
                let same : first ≡ range = some_eq (rw hit at listed) in
                (e, here e es range.id ((str_eq_iff e.id range.id).1 (ap (λ z. z.id) same)))
            | inr miss ↦
                let (x, found) = owner p es rest range m (rw miss at listed) in
                (x, there e es range.id x other found)
          ]
        ]
  ]
]

angle_of : (t n : ℤ) → pos 0 ≤ℤ t → t <ℤ n → (a : ℤ) × (calculate_spin_angle t n ≡ ok a)
unfolding calculate_spin_angle
angle_of t n h k = (t *ℤ pos 3_600_000 /ℤ n, ground arith)

-- What a preparation gives.
abbrev data_of : Env → Round → String → WinnerSelectionResult → Entry → ℤ → DrawData
data_of env r hash w x angle = record {
  entries_hash = hash;
  drawn = w;
  winner = x;
  spin_angle = angle;
  platform_fee_bps = or_env env r.platform_fee_bps;
  amounts =
      calculate_winner_payout_amounts r.total_entry_amount x.amount (or_env env r.platform_fee_bps);
}

-- The steps of a preparation, one after the other.
prepare_run :
    (env : Env) (r : Round) (es : List Entry) (fs : List FairnessEntry) (hash : String)
    (w : WinnerSelectionResult) (x : Entry) (angle : ℤ)
    → to_ticket_ranges_from_entries es ≡ ok (ranges_of fs)
    → to_fairness_entries es ≡ ok fs
    → calculate_entries_hash env.sha256 fs ≡ ok hash
    → r.entries_hash ≡ some hash
    → to_lower_case hash ≡ hash
    → r.fairness_algorithm ≡ some fairness_algorithm
    → select_winner env.hmac (ranges_of fs) (text_or_empty r.server_seed_reveal) (parts_of r hash)
      ≡ ok w
    → find (has_entry_id w.winner_range.id) es ≡ some x
    → calculate_spin_angle w.winning_ticket r.total_entry_amount ≡ ok angle
    → prepare_draw env r es ≡ ok (data_of env r hash w x angle)
unfolding prepare_draw
prepare_run env r es fs hash w x angle ranges listed hashed stated lower known drawn found turned =
    ground (arith, str_eq_self hash, str_eq_self fairness_algorithm)

-- A round that was locked can be drawn: with a seed, draw parts that the draw accepts and one nonce
-- below the limit of its loop whose digest is accepted, the preparation of the draw from the rows that
-- the lock left gives the data of a draw. This holds whenever no two entries have one id, and the
-- digests of the platform are texts that are not empty and have no capital letters.
pub locked-draws :
    (env : Env) (now : ℤ) (current : Round) (db : Db) (r : Round) (next : Db) (hash : String)
    (k : ℕ)
    → IsDigest env
    → Distinct db.round_entries
    → lock_tx env now current db ≡ ok (r, next)
    → r.entries_hash ≡ some hash
    → is_empty (text_or_empty r.server_seed_reveal) ≡ false
    → assert_draw_parts (parts_of r hash) ≡ ok tt
    → k < max_safe_integer
    → leb_ℤ
        (acceptance_limit r.total_entry_amount)
        (digest env.hmac (text_or_empty r.server_seed_reveal) (parts_of r hash) k)
      ≡ false
    → (d : DrawData) × (prepare_draw env r (entries_in env current.id next) ≡ ok d)
unfolding find_range_by_winning_ticket
locked-draws env now current db r next hash k digests distinct h stated seeded valid low hit =
    let es = entries_in env current.id next in
    let seed = text_or_empty r.server_seed_reveal in
    let (fs, listed, covered, (own, hashed, kept)) =
      lock-covers env now current db r next h distinct in
    let same : own ≡ hash = some_eq (sym kept ∙ stated) in
    let hashes : calculate_entries_hash env.sha256 fs ≡ ok hash = hashed ∙ ap ok same in
    let known : r.fairness_algorithm ≡ some fairness_algorithm =
      ap (λ z. z.fairness_algorithm) (lock_cases env now current db r next h).row in
    let (text, made) = (hash-asserted env.sha256 fs hash hashes).1 in
    let (s, picked) =
      select_winning_ticket_total env.hmac seed (parts_of r hash) k seeded valid low hit in
    let (range, drawn, holds, alone) =
      select_winner_total env.hmac seed (parts_of r hash) (ranges_of fs) s picked covered in
    let (above, below) = winning_ticket_bounds env.hmac seed (parts_of r hash) s picked in
    let (angle, turned) = angle_of s.winning_ticket r.total_entry_amount above below in
    let found =
      (select_winner_parts env.sha256 env.hmac (ranges_of fs) seed (parts_of r hash)
        (record { selection = s; winner_range = range }) drawn).1 in
    let (x, mine) = owner (holds_ticket s.winning_ticket) es fs range listed found in
    let w : WinnerSelectionResult = record { selection = s; winner_range = range } in
    (
      data_of env r hash w x angle,
      prepare_run env r es fs hash w x angle (listed-ranges es fs listed) listed hashes stated
          (rw made (digests.sha256_lower text)) known drawn mine turned,
    )
