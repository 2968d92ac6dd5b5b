-- ===== src/Rounds/Honest.antt =====
-- A round that is locked and drawn by the service passes the verification that is published with it.
use mathlib.Core.Path.{subst}
use kingspin.Prelude.{
  ◌≡◌, refl, sym, ap, ◌∙◌, true, false, ⊤, String, List, [], ◌∷◌, map, some, arith, inl, inr,
  Bool-cases, Option-cases,
}
use kingspin.Prelude.Int.{ℤ, pos}
use kingspin.Prelude.Lists.{All, find, select, All-find, every}
use kingspin.Prelude.Text.{is_empty, str_eq_iff}
use kingspin.Prelude.Json.{to_lower_case}
use kingspin.Prelude.Result.{ok, Result-cases, err-ne-ok, ok_eq}
use kingspin.Store.Tables.{Round, Entry, Db}
use kingspin.Engine.Ranges.{verify_ticket_ranges, find_range_by_winning_ticket, holds_ticket}
use kingspin.Engine.Ranges.Cover.{Chain, verify-iff-Chain}
use kingspin.Engine.Draw.{select_winner}
use kingspin.Engine.EntriesHash.{
  FairnessEntry, assert_entry, assert_entries, calculate_entries_hash, canonicalize_entries,
}
use kingspin.Engine.EntriesHash.Order.{assert_entries-iff-All}
use kingspin.Engine.Proof.{FairnessProofResult, ranges_of, text_or_empty}
use kingspin.Engine.Draw.Ticket.{select_winning_ticket-IsDrawn}
use kingspin.Engine.Proof.Flags.{select_winner_parts, IsHonest}
use kingspin.Engine.Proof.Checked.{verify-iff-IsHonest}
use kingspin.Rounds.Rows.{
  Env, range_ends, has_entry_id, entries_in, entry_of_round, sort_entries,
  to_ticket_ranges_from_entries, to_fairness_entries,
}
use kingspin.Rounds.Tickets.{running, total_amount, assign, lock_tx}
use kingspin.Rounds.Draw.{DrawData, prepare_draw, parts_of, set_drawn, mark_winner}
use kingspin.Rounds.Advance.{set_spinning, set_settling}
use kingspin.Rounds.Settle.{set_completed}
use kingspin.Rounds.Published.{published_entries, proof_args, published_proof}
use kingspin.Rounds.LockOutcome.{lock_cases}
use kingspin.Rounds.Assigned.{Distinct, Distinct-entries_in, entries_in-assign}
use kingspin.Rounds.Tiling.{ticketed, running-listed, asserted-positive, ticketed-covers}

-- The texts that the platform's digests are: neither is empty, and a digest has no capital letters.
pub record IsDigest (env : Env) : Type 0 where
  pub sha256_lower : (s : String) → to_lower_case (env.sha256 s) ≡ env.sha256 s
  pub sha256_text : (s : String) → is_empty (env.sha256 s) ≡ false
  pub hmac_text : (k s : String) → is_empty (env.hmac k s) ≡ false

pub hash-asserted :
    (sha256 : String → String) (fs : List FairnessEntry) (hash : String)
    → calculate_entries_hash sha256 fs ≡ ok hash
    → (assert_entries fs ≡ ok tt) × ((text : String) × (hash ≡ sha256 text))
unfolding calculate_entries_hash canonicalize_entries
hash-asserted sha256 fs hash h = elim (Result-cases (assert_entries fs)) [
  | inr (e, q) ↦ absurd (err-ne-ok (rw q at h))
  | inl (u, q) ↦ (q, (_, ok_eq (sym (rw q at h))))
]

-- What is drawn from is what is published.
listed-published :
    (es : List Entry) (fs : List FairnessEntry)
    → to_fairness_entries es ≡ ok fs
    → published_entries es ≡ fs
unfolding to_fairness_entries published_entries
listed-published [] fs h = ok_eq h
listed-published (e ∷ es) fs h = elim (Option-cases (range_ends e)) [
  | inl n ↦ ground arith
  | inr ((a, b), q) ↦ elim (Result-cases (to_fairness_entries es)) [
    | inr (x, k) ↦ ground arith
    | inl (rest, k) ↦ ground (arith, listed-published es rest k)
  ]
]

pub listed-ranges :
    (es : List Entry) (fs : List FairnessEntry)
    → to_fairness_entries es ≡ ok fs
    → to_ticket_ranges_from_entries es ≡ ok (ranges_of fs)
unfolding to_fairness_entries to_ticket_ranges_from_entries
listed-ranges [] fs h = ap (λ z. ok (ranges_of z)) (ok_eq h)
listed-ranges (e ∷ es) fs h = elim (Option-cases (range_ends e)) [
  | inl n ↦ ground arith
  | inr ((a, b), q) ↦ elim (Result-cases (to_fairness_entries es)) [
    | inr (x, k) ↦ ground arith
    | inl (rest, k) ↦ ground (arith, listed-ranges es rest k)
  ]
]

-- The mark of the winner is not part of it.
marked-published :
    (id : String) (es : List Entry)
    → published_entries (map (mark_winner id) es) ≡ published_entries es
unfolding published_entries
marked-published id [] = refl
marked-published id (e ∷ es) = elim (Bool-cases (has_entry_id id e)) [
  | inl t ↦ ground (arith, marked-published id es)
  | inr t ↦ ground (arith, marked-published id es)
]

-- What the preparation of a draw has computed.
record IsPrepared (env : Env) (r : Round) (es : List Entry) (fs : List FairnessEntry) (d : DrawData)
    : Type 0 where
  hashed : calculate_entries_hash env.sha256 fs ≡ ok d.entries_hash
  drawn :
      select_winner env.hmac
        (ranges_of fs)
        (text_or_empty r.server_seed_reveal)
        (parts_of r d.entries_hash)
      ≡ ok d.drawn
  winner : find (has_entry_id d.drawn.winner_range.id) es ≡ some d.winner

prepare_cases :
    (env : Env) (r : Round) (es : List Entry) (fs : List FairnessEntry) (d : DrawData)
    → to_fairness_entries es ≡ ok fs
    → prepare_draw env r es ≡ ok d
    → IsPrepared env r es fs d
unfolding prepare_draw
prepare_cases env r es fs d listed h =
    let ranges = listed-ranges es fs listed in
    elim (Result-cases (calculate_entries_hash env.sha256 fs)) [
      | inr (e, k) ↦ ground arith
      | inl (hash, k) ↦
          elim (Result-cases (
            select_winner env.hmac (ranges_of fs) (text_or_empty r.server_seed_reveal)
              (parts_of r hash))) [
                | inr (e, p) ↦ ground arith
                | inl (w, p) ↦ elim (Option-cases (find (has_entry_id w.winner_range.id) es)) [
                  | inl n ↦ ground arith
                  | inr (x, f) ↦ record {
                    hashed = ground arith;
                    drawn = ground arith;
                    winner = ground arith;
                  }
                ]
              ]
    ]

-- The row of a round that was drawn, spun, settled and completed.
abbrev pub completed_row : ℤ → ℤ → ℤ → ℤ → DrawData → Round → Round
completed_row drawing_at spinning_at settling_at completed_at d r =
    set_completed completed_at
      (set_settling settling_at (set_spinning spinning_at (set_drawn drawing_at d r)))

named_entry : (x : FairnessEntry) → assert_entry x ≡ ok tt → is_empty x.entry_id ≡ false
unfolding assert_entry
named_entry x h = ground arith

named_ranges :
    (fs : List FairnessEntry)
    → All (λ x. assert_entry x ≡ ok tt) fs
    → All (λ r. is_empty r.id ≡ false) (ranges_of fs)
named_ranges [] h = tt
named_ranges (x ∷ fs) h = (named_entry x h.0, named_ranges fs h.1)

module _ (env : Env) (digests : IsDigest env) (r : Round) (es : List Entry)
    (fs : List FairnessEntry) (d : DrawData) (seed : String)
    (listed : to_fairness_entries es ≡ ok fs) (prepared : prepare_draw env r es ≡ ok d)
    (reveal : r.server_seed_reveal ≡ some seed)
    (commitment : r.server_seed_hash ≡ some (env.sha256 seed)) where
  parts : IsPrepared env r es fs d
  parts = prepare_cases env r es fs d listed prepared

  chosen : select_winner env.hmac (ranges_of fs) seed (parts_of r d.entries_hash) ≡ ok d.drawn
  chosen =
      subst
        (λ z.
          select_winner env.hmac (ranges_of fs) (text_or_empty z) (parts_of r d.entries_hash)
          ≡ ok d.drawn)
        reveal parts.drawn

  lower : to_lower_case d.entries_hash ≡ d.entries_hash
  lower =
      let (text, e) = (hash-asserted env.sha256 fs d.entries_hash parts.hashed).1 in
      rw e (digests.sha256_lower text)

  found-winner :
      (find_range_by_winning_ticket (ranges_of fs) d.drawn.winning_ticket
        ≡ some d.drawn.winner_range)
      × (is_empty d.drawn.draw_hash ≡ false)
  found-winner =
      let (picked, found) =
        select_winner_parts env.sha256 env.hmac (ranges_of fs) seed (parts_of r d.entries_hash)
          d.drawn chosen in
      let drawn =
        select_winning_ticket-IsDrawn env.hmac seed (parts_of r d.entries_hash) d.drawn.selection
          picked in
      (found, ap is_empty drawn.0.hash ∙ digests.hmac_text _ _)

  winner_id : d.winner.id ≡ d.drawn.winner_range.id
  winner_id =
      (str_eq_iff d.winner.id d.drawn.winner_range.id).0
        (All-find (λ x. ⊤) (has_entry_id d.drawn.winner_range.id) es (every es) parts.winner).1

  named : is_empty d.drawn.winner_range.id ≡ false
  unfolding find_range_by_winning_ticket
  named =
      let asserted =
        (assert_entries-iff-All fs).0 (hash-asserted env.sha256 fs d.entries_hash parts.hashed).0 in
      (All-find (λ x. is_empty x.id ≡ false) (holds_ticket d.drawn.winning_ticket) (ranges_of fs)
        (named_ranges fs asserted) found-winner.0).0

  honest :
      (t1 t2 t3 t4 : ℤ)
      → (verify_ticket_ranges (ranges_of fs) r.total_entry_amount).ranges_cover_total ≡ true
      → IsHonest env.sha256 env.hmac
          (proof_args (completed_row t1 t2 t3 t4 d r) (map (mark_winner d.winner.id) es))
          seed
          d.entries_hash
          d.drawn
  unfolding proof_args
  honest t1 t2 t3 t4 covered =
      let same = marked-published d.winner.id es ∙ listed-published es fs listed in
      record {
        algorithm = refl;
        reveal = reveal;
        commitment = commitment;
        committed = digests.sha256_text seed;
        entries_hash = refl;
        recomputed = rw (same, lower) parts.hashed;
        draw = rw same chosen;
        ticket = refl;
        draw_hash = refl;
        hashed = found-winner.1;
        nonce = refl;
        winner = ap some winner_id;
        named = named;
        covered = rw same covered;
      }

-- A lock that is committed, of a database no two of whose entries have one id, leaves every entry of the
-- round with tickets; their ranges cover the total of the round's row, and the row holds their hash.
pub lock-covers :
    (env : Env) (now : ℤ) (current : Round) (db : Db) (r : Round) (next : Db)
    → lock_tx env now current db ≡ ok (r, next)
    → Distinct db.round_entries
    → (fs : List FairnessEntry) × (to_fairness_entries (entries_in env current.id next) ≡ ok fs)
      × ((verify_ticket_ranges (ranges_of fs) r.total_entry_amount).ranges_cover_total ≡ true)
      × ((hash : String) × (calculate_entries_hash env.sha256 fs ≡ ok hash)
          × (r.entries_hash ≡ some hash))
lock-covers env now current db r next h distinct =
    let l = lock_cases env now current db r next h in
    let before = entries_in env current.id db in
    let reread : entries_in env current.id next ≡ map (assign (running (pos 0) before)) before =
      ap (λ z. sort_entries env.sorts_before (select (entry_of_round current.id) z)) l.rows
      ∙ entries_in-assign env current.id (running (pos 0) before) db in
    let own = running-listed before (Distinct-entries_in env current.id db distinct) in
    let same : l.entries ≡ ticketed (pos 0) before = ok_eq (
      sym l.listed
      ∙ ap to_fairness_entries (entries_in-assign env current.id (running (pos 0) before) db)
      ∙ own) in
    let hashed : calculate_entries_hash env.sha256 (ticketed (pos 0) before) ≡ ok l.hash =
      ap (calculate_entries_hash env.sha256) (sym same) ∙ l.hashed in
    let amounts =
      asserted-positive (pos 0) before
        (hash-asserted env.sha256 (ticketed (pos 0) before) l.hash hashed).0 in
    let total : r.total_entry_amount ≡ total_amount (running (pos 0) before) =
      ap (λ z. z.total_entry_amount) l.row in
    (
      ticketed (pos 0) before,
      ap to_fairness_entries reread ∙ own,
      (verify-iff-Chain (ranges_of (ticketed (pos 0) before)) r.total_entry_amount).1 (
          subst (λ z. Chain (pos 0) (ranges_of (ticketed (pos 0) before)) z) (sym total)
            (ticketed-covers before amounts)),
      (l.hash, hashed, ap (λ z. z.entries_hash) l.row),
    )

-- The service is provably fair: when a round is locked, and drawn from the rows that the lock left,
-- and then spun, settled and completed, the proof that is published with it passes. This holds for
-- every round with a seed and the commitment to it, whenever no two entries have one id and the
-- digests of the platform are texts that are not empty and have no capital letters.
pub locked-and-drawn-verifies :
    (env : Env) (now t1 t2 t3 t4 : ℤ) (current : Round) (db : Db) (r : Round) (next : Db)
    (d : DrawData) (seed : String)
    → IsDigest env
    → Distinct db.round_entries
    → lock_tx env now current db ≡ ok (r, next)
    → prepare_draw env r (entries_in env current.id next) ≡ ok d
    → r.server_seed_reveal ≡ some seed
    → r.server_seed_hash ≡ some (env.sha256 seed)
    → (proof : FairnessProofResult) × (published_proof env
          (completed_row t1 t2 t3 t4 d r)
          (map (mark_winner d.winner.id) (entries_in env current.id next))
        ≡ ok proof)
      × (proof.verification_passed ≡ true)
unfolding published_proof
locked-and-drawn-verifies env now t1 t2 t3 t4 current db r next d seed digests distinct h drawn
      reveal commitment =
    let es = entries_in env current.id next in
    let (fs, listed, covered, rest) = lock-covers env now current db r next h distinct in
    (verify-iff-IsHonest env.sha256 env.hmac
        (proof_args (completed_row t1 t2 t3 t4 d r) (map (mark_winner d.winner.id) es))).1
      (
        seed,
        d.entries_hash,
        d.drawn,
        honest env digests r es fs d seed listed drawn reveal commitment t1 t2 t3 t4 covered,
      )
