-- ===== src/Engine/Proof/Flags.antt =====
-- What each flag of a verification says of the published data.
use mathlib.Core.Bool.{false≢true}
use kingspin.Prelude.{
  List, ap, ◌≡◌, refl, sym, ◌∙◌, inl, inr, Bool, true, false, ◌&&◌, String, Option, none, some,
  arith, Bool-cases, Option-cases,
}
use kingspin.Prelude.Int.{ℤ, pos, leb_ℤ, ==ℤ→eq, ==ℤ_self}
use kingspin.Prelude.Text.{opt_str_eq, is_empty, str_eq_iff, str_eq_self}
use kingspin.Prelude.Json.{to_lower_case, is_sha256_hex}
use kingspin.Prelude.Result.{Error, ok, err, Result-cases}
use kingspin.Engine.Ranges.{verify_ticket_ranges, TicketRange, find_range_by_winning_ticket}
use kingspin.Engine.Draw.{
  DrawInputParts, WinnerSelectionResult, Selection, fairness_algorithm, assert_draw_parts,
  select_winning_ticket, select_winner,
}
use kingspin.Engine.EntriesHash.{calculate_entries_hash}
use kingspin.Engine.Proof.{
  is_truthy, opt_int_eq, text_or_empty, with_hash, FairnessProofArgs, ranges_of, check_entries,
  recomputed_seed_hash, seed_matches, hash_matches, algorithm_is_known, draw_matches,
  ticket_matches, winner_is_inside, sha256_hex,
}

truthy_some :
    (o : Option String)
    → is_truthy o ≡ true
    → (o ≡ some (text_or_empty o)) × (is_empty (text_or_empty o) ≡ false)
truthy_some none h = cc
truthy_some (some s) h = (refl, ground arith)

pub same_text : (o : Option String) (s : String) → opt_str_eq o (some s) ≡ true → o ≡ some s
same_text none s h = cc
same_text (some t) s h = ap some ((str_eq_iff t s).0 h)

text_same : (s : String) (o : Option String) → opt_str_eq (some s) o ≡ true → o ≡ some s
text_same s none h = cc
text_same s (some t) h = ap some (sym ((str_eq_iff s t).0 h))

pub int_same : (n : ℤ) (o : Option ℤ) → opt_int_eq (some n) o ≡ true → o ≡ some n
int_same n none h = cc
int_same n (some m) h = ap some (sym (==ℤ→eq n m h))

same_int : (o : Option ℤ) (n : ℤ) → opt_int_eq o (some n) ≡ true → o ≡ some n
same_int none n h = cc
same_int (some m) n h = ap some (==ℤ→eq m n h)

pub hex_text : (s : String) → is_sha256_hex s ≡ true → is_empty s ≡ false
unfolding is_sha256_hex
hex_text s h = elim (Bool-cases (is_empty s)) [
  | inr fine ↦ fine
  | inl blank ↦ absurd (false≢true (rw ((str_eq_iff s "").0 blank) at h))
]

and_true : (a b : Bool) → (a && b) ≡ true → (a ≡ true) × (b ≡ true)
and_true true b h = (refl, h)
and_true false b h = cc

three_true : (a b c : Bool) → (a && b && c) ≡ true → (a ≡ true) × (b ≡ true) × (c ≡ true)
three_true true true c h = (refl, refl, h)
three_true true false c h = cc
three_true false b c h = cc

pub all_true :
    (a b c d e f g : Bool)
    → (a && b && c && d && e && f && g) ≡ true
    → (a ≡ true) × (b ≡ true) × (c ≡ true) × (d ≡ true) × (e ≡ true) × (f ≡ true) × (g ≡ true)
all_true true true true true true true g h = (refl, refl, refl, refl, refl, refl, h)
all_true false b c d e f g h = cc
all_true true false c d e f g h = cc
all_true true true false d e f g h = cc
all_true true true true false e f g h = cc
all_true true true true true false f g h = cc
all_true true true true true true false g h = cc

module _ (sha256 : String → String) (hmac : String → String → String) where
  -- The published data of a round whose seed, entry hash and draw are as told: the draw over the
  -- published entries gives the published ticket, digest, nonce and winner, and the two commitments
  -- are the digests of what they commit to.
  pub record IsHonest (args : FairnessProofArgs) (seed hash : String) (w : WinnerSelectionResult)
      : Type 0 where
    pub algorithm : args.algorithm ≡ some fairness_algorithm
    pub reveal : args.server_seed_reveal ≡ some seed
    pub commitment : args.server_seed_hash ≡ some (sha256 seed)
    pub committed : is_empty (sha256 seed) ≡ false
    pub entries_hash : args.entries_hash ≡ some hash
    pub recomputed : calculate_entries_hash sha256 args.entries ≡ ok (to_lower_case hash)
    pub draw :
        select_winner hmac (ranges_of args.entries) seed (with_hash args.draw_parts hash) ≡ ok w
    pub ticket : args.winning_ticket ≡ some w.winning_ticket
    pub draw_hash : args.draw_hash ≡ some w.draw_hash
    pub hashed : is_empty w.draw_hash ≡ false
    pub nonce : args.nonce_used ≡ some (pos w.nonce_used)
    pub winner : args.winner_entry_id ≡ some w.winner_range.id
    pub named : is_empty w.winner_range.id ≡ false
    pub covered :
        (verify_ticket_ranges
          (ranges_of args.entries)
          args.draw_parts.total_entry_amount).ranges_cover_total
        ≡ true

  pub check_ok :
      (args : FairnessProofArgs) (hash : String)
      → calculate_entries_hash sha256 args.entries ≡ ok hash
      → check_entries sha256 hmac args ≡ (
        some hash,
        verify_ticket_ranges (ranges_of args.entries) args.draw_parts.total_entry_amount,
      )
  unfolding check_entries
  check_ok args hash h = ground arith

  pub check_failed :
      (args : FairnessProofArgs) (e : Error)
      → calculate_entries_hash sha256 args.entries ≡ err e
      → ((check_entries sha256 hmac args).0 ≡ none)
        × ((check_entries sha256 hmac args).1.ranges_cover_total ≡ false)
  unfolding check_entries
  check_failed args e h = ground arith

  pub select_winner_parts :
      (ranges : List TicketRange) (seed : String) (parts : DrawInputParts)
      (w : WinnerSelectionResult)
      → select_winner hmac ranges seed parts ≡ ok w
      → (select_winning_ticket hmac seed parts ≡ ok w.selection)
        × (find_range_by_winning_ticket ranges w.winning_ticket ≡ some w.winner_range)
  unfolding select_winner
  select_winner_parts ranges seed parts w h =
      elim (Result-cases (select_winning_ticket hmac seed parts)) [
        | inr (e, q) ↦ ground arith
        | inl (s, q) ↦ elim (Option-cases (find_range_by_winning_ticket ranges s.winning_ticket)) [
          | inl n ↦ ground arith
          | inr (r, f) ↦ ground arith
        ]
      ]

  pub drawn_parts :
      (seed : String) (parts : DrawInputParts) (s : Selection)
      → select_winning_ticket hmac seed parts ≡ ok s
      → (is_empty seed ≡ false)
        × (leb_ℤ parts.total_entry_amount (pos 0) ≡ false)
        × (is_sha256_hex parts.entries_hash ≡ true)
  unfolding select_winning_ticket assert_draw_parts
  drawn_parts seed parts s h = elim (Bool-cases (is_sha256_hex parts.entries_hash)) [
    | inl hex ↦ (ground arith, ground arith, hex)
    | inr other ↦ ground arith
  ]

  inside_run :
      (args : FairnessProofArgs) (t : ℤ) (r : TicketRange)
      → args.winning_ticket ≡ some t
      → find_range_by_winning_ticket (ranges_of args.entries) t ≡ some r
      → winner_is_inside sha256 hmac args
        ≡ (is_truthy args.winner_entry_id && opt_str_eq (some r.id) args.winner_entry_id)
  unfolding winner_is_inside
  inside_run args t r h k = ground arith

  pub inside_cases :
      (args : FairnessProofArgs) (t : ℤ)
      → args.winning_ticket ≡ some t
      → winner_is_inside sha256 hmac args ≡ true
      → (r : TicketRange) × (find_range_by_winning_ticket (ranges_of args.entries) t ≡ some r)
        × (args.winner_entry_id ≡ some r.id)
        × (is_empty r.id ≡ false)
  unfolding winner_is_inside
  inside_cases args t h k =
      elim (Option-cases (find_range_by_winning_ticket (ranges_of args.entries) t)) [
        | inl out ↦ ground arith
        | inr (r, q) ↦
            let (a, b) =
              and_true (is_truthy args.winner_entry_id)
                (opt_str_eq (some r.id) args.winner_entry_id) (sym (inside_run args t r h q) ∙ k) in
            let id = text_same r.id args.winner_entry_id b in (r, q, id, ground arith)
      ]

  pub flags :
      (args : FairnessProofArgs) (seed hash : String) (w : WinnerSelectionResult)
      → IsHonest args seed hash w
      → (algorithm_is_known sha256 hmac args ≡ true)
        × (seed_matches sha256 hmac args ≡ true)
        × (hash_matches sha256 hmac args (some (to_lower_case hash)) ≡ true)
        × (draw_matches sha256 hmac args w.selection ≡ true)
        × (ticket_matches sha256 hmac args w.selection ≡ true)
        × (winner_is_inside sha256 hmac args ≡ true)
  unfolding algorithm_is_known seed_matches recomputed_seed_hash hash_matches draw_matches
      ticket_matches winner_is_inside sha256_hex
  flags args seed hash w h =
      let (drawn, found) =
        select_winner_parts (ranges_of args.entries) seed (with_hash args.draw_parts hash) w
          h.draw in
      let (seeded, _, hex) = drawn_parts seed (with_hash args.draw_parts hash) w.selection drawn in
      (
        rw h.algorithm (str_eq_self fairness_algorithm),
        rw (h.reveal, h.commitment) (ground (arith, str_eq_self (sha256 seed))),
        rw h.entries_hash (ground (arith, str_eq_self (to_lower_case hash), hex_text hash hex)),
        rw (h.draw_hash, h.nonce) (ground (arith, str_eq_self w.draw_hash, h.hashed)),
        rw h.ticket (==ℤ_self w.winning_ticket),
        inside_run args w.winning_ticket w.winner_range h.ticket found
            ∙ rw h.winner (ground (arith, str_eq_self w.winner_range.id, h.named)),
      )

  pub seed_matches_cases :
      (args : FairnessProofArgs)
      → seed_matches sha256 hmac args ≡ true
      → (args.server_seed_reveal ≡ some (text_or_empty args.server_seed_reveal))
        × (args.server_seed_hash ≡ some (sha256 (text_or_empty args.server_seed_reveal)))
        × (is_empty (sha256 (text_or_empty args.server_seed_reveal)) ≡ false)
  unfolding seed_matches recomputed_seed_hash sha256_hex
  seed_matches_cases args h =
      let seed = text_or_empty args.server_seed_reveal in
      let (a, b, c) =
        three_true (is_truthy args.server_seed_reveal) (is_truthy args.server_seed_hash)
          (opt_str_eq (recomputed_seed_hash sha256 hmac args) args.server_seed_hash) h in
      let same = text_same (sha256 seed) args.server_seed_hash (rw a at c) in
      (
        (truthy_some args.server_seed_reveal a).0,
        same,
        (truthy_some (some (sha256 seed)) (rw same at b)).1,
      )

  pub hash_matches_cases :
      (args : FairnessProofArgs) (own : Option String)
      → hash_matches sha256 hmac args own ≡ true
      → (args.entries_hash ≡ some (text_or_empty args.entries_hash))
        × (own ≡ some (to_lower_case (text_or_empty args.entries_hash)))
  unfolding hash_matches
  hash_matches_cases args own h =
      let lower = to_lower_case (text_or_empty args.entries_hash) in
      let (a, b) = and_true (is_truthy args.entries_hash) (opt_str_eq own (some lower)) h in
      ((truthy_some args.entries_hash a).0, same_text own lower b)

  pub draw_matches_cases :
      (args : FairnessProofArgs) (s : Selection)
      → draw_matches sha256 hmac args s ≡ true
      → (args.draw_hash ≡ some s.draw_hash)
        × (is_empty s.draw_hash ≡ false)
        × (args.nonce_used ≡ some (pos s.nonce_used))
  unfolding draw_matches
  draw_matches_cases args s h =
      let (a, b, c) =
        three_true (is_truthy args.draw_hash) (opt_str_eq args.draw_hash (some s.draw_hash))
          (opt_int_eq args.nonce_used (some (pos s.nonce_used))) h in
      let same = same_text args.draw_hash s.draw_hash b in
      (
        same,
        (truthy_some (some s.draw_hash) (rw same at a)).1,
        same_int args.nonce_used (pos s.nonce_used) c,
      )
