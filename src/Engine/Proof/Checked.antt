-- ===== src/Engine/Proof/Checked.antt =====
-- What a verification that passes says, and which rounds pass.
use kingspin.Prelude.{ap, ◌≡◌, sym, ◌∙◌, ◌↔◌, true, false, String, arith}
use kingspin.Prelude.Json.{to_lower_case}
use kingspin.Prelude.Result.{ok}
use kingspin.Engine.Draw.{WinnerSelectionResult, fairness_algorithm}
use kingspin.Engine.Proof.{
  is_truthy, text_or_empty, with_hash, FairnessProofArgs, FairnessProofResult, ranges_of,
  check_entries, recomputed_seed_hash, seed_matches, hash_matches, algorithm_is_known,
  is_rejected_early, draw_matches, ticket_matches, winner_is_inside, full_result, sha256_hex,
  verify_fairness_proof,
}
use kingspin.Engine.Proof.Flags.{
  same_text, int_same, hex_text, all_true, check_ok, drawn_parts, inside_cases, flags,
  seed_matches_cases, hash_matches_cases, draw_matches_cases, select_winner_parts, IsHonest,
}
use kingspin.Engine.Proof.Branches.{
  recomputed_of, selection_of, verify_run, verify_cases, select_winner_run, checked_entries,
}

module _ (sha256 : String → String) (hmac : String → String → String) where
  honest-passes :
      (args : FairnessProofArgs) (seed hash : String) (w : WinnerSelectionResult)
      → IsHonest sha256 hmac args seed hash w
      → (r : FairnessProofResult) × (verify_fairness_proof sha256 hmac args ≡ ok r)
        × (r.verification_passed ≡ true)
  unfolding full_result is_rejected_early
  honest-passes args seed hash w h =
      let (known, seeds, hashes, drawn, tickets, inside) = flags sha256 hmac args seed hash w h in
      let checked = check_ok sha256 hmac args (to_lower_case hash) h.recomputed in
      let (picked, found) =
        select_winner_parts sha256 hmac (ranges_of args.entries) seed
          (with_hash args.draw_parts hash) w h.draw in
      let (seeded, positive, hex) =
        drawn_parts sha256 hmac seed (with_hash args.draw_parts hash) w.selection picked in
      let revealed : is_truthy args.server_seed_reveal ≡ true =
        rw h.reveal (ground (arith, seeded)) in
      let committed : is_truthy args.server_seed_hash ≡ true =
        rw h.commitment (ground (arith, h.committed)) in
      let hashed : is_truthy args.entries_hash ≡ true =
        rw h.entries_hash (ground (arith, hex_text hash hex)) in
      let same : hash_matches sha256 hmac args (recomputed_of sha256 hmac args) ≡ true =
        ap (λ z. hash_matches sha256 hmac args z.0) checked ∙ hashes in
      let covers = ap (λ z. z.1.ranges_cover_total) checked ∙ h.covered in
      let go : is_rejected_early sha256 hmac args (recomputed_of sha256 hmac args) ≡ false =
        rw (known, same, revealed, committed, hashed) (ground (arith, positive)) in
      let chosen : selection_of sha256 hmac args ≡ ok w.selection =
        rw (h.reveal, h.entries_hash) picked in
      (
        full_result sha256 hmac args (recomputed_of sha256 hmac args)
            (check_entries sha256 hmac args).1 w.selection,
        verify_run sha256 hmac args w.selection go chosen,
        rw (known, seeds, same, drawn, tickets, inside) covers,
      )

  passes-IsHonest :
      (args : FairnessProofArgs) (r : FairnessProofResult)
      → verify_fairness_proof sha256 hmac args ≡ ok r
      → r.verification_passed ≡ true
      → (seed hash : String) × (w : WinnerSelectionResult) × IsHonest sha256 hmac args seed hash w
  unfolding full_result algorithm_is_known seed_matches recomputed_seed_hash hash_matches
      draw_matches ticket_matches sha256_hex
  passes-IsHonest args r h p =
      let (s, go, picked, e) = verify_cases sha256 hmac args r h p in
      let seed = text_or_empty args.server_seed_reveal in
      let hash = text_or_empty args.entries_hash in
      let full = ap (λ z. z.verification_passed) (sym e) ∙ p in
      let (known, seeds, hashes, draws, tickets, inside, covers) =
        all_true (algorithm_is_known sha256 hmac args) (seed_matches sha256 hmac args)
          (hash_matches sha256 hmac args (recomputed_of sha256 hmac args))
          (draw_matches sha256 hmac args s) (ticket_matches sha256 hmac args s)
          (winner_is_inside sha256 hmac args) (check_entries sha256 hmac args).1.ranges_cover_total
          full in
      let (reveal, commitment, committed) = seed_matches_cases sha256 hmac args seeds in
      let (stated, own) =
        hash_matches_cases sha256 hmac args (recomputed_of sha256 hmac args) hashes in
      let (recomputed, covered) =
        checked_entries sha256 hmac args (to_lower_case hash) own covers in
      let (digest, hashed, nonce) = draw_matches_cases sha256 hmac args s draws in
      let ticket = int_same s.winning_ticket args.winning_ticket tickets in
      let (range, found, winner, named) =
        inside_cases sha256 hmac args s.winning_ticket ticket inside in
      (
        seed,
        hash,
        record { selection = s; winner_range = range },
        record {
          algorithm = same_text args.algorithm fairness_algorithm known;
          reveal = reveal;
          commitment = commitment;
          committed = committed;
          entries_hash = stated;
          recomputed = recomputed;
          draw = select_winner_run sha256 hmac args seed hash s range picked found;
          ticket = ticket;
          draw_hash = digest;
          hashed = hashed;
          nonce = nonce;
          winner = winner;
          named = named;
          covered = covered;
        },
      )

  -- The verification of a published round passes exactly for an honest one: the known algorithm, a
  -- seed and an entry list whose digests are the two commitments, ranges that cover the total, and
  -- the digest, nonce, ticket and winner that the draw over these entries gives.
  pub verify-iff-IsHonest :
      (args : FairnessProofArgs)
      → ((r : FairnessProofResult) × (verify_fairness_proof sha256 hmac args ≡ ok r)
          × (r.verification_passed ≡ true))
        ↔ ((seed hash : String) × (w : WinnerSelectionResult) × IsHonest sha256 hmac args seed hash
              w)
  verify-iff-IsHonest args =
      (λ h. passes-IsHonest args h.0 h.1 h.2, λ h. honest-passes args h.0 h.1 h.2 h.3)
