-- ===== src/Engine/Proof/Branches.antt =====
-- The branches of a verification.
use mathlib.Core.Bool.{false≢true}
use kingspin.Prelude.{
  ap, ◌≡◌, sym, ◌∙◌, inl, inr, true, false, String, Option, some, arith, Bool-cases,
}
use kingspin.Prelude.Result.{Result, Error, ok, err, Result-cases, err-ne-ok, ok_eq}
use kingspin.Prelude.Lists.{some_eq}
use kingspin.Engine.Ranges.{verify_ticket_ranges, TicketRange, find_range_by_winning_ticket}
use kingspin.Engine.Draw.{Selection, select_winning_ticket, select_winner}
use kingspin.Engine.EntriesHash.{calculate_entries_hash}
use kingspin.Engine.Proof.{
  text_or_empty, with_hash, FairnessProofArgs, FairnessProofResult, ranges_of, check_entries,
  is_rejected_early, early_result, full_result, verify_fairness_proof,
}
use kingspin.Engine.Proof.Flags.{check_ok, check_failed}

module _ (sha256 : String → String) (hmac : String → String → String) where
  -- The entries' hash that the verification computes, and its check of their ranges.
  abbrev pub recomputed_of : FairnessProofArgs → Option String
  recomputed_of args = (check_entries sha256 hmac args).0

  abbrev pub selection_of : FairnessProofArgs → Result Selection
  selection_of args =
      select_winning_ticket hmac (text_or_empty args.server_seed_reveal)
        (with_hash args.draw_parts (text_or_empty args.entries_hash))

  pub verify_run :
      (args : FairnessProofArgs) (s : Selection)
      → is_rejected_early sha256 hmac args (recomputed_of args) ≡ false
      → selection_of args ≡ ok s
      → verify_fairness_proof sha256 hmac args
        ≡ ok
            (full_result sha256 hmac args (recomputed_of args) (check_entries sha256 hmac args).1 s)
  unfolding verify_fairness_proof
  verify_run args s h k = ground arith

  pub verify_early :
      (args : FairnessProofArgs)
      → is_rejected_early sha256 hmac args (recomputed_of args) ≡ true
      → verify_fairness_proof sha256 hmac args
        ≡ ok (early_result sha256 hmac args (recomputed_of args) (check_entries sha256 hmac args).1)
  unfolding verify_fairness_proof
  verify_early args h = ground arith

  pub verify_threw :
      (args : FairnessProofArgs) (e : Error)
      → is_rejected_early sha256 hmac args (recomputed_of args) ≡ false
      → selection_of args ≡ err e
      → verify_fairness_proof sha256 hmac args ≡ err e
  unfolding verify_fairness_proof
  verify_threw args e h k = ground arith

  -- A proof that is rejected early, or whose draw throws, does not pass.
  pub verify_cases :
      (args : FairnessProofArgs) (r : FairnessProofResult)
      → verify_fairness_proof sha256 hmac args ≡ ok r
      → r.verification_passed ≡ true
      → (s : Selection) × (is_rejected_early sha256 hmac args (recomputed_of args) ≡ false)
        × (selection_of args ≡ ok s)
        × (r
            ≡ full_result sha256 hmac args
                (recomputed_of args)
                (check_entries sha256 hmac args).1
                s)
  unfolding early_result
  verify_cases args r h p =
      elim (Bool-cases (is_rejected_early sha256 hmac args (recomputed_of args))) [
        | inl early ↦ absurd (
            false≢true
              (ap (λ z. z.verification_passed) (ok_eq (sym (verify_early args early) ∙ h)) ∙ p))
        | inr go ↦ elim (Result-cases (selection_of args)) [
          | inr (e, q) ↦ absurd (err-ne-ok (sym (verify_threw args e go q) ∙ h))
          | inl (s, q) ↦ (s, go, q, ok_eq (sym h ∙ verify_run args s go q))
        ]
      ]

  pub select_winner_run :
      (args : FairnessProofArgs) (seed hash : String) (s : Selection) (r : TicketRange)
      → select_winning_ticket hmac seed (with_hash args.draw_parts hash) ≡ ok s
      → find_range_by_winning_ticket (ranges_of args.entries) s.winning_ticket ≡ some r
      → select_winner hmac (ranges_of args.entries) seed (with_hash args.draw_parts hash)
        ≡ ok (record { selection = s; winner_range = r })
  unfolding select_winner
  select_winner_run args seed hash s r h k = ground arith

  -- The recomputed hash is that of the entries, and their ranges were checked.
  pub checked_entries :
      (args : FairnessProofArgs) (hash : String)
      → recomputed_of args ≡ some hash
      → (check_entries sha256 hmac args).1.ranges_cover_total ≡ true
      → (calculate_entries_hash sha256 args.entries ≡ ok hash)
        × ((verify_ticket_ranges
              (ranges_of args.entries)
              args.draw_parts.total_entry_amount).ranges_cover_total
            ≡ true)
  checked_entries args hash h k = elim (Result-cases (calculate_entries_hash sha256 args.entries)) [
    | inr (e, q) ↦ absurd (false≢true (sym (check_failed sha256 hmac args e q).1 ∙ k))
    | inl (own, q) ↦
        let run = check_ok sha256 hmac args own q in
        let same : own ≡ hash = some_eq (ap (λ z. z.0) (sym run) ∙ h) in
        (q ∙ ap ok same, ap (λ z. z.1.ranges_cover_total) (sym run) ∙ k)
  ]
