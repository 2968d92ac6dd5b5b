-- ===== src/Engine/Proof/Commitment.antt =====
-- What the hash of the entries commits to.
use mathlib.Core.List.{Permᴰ}
use kingspin.Prelude.{◌≡◌, true, String, List, [], ◌∷◌, arith}
use kingspin.Prelude.Int.{ℤ, pos, ◌+ℤ◌, ◌≤ℤ◌, ◌<ℤ◌, int_laws}
use kingspin.Prelude.Lists.{All, All-imp}
use kingspin.Prelude.Result.{ok}
use kingspin.Engine.Ranges.{verify_ticket_ranges}
use kingspin.Engine.Ranges.Cover.{Chain, verify-iff-Chain}
use kingspin.Engine.Ranges.Winner.{end_parts}
use kingspin.Engine.EntriesHash.{FairnessEntry, calculate_entries_hash}
use kingspin.Engine.EntriesHash.Order.{IsApart, AllApart, hash-Perm}
use kingspin.Engine.Proof.{ranges_of}

-- Every range of a chain starts at the cursor or behind it.
Chain-starts :
    (c : ℤ) (es : List FairnessEntry) (stop : ℤ)
    → Chain c (ranges_of es) stop
    → All (λ e. c ≤ℤ e.ticket_start) es
Chain-starts c [] stop h = tt
Chain-starts c (e ∷ es) stop h =
    let rest = Chain-starts (e.ticket_end +ℤ pos 1) es stop h.3 in
    (
      rw h.1 (omega arith),
      All-imp (λ x. e.ticket_end +ℤ pos 1 ≤ℤ x.ticket_start) (λ x. c ≤ℤ x.ticket_start)
          (λ x k. omega (int_laws, end_parts c e.amount e.ticket_end h.2, h.0, k)) es rest,
    )

Chain-AllApart :
    (c : ℤ) (es : List FairnessEntry) (stop : ℤ) → Chain c (ranges_of es) stop → AllApart es
Chain-AllApart c [] stop h = tt
Chain-AllApart c (e ∷ es) stop h =
    let next = e.ticket_end +ℤ pos 1 in
    let later : e.ticket_start <ℤ next =
      rw h.1 (omega (int_laws, end_parts c e.amount e.ticket_end h.2, h.0)) in
    (
      All-imp (λ x. next ≤ℤ x.ticket_start) (IsApart e) (λ x k. ground arith) es
          (Chain-starts next es stop h.3),
      Chain-AllApart next es stop h.3,
    )

module _ (sha256 : String → String) where
  -- The hash commits to the entries and not to the order in which they are read: once the ranges of
  -- the entries cover a total, any other order of the same entries has the same hash.
  pub hash_any_order :
      (entries read : List FairnessEntry) (total : ℤ) (hash : String)
      → (verify_ticket_ranges (ranges_of entries) total).ranges_cover_total ≡ true
      → Permᴰ entries read
      → calculate_entries_hash sha256 entries ≡ ok hash
      → calculate_entries_hash sha256 read ≡ ok hash
  hash_any_order entries read total hash covered perm h =
      let chain = (verify-iff-Chain (ranges_of entries) total).0 covered in
      hash-Perm sha256 entries read hash (Chain-AllApart (pos 0) entries total chain) perm h
