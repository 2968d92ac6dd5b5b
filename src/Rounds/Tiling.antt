-- ===== src/Rounds/Tiling.antt =====
-- The tickets of a locked round cover its total.
use mathlib.Core.Path.{subst}
use kingspin.Prelude.{◌≡◌, refl, sym, ap, ◌∙◌, false, List, [], ◌∷◌, map, some, arith}
use kingspin.Prelude.Int.{ℤ, pos, ◌+ℤ◌, ◌-ℤ◌, ◌≤ℤ◌, leb_ℤ, ltb_ℤ, int_laws}
use kingspin.Prelude.Lists.{All}
use kingspin.Prelude.Text.{str_eq, str_eq_self}
use kingspin.Prelude.Result.{ok}
use kingspin.Store.Tables.{Entry}
use kingspin.Engine.EntriesHash.{FairnessEntry, assert_entry, assert_entries}
use kingspin.Engine.EntriesHash.Order.{assert_entries-iff-All}
use kingspin.Engine.Ranges.Cover.{Chain}
use kingspin.Engine.Proof.{ranges_of}
use kingspin.Rounds.Rows.{to_fairness_entries}
use kingspin.Rounds.Tickets.{Assignment, running, max_last, total_amount, assign}
use kingspin.Rounds.Assigned.{Distinct}

-- The entries with consecutive tickets from `c` on.
abbrev assigned : ℤ → List Entry → List Entry
assigned c [] = []
assigned c (e ∷ es) =
    record e { ticket_start = some c; ticket_end = some (c +ℤ e.amount -ℤ pos 1) }
    ∷ assigned (c +ℤ e.amount) es

-- What is published of them.
abbrev pub ticketed : ℤ → List Entry → List FairnessEntry
ticketed c [] = []
ticketed c (e ∷ es) =
    record {
      entry_id = e.id;
      user_id = e.user_id;
      amount = e.amount;
      ticket_start = c;
      ticket_end = c +ℤ e.amount -ℤ pos 1;
      round_id = e.round_id;
    }
    ∷ ticketed (c +ℤ e.amount) es

abbrev pool : List Entry → ℤ
pool [] = pos 0
pool (e ∷ es) = e.amount +ℤ pool es

assign_skip :
    (a : Assignment) (rows : List Assignment) (x : Entry)
    → str_eq a.entry_id x.id ≡ false
    → assign (a ∷ rows) x ≡ assign rows x
assign_skip a rows x h = ground arith

-- The row that a running sum makes for an entry.
abbrev row_of : ℤ → Entry → Assignment
row_of c e = record { entry_id = e.id; first_ticket = c; last_ticket = c +ℤ e.amount -ℤ pos 1 }

abbrev with_tickets : ℤ → Entry → Entry
with_tickets c e = record e { ticket_start = some c; ticket_end = some (c +ℤ e.amount -ℤ pos 1) }

assign_own :
    (c : ℤ) (e : Entry) (rows : List Assignment) → assign (row_of c e ∷ rows) e ≡ with_tickets c e
assign_own c e rows = ground (arith, str_eq_self e.id)

assign-other :
    (a : Assignment) (rows : List Assignment) (es : List Entry)
    → All (λ x. str_eq a.entry_id x.id ≡ false) es
    → map (assign (a ∷ rows)) es ≡ map (assign rows) es
assign-other a rows [] h = refl
assign-other a rows (x ∷ es) h =
    rw (assign_skip a rows x h.0) (ap (λ z. assign rows x ∷ z) (assign-other a rows es h.1))

assign-running :
    (c : ℤ) (es : List Entry) → Distinct es → map (assign (running c es)) es ≡ assigned c es
assign-running c [] h = refl
assign-running c (e ∷ es) h =
    ap (λ z. z ∷ map (assign (running c (e ∷ es))) es) (assign_own c e (running (c +ℤ e.amount) es))
    ∙ ap (λ z. with_tickets c e ∷ z)
        (assign-other (row_of c e) (running (c +ℤ e.amount) es) es h.0
          ∙ assign-running (c +ℤ e.amount) es h.1)

assigned-listed :
    (c : ℤ) (es : List Entry) → to_fairness_entries (assigned c es) ≡ ok (ticketed c es)
unfolding to_fairness_entries
assigned-listed c [] = refl
assigned-listed c (e ∷ es) = rw (assigned-listed (c +ℤ e.amount) es) refl

-- After the assignment the entries are listed with consecutive tickets.
pub running-listed :
    (es : List Entry)
    → Distinct es
    → to_fairness_entries (map (assign (running (pos 0) es)) es) ≡ ok (ticketed (pos 0) es)
running-listed es h =
    ap to_fairness_entries (assign-running (pos 0) es h) ∙ assigned-listed (pos 0) es

positive : (x : FairnessEntry) → assert_entry x ≡ ok tt → leb_ℤ x.amount (pos 0) ≡ false
unfolding assert_entry
positive x h = ground arith

abbrev AllPositive : List Entry → Type 0
AllPositive es = All (λ e. pos 1 ≤ℤ e.amount) es

-- Entries that pass the assertions of the hash have positive amounts.
pub asserted-positive :
    (c : ℤ) (es : List Entry) → assert_entries (ticketed c es) ≡ ok tt → AllPositive es
asserted-positive c es h = go c es ((assert_entries-iff-All (ticketed c es)).0 h)
  where
    go :
        (c : ℤ) (es : List Entry)
        → All (λ x. assert_entry x ≡ ok tt) (ticketed c es)
        → AllPositive es
    go c [] k = tt
    go c (e ∷ es) k = let more = positive _ k.0 in (ground arith, go (c +ℤ e.amount) es k.1)

pool_positive : (e : Entry) (es : List Entry) → AllPositive (e ∷ es) → pos 1 ≤ℤ pool (e ∷ es)
pool_positive e [] h = omega (int_laws, h.0)
pool_positive e (x ∷ es) h = omega (int_laws, h.0, pool_positive x es h.1)

ticketed-Chain :
    (c : ℤ) (es : List Entry) → AllPositive es → Chain c (ranges_of (ticketed c es)) (c +ℤ pool es)
ticketed-Chain c [] h = omega int_laws
ticketed-Chain c (e ∷ es) h =
    let next : c +ℤ e.amount -ℤ pos 1 +ℤ pos 1 ≡ c +ℤ e.amount = omega int_laws in
    let stop : c +ℤ e.amount +ℤ pool es ≡ c +ℤ (e.amount +ℤ pool es) = omega int_laws in
    (
      h.0,
      refl,
      refl,
      subst (λ z. Chain z (ranges_of (ticketed (c +ℤ e.amount) es)) (c +ℤ (e.amount +ℤ pool es)))
          (sym next)
          (subst (λ z. Chain (c +ℤ e.amount) (ranges_of (ticketed (c +ℤ e.amount) es)) z) stop
            (ticketed-Chain (c +ℤ e.amount) es h.1)),
    )

-- The last ticket of all is that of the last entry.
max_last-running :
    (c : ℤ) (e : Entry) (es : List Entry)
    → AllPositive (e ∷ es)
    → max_last
        (record { entry_id = e.id; first_ticket = c; last_ticket = c +ℤ e.amount -ℤ pos 1 })
        (running (c +ℤ e.amount) es)
      ≡ c +ℤ pool (e ∷ es) -ℤ pos 1
max_last-running c e [] h = omega int_laws
max_last-running c e (x ∷ es) h =
    let rest = max_last-running (c +ℤ e.amount) x es h.1 in
    let more = pool_positive x es h.1 in
    let low : c +ℤ e.amount -ℤ pos 1 ≤ℤ c +ℤ e.amount +ℤ pool (x ∷ es) -ℤ pos 1 =
      omega (int_laws, more) in
    let later : ltb_ℤ (c +ℤ e.amount +ℤ pool (x ∷ es) -ℤ pos 1) (c +ℤ e.amount -ℤ pos 1) ≡ false =
      ground arith in
    rw (rest, later) (omega int_laws)

total-pool : (es : List Entry) → AllPositive es → total_amount (running (pos 0) es) ≡ pool es
total-pool [] h = refl
total-pool (e ∷ es) h = rw (max_last-running (pos 0) e es h) (omega int_laws)

-- The ranges of the entries lie one behind the other from 0 up to the total that the lock computes.
pub ticketed-covers :
    (es : List Entry)
    → AllPositive es
    → Chain (pos 0) (ranges_of (ticketed (pos 0) es)) (total_amount (running (pos 0) es))
ticketed-covers es h =
    let stop : pos 0 +ℤ pool es ≡ total_amount (running (pos 0) es) =
      rw (total-pool es h) (omega int_laws) in
    subst (λ z. Chain (pos 0) (ranges_of (ticketed (pos 0) es)) z) stop
      (ticketed-Chain (pos 0) es h)
