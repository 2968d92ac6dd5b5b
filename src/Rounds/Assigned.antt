-- ===== src/Rounds/Assigned.antt =====
-- The tickets that a lock assigns: the entries of the round, in their order, own consecutive ranges.
use kingspin.Prelude.{
  ◌≡◌, refl, ap, ◌∙◌, Bool, false, ⊤, String, List, [], ◌∷◌, map, arith, inl, inr, Bool-cases,
  Option-cases,
}
use kingspin.Prelude.Lists.{All, find, select}
use kingspin.Prelude.Text.{str_eq}
use kingspin.Store.Sound.Post.{str_eq_sym}
use kingspin.Store.Tables.{Entry, Db}
use kingspin.Rounds.Rows.{Env, entry_of_round, entry_before, insert_entry, sort_entries, entries_in}
use kingspin.Rounds.Tickets.{Assignment, assign}

-- No two entries have one id.
abbrev pub Distinct : List Entry → Type 0
Distinct [] = ⊤
Distinct (e ∷ es) = All (λ x. str_eq e.id x.id ≡ false) es × Distinct es

-- What an assignment leaves of an entry.
pub assign_keys :
    (rows : List Assignment) (e : Entry)
    → ((assign rows e).id ≡ e.id)
      × ((assign rows e).created_at ≡ e.created_at)
      × ((assign rows e).round_id ≡ e.round_id)
assign_keys rows e = elim (Option-cases (find (λ a. str_eq a.entry_id e.id) rows)) [
  | inl n ↦ ground arith
  | inr (a, q) ↦ ground arith
]

module _ (before : String → String → Bool) (rows : List Assignment) where
  insert-assign :
      (e : Entry) (es : List Entry)
      → insert_entry before (assign rows e) (map (assign rows) es)
        ≡ map (assign rows) (insert_entry before e es)
  insert-assign e [] = refl
  insert-assign e (x ∷ es) =
      let (a, b, _) = assign_keys rows e in
      let (c, d, _) = assign_keys rows x in
      let same : entry_before before (assign rows e) (assign rows x) ≡ entry_before before e x =
        rw (a, b, c, d) refl in
      elim (Bool-cases (entry_before before e x)) [
        | inl t ↦ rw (same, t) refl
        | inr t ↦ rw (same, t) (ap (λ z. assign rows x ∷ z) (insert-assign e es))
      ]

  sort-assign :
      (es : List Entry)
      → sort_entries before (map (assign rows) es) ≡ map (assign rows) (sort_entries before es)
  sort-assign [] = refl
  sort-assign (e ∷ es) =
      ap (insert_entry before (assign rows e)) (sort-assign es)
      ∙ insert-assign e (sort_entries before es)

select-assign :
    (rows : List Assignment) (id : String) (es : List Entry)
    → select (entry_of_round id) (map (assign rows) es)
      ≡ map (assign rows) (select (entry_of_round id) es)
select-assign rows id [] = refl
select-assign rows id (e ∷ es) =
    let same : entry_of_round id (assign rows e) ≡ entry_of_round id e =
      rw (assign_keys rows e).2 refl in
    elim (Bool-cases (entry_of_round id e)) [
      | inl t ↦ rw (same, t) (ap (λ z. assign rows e ∷ z) (select-assign rows id es))
      | inr t ↦ rw (same, t) (select-assign rows id es)
    ]

-- The entries of a round are read in the same order after the assignment.
pub entries_in-assign :
    (env : Env) (id : String) (rows : List Assignment) (db : Db)
    → entries_in env id (record db { round_entries = map (assign rows) db.round_entries })
      ≡ map (assign rows) (entries_in env id db)
entries_in-assign env id rows db =
    ap (sort_entries env.sorts_before) (select-assign rows id db.round_entries)
    ∙ sort-assign env.sorts_before rows (select (entry_of_round id) db.round_entries)

All-select :
    (P : Entry → Type 0) (p : Entry → Bool) (es : List Entry) → All P es → All P (select p es)
All-select P p [] h = tt
All-select P p (e ∷ es) h = elim (Bool-cases (p e)) [
  | inl t ↦ rw t (h.0, All-select P p es h.1)
  | inr t ↦ rw t (All-select P p es h.1)
]

All-insert :
    (P : Entry → Type 0) (before : String → String → Bool) (e : Entry) (es : List Entry)
    → P e
    → All P es
    → All P (insert_entry before e es)
All-insert P before e [] h k = (h, tt)
All-insert P before e (x ∷ es) h k = elim (Bool-cases (entry_before before e x)) [
  | inl t ↦ rw t (h, k)
  | inr t ↦ rw t (k.0, All-insert P before e es h k.1)
]

All-sort :
    (P : Entry → Type 0) (before : String → String → Bool) (es : List Entry)
    → All P es
    → All P (sort_entries before es)
All-sort P before [] h = tt
All-sort P before (e ∷ es) h =
    All-insert P before e (sort_entries before es) h.0 (All-sort P before es h.1)

Distinct-select : (p : Entry → Bool) (es : List Entry) → Distinct es → Distinct (select p es)
Distinct-select p [] h = tt
Distinct-select p (e ∷ es) h = elim (Bool-cases (p e)) [
  | inl t ↦ rw t (All-select _ p es h.0, Distinct-select p es h.1)
  | inr t ↦ rw t (Distinct-select p es h.1)
]

Distinct-insert :
    (before : String → String → Bool) (e : Entry) (es : List Entry)
    → All (λ x. str_eq e.id x.id ≡ false) es
    → Distinct es
    → Distinct (insert_entry before e es)
Distinct-insert before e [] h k = (tt, tt)
Distinct-insert before e (x ∷ es) h k = elim (Bool-cases (entry_before before e x)) [
  | inl t ↦ rw t (h, k)
  | inr t ↦ rw t (
    All-insert (λ y. str_eq x.id y.id ≡ false) before e es (str_eq_sym x.id e.id ∙ h.0) k.0,
    Distinct-insert before e es h.1 k.1,
  )
]

Distinct-sort :
    (before : String → String → Bool) (es : List Entry)
    → Distinct es
    → Distinct (sort_entries before es)
Distinct-sort before [] h = tt
Distinct-sort before (e ∷ es) h =
    Distinct-insert before e (sort_entries before es) (All-sort _ before es h.0)
      (Distinct-sort before es h.1)

pub Distinct-entries_in :
    (env : Env) (id : String) (db : Db)
    → Distinct db.round_entries
    → Distinct (entries_in env id db)
Distinct-entries_in env id db h =
    Distinct-sort env.sorts_before (select (entry_of_round id) db.round_entries)
      (Distinct-select (entry_of_round id) db.round_entries h)
