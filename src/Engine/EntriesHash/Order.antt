-- ===== src/Engine/EntriesHash/Order.antt =====
-- The order in which the entries are given does not change their hash.
use mathlib.Core.List.{Permᴰ}
use mathlib.Core.Path.{subst}
use mathlib.Core.Bool.{false≢true}
use kingspin.Prelude.{
  ⊤, ◌≡◌, refl, sym, ap, ◌∙◌, ◌↔◌, Bool, true, false, not, String, List, [], ◌∷◌, inl, inr, arith,
  Bool-cases,
}
use kingspin.Prelude.Int.{pos, leb_ℤ, ◌==ℤ◌}
use kingspin.Prelude.Lists.{All}
use kingspin.Prelude.Result.{ok, Result-cases, err-ne-ok}
use kingspin.Engine.EntriesHash.{
  FairnessEntry, compare_entries, assert_entry, assert_entries, insert, sort, canonicalize_entries,
  calculate_entries_hash,
}

-- The two entries do not start at the same ticket.
abbrev pub IsApart : FairnessEntry → FairnessEntry → Type 0
IsApart x y = (x.ticket_start ==ℤ y.ticket_start) ≡ false

abbrev pub AllApart : List FairnessEntry → Type 0
AllApart [] = ⊤
AllApart (x ∷ xs) = All (IsApart x) xs × AllApart xs

IsApart-sym : (x y : FairnessEntry) → IsApart x y → IsApart y x
IsApart-sym x y h = ground arith

compare_apart :
    (x y : FairnessEntry)
    → IsApart x y
    → leb_ℤ (compare_entries x y) (pos 0) ≡ leb_ℤ x.ticket_start y.ticket_start
unfolding compare_entries
compare_apart x y h = ground arith

-- Whether `x` stands before `y` in the sorted list.
abbrev before : FairnessEntry → FairnessEntry → Bool
before x y = leb_ℤ (compare_entries x y) (pos 0)

before-not : (x y : FairnessEntry) → IsApart x y → before x y ≡ not (before y x)
before-not x y h =
    compare_apart x y h ∙ ground arith ∙ ap not (sym (compare_apart y x (IsApart-sym x y h)))

before_trans :
    (x y z : FairnessEntry)
    → IsApart x y
    → IsApart y z
    → IsApart x z
    → before x y ≡ true
    → before y z ≡ true
    → before x z ≡ true
before_trans x y z p q r h k =
    let a = sym (compare_apart x y p) ∙ h in
    let b = sym (compare_apart y z q) ∙ k in compare_apart x z r ∙ ground arith

insert-before :
    (x y : FairnessEntry) (l : List FairnessEntry)
    → before x y ≡ true
    → insert x (y ∷ l) ≡ x ∷ y ∷ l
unfolding insert
insert-before x y l h = ground arith

insert_after :
    (x y : FairnessEntry) (l : List FairnessEntry)
    → before x y ≡ false
    → insert x (y ∷ l) ≡ y ∷ insert x l
unfolding insert
insert_after x y l h = ground arith

insert_swap_le :
    (x y : FairnessEntry) (l : List FairnessEntry)
    → IsApart x y
    → All (IsApart x) l
    → All (IsApart y) l
    → before x y ≡ true
    → insert x (insert y l) ≡ insert y (insert x l)
unfolding insert
insert_swap_le x y [] p q r h = insert-before x y [] h ∙ sym (insert_after y x [] back)
  where
    back : before y x ≡ false
    back = before-not y x (IsApart-sym x y p) ∙ ap not h
insert_swap_le x y (z ∷ l) p q r h =
    let back : before y x ≡ false = before-not y x (IsApart-sym x y p) ∙ ap not h in
    elim (Bool-cases (before x z)) [
      | inl first ↦
          let right = ap (insert y) (insert-before x z l first) ∙ insert_after y x (z ∷ l) back in
          elim (Bool-cases (before y z)) [
            | inl second ↦
                ap (insert x) (insert-before y z l second)
                ∙ insert-before x y (z ∷ l) h
                ∙ ap (λ m. x ∷ m) (sym (insert-before y z l second))
                ∙ sym right
            | inr second ↦
                ap (insert x) (insert_after y z l second)
                ∙ insert-before x z (insert y l) first
                ∙ ap (λ m. x ∷ m) (sym (insert_after y z l second))
                ∙ sym right
          ]
      | inr third ↦
          let low : before y z ≡ false = elim (Bool-cases (before y z)) [
            | inr apart ↦ apart
            | inl close ↦ absurd (false≢true (sym third ∙ before_trans x y z p r.0 q.0 h close))
          ] in
          ap (insert x) (insert_after y z l low)
          ∙ insert_after x z (insert y l) third
          ∙ ap (λ m. z ∷ m) (insert_swap_le x y l p q.1 r.1 h)
          ∙ sym (insert_after y z (insert x l) low)
          ∙ ap (insert y) (sym (insert_after x z l third))
    ]

insert_swap :
    (x y : FairnessEntry) (l : List FairnessEntry)
    → IsApart x y
    → All (IsApart x) l
    → All (IsApart y) l
    → insert x (insert y l) ≡ insert y (insert x l)
insert_swap x y l p q r = elim (Bool-cases (before x y)) [
  | inl le ↦ insert_swap_le x y l p q r le
  | inr gt ↦
      let ge = before-not y x (IsApart-sym x y p) ∙ ap not gt in
      sym (insert_swap_le y x l (IsApart-sym x y p) r q ge)
]

All-insert :
    (P : FairnessEntry → Type 0) (x : FairnessEntry) (l : List FairnessEntry)
    → P x
    → All P l
    → All P (insert x l)
unfolding insert
All-insert P x [] h k = (h, tt)
All-insert P x (y ∷ l) h k = elim (Bool-cases (before x y)) [
  | inl le ↦ subst (All P) (sym (insert-before x y l le)) (h, k)
  | inr gt ↦ subst (All P) (sym (insert_after x y l gt)) (k.0, All-insert P x l h k.1)
]

All-sort : (P : FairnessEntry → Type 0) (l : List FairnessEntry) → All P l → All P (sort l)
unfolding sort
All-sort P [] h = tt
All-sort P (x ∷ l) h = All-insert P x (sort l) h.0 (All-sort P l h.1)

All-Perm :
    (P : FairnessEntry → Type 0) {xs ys : List FairnessEntry} → Permᴰ xs ys → All P xs → All P ys
All-Perm P Permᴰ.nil h = tt
All-Perm P (Permᴰ.cons e d) h = (subst P e h.0, All-Perm P d h.1)
All-Perm P (Permᴰ.swap e f) h = (subst P f h.1.0, (subst P e h.0, h.1.1))
All-Perm P (Permᴰ.trans c d) h = All-Perm P d (All-Perm P c h)

AllApart-Perm : {xs ys : List FairnessEntry} → Permᴰ xs ys → AllApart xs → AllApart ys
AllApart-Perm Permᴰ.nil h = tt
AllApart-Perm (Permᴰ.cons {l₂ = l} e d) h =
    (subst (λ z. All (IsApart z) l) e (All-Perm _ d h.0), AllApart-Perm d h.1)
AllApart-Perm (Permᴰ.swap {a} {b} {b' = b'} {l = l} e f) h = (
  (
    subst (λ z. IsApart z b') f (subst (IsApart b) e (IsApart-sym a b h.0.0)),
    subst (λ z. All (IsApart z) l) f h.1.0,
  ),
  (subst (λ z. All (IsApart z) l) e h.0.1, h.1.1),
)
AllApart-Perm (Permᴰ.trans c d) h = AllApart-Perm d (AllApart-Perm c h)

sort-Perm : {xs ys : List FairnessEntry} → Permᴰ xs ys → AllApart xs → sort xs ≡ sort ys
unfolding sort
sort-Perm Permᴰ.nil h = refl
sort-Perm (Permᴰ.cons {l₂ = l} e d) h =
    ap (insert _) (sort-Perm d h.1) ∙ ap (λ z. insert z (sort l)) e
sort-Perm (Permᴰ.swap {a} {b} {b' = b'} {l = l} e f) h =
    insert_swap a b (sort l) h.0.0 (All-sort (IsApart a) l h.0.1) (All-sort (IsApart b) l h.1.0)
    ∙ ap (λ z. insert b (insert z (sort l))) e
    ∙ ap (λ z. insert z (insert b' (sort l))) f
sort-Perm (Permᴰ.trans c d) h = sort-Perm c h ∙ sort-Perm d (AllApart-Perm c h)

pub assert_entries-iff-All :
    (l : List FairnessEntry) → (assert_entries l ≡ ok tt) ↔ All (λ x. assert_entry x ≡ ok tt) l
unfolding assert_entries
assert_entries-iff-All [] = (λ h. tt, λ h. refl)
assert_entries-iff-All (x ∷ l) = (
  λ h. elim (Result-cases (assert_entry x)) [
    | inr (e, q) ↦ absurd (err-ne-ok (rw q at h))
    | inl (u, q) ↦ (q, (assert_entries-iff-All l).0 (rw q at h))
  ],
  λ h. rw h.0 ((assert_entries-iff-All l).1 h.1),
)

module _ (sha256 : String → String) where
  -- Entries no two of which start at the same ticket have the same hash in every order.
  pub hash-Perm :
      (entries read : List FairnessEntry) (hash : String)
      → AllApart entries
      → Permᴰ entries read
      → calculate_entries_hash sha256 entries ≡ ok hash
      → calculate_entries_hash sha256 read ≡ ok hash
  unfolding calculate_entries_hash canonicalize_entries
  hash-Perm entries read hash apart perm h = elim (Result-cases (assert_entries entries)) [
    | inr (e, q) ↦ absurd (err-ne-ok (rw q at h))
    | inl (u, q) ↦
        let same =
          (assert_entries-iff-All read).1
            (All-Perm _ perm ((assert_entries-iff-All entries).0 q)) in
        rw same (rw (q, sort-Perm perm apart) at h)
  ]
