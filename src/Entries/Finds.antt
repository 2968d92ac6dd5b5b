-- ===== src/Entries/Finds.antt =====
-- Rows that are found again: by their ids, and after an update.
use kingspin.Prelude.{
  ◌≡◌, refl, ap, ⊤, Bool, true, false, String, List, [], ◌∷◌, ◌++◌, map, some, Bool-cases,
  Option-cases, inl, inr,
}
use kingspin.Prelude.Int.{ltb_ℤ}
use kingspin.Prelude.Lists.{find, any, any-find, any-false, some_eq}
use kingspin.Prelude.Text.{str_eq, str_eq_iff, str_eq_self}
use kingspin.Store.Tables.{WalletAccount, Round}
use kingspin.Store.Sound.{UniqueIds}
use kingspin.Rounds.Rows.{latest, is_round}

-- An update that does not change what a search asks for.
pub find-map :
    {A : Type 0} (p : A → Bool) (f : A → A) (xs : List A) (v : A)
    → ((x : A) → p (f x) ≡ p x)
    → find p xs ≡ some v
    → find p (map f xs) ≡ some (f v)
find-map p f [] v same h = cc h
find-map p f (x ∷ xs) v same h = elim (Bool-cases (p x)) [
  | inl t ↦ let is_v : x ≡ v = some_eq (rw t at h) in rw (same x, t) (ap (λ y. some (f y)) is_v)
  | inr n ↦ rw (same x, n) (find-map p f xs v same (rw n at h))
]

pub find-last :
    {A : Type 0} (p : A → Bool) (xs : List A) (v : A)
    → any p xs ≡ false
    → p v ≡ true
    → find p (xs ++ v ∷ []) ≡ some v
find-last p [] v h t = rw t refl
find-last p (x ∷ xs) v h t =
    let (here, later) = any-false p x xs h in rw here (find-last p xs v later t)

module _ {A : Type 0} (id_of : A → String) where
  abbrev pub has : String → A → Bool
  has id x = str_eq (id_of x) id

  abbrev pub Unique : List A → Type 0
  Unique [] = ⊤
  Unique (x ∷ xs) = (any (has (id_of x)) xs ≡ false) × Unique xs

  -- What is in a list is found by its id.
  pub other_id :
      (x v : A) (xs : List A)
      → any (has (id_of x)) xs ≡ false
      → any (has (id_of v)) xs ≡ true
      → str_eq (id_of x) (id_of v) ≡ false
  other_id x v xs free there = elim (Bool-cases (str_eq (id_of x) (id_of v))) [
    | inr n ↦ n
    | inl t ↦
        let same : id_of x ≡ id_of v = (str_eq_iff (id_of x) (id_of v)).0 t in
        cc (rw same at free, there)
  ]

  pub found_by_id :
      (p : A → Bool) (xs : List A) (v : A)
      → Unique xs
      → find p xs ≡ some v
      → find (has (id_of v)) xs ≡ some v
  found_by_id p [] v u h = cc h
  found_by_id p (x ∷ xs) v u h = elim (Bool-cases (p x)) [
    | inl t ↦
        let is_v : x ≡ v = some_eq (rw t at h) in rw (← is_v) (rw (str_eq_self (id_of x)) refl)
    | inr n ↦
        let later = found_by_id p xs v u.1 (rw n at h) in
        rw (other_id x v xs u.0 (any-find (has (id_of v)) xs later)) later
  ]

pub UniqueIds-Unique :
    (ws : List WalletAccount) → UniqueIds ws → Unique (λ (w : WalletAccount). w.id) ws
UniqueIds-Unique [] u = tt
UniqueIds-Unique (w ∷ ws) u = (u.0, UniqueIds-Unique ws u.1)

first_found_by_id :
    (x r : Round) (xs : List Round)
    → x ≡ r
    → find (has (λ (s : Round). s.id) r.id) (x ∷ xs) ≡ some r
first_found_by_id x r xs same = rw (← same) (rw (str_eq_self x.id) refl)

later_found_by_id :
    (x r : Round) (xs : List Round)
    → any (is_round x.id) xs ≡ false
    → find (has (λ (s : Round). s.id) r.id) xs ≡ some r
    → find (has (λ (s : Round). s.id) r.id) (x ∷ xs) ≡ some r
later_found_by_id x r xs free later =
    rw
      (other_id (λ (s : Round). s.id) x r xs free
        (any-find (has (λ (s : Round). s.id) r.id) xs later))
      later

-- The round with the highest number is found by its id.
pub latest_found_by_id :
    (p : Round → Bool) (rs : List Round) (r : Round)
    → Unique (λ (s : Round). s.id) rs
    → latest p rs ≡ some r
    → find (has (λ (s : Round). s.id) r.id) rs ≡ some r
latest_found_by_id p [] r u h = cc h
latest_found_by_id p (x ∷ xs) r u h = elim (Bool-cases (p x)) [
  | inr n ↦ later_found_by_id x r xs u.0 (latest_found_by_id p xs r u.1 (rw n at h))
  | inl t ↦ elim (Option-cases (latest p xs)) [
    | inl missing ↦ first_found_by_id x r xs (some_eq (rw (t, missing) at h))
    | inr (s, there) ↦ elim (Bool-cases (ltb_ℤ s.round_number x.round_number)) [
      | inl newest ↦ first_found_by_id x r xs (some_eq (rw (t, there, newest) at h))
      | inr older ↦
          let same : s ≡ r = some_eq (rw (t, there, older) at h) in
          later_found_by_id x r xs u.0 (latest_found_by_id p xs r u.1 (rw (← same) there))
    ]
  ]
]
