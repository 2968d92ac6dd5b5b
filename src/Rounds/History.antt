-- ===== src/Rounds/History.antt =====
-- How the rounds of the database may change: no row is lost, a row keeps its identity and its seed, and
-- its status moves along the state machine.
use kingspin.Prelude.{
  ℕ, suc, ◌≡◌, refl, ◌∙◌, ⊤, Bool, true, List, [], ◌∷◌, ◌++◌, map, Bool-cases, inl, inr,
}
use kingspin.Store.Tables.{Round}
use kingspin.Engine.Machine.{RoundStatus, can_transition_round}
use kingspin.Engine.Machine.Paths.{Run, here, step}
use kingspin.Rounds.Rows.{change}

-- The same round at a later time: its status was reached by allowed transitions, and its room, its
-- number, its seed and the commitment to the seed are what they were.
pub record IsLater (r s : Round) : Type 0 where
  pub same_id : r.id ≡ s.id
  pub same_room : r.room_id ≡ s.room_id
  pub same_number : r.round_number ≡ s.round_number
  pub same_seed : r.server_seed_reveal ≡ s.server_seed_reveal
  pub same_commitment : r.server_seed_hash ≡ s.server_seed_hash
  pub reached : (n : ℕ) × Run r.status n s.status

-- The rounds of one time and those of a later one: every row is in its place, and new rows are behind.
abbrev pub Follows : List Round → List Round → Type 0
Follows [] ss = ⊤
Follows (r ∷ rs) [] = ⊥
Follows (r ∷ rs) (s ∷ ss) = IsLater r s × Follows rs ss

Run-append : {a b c : RoundStatus} {m n : ℕ} → Run a m b → Run b n c → (k : ℕ) × Run a k c
Run-append {m = m} p here = (m, p)
Run-append p (step q h) = let (k, r) = Run-append p q in (suc k, step r h)

pub IsLater-refl : (r : Round) → IsLater r r
IsLater-refl r = record {
  same_id = refl;
  same_room = refl;
  same_number = refl;
  same_seed = refl;
  same_commitment = refl;
  reached = (0, here);
}

IsLater-trans : (r s t : Round) → IsLater r s → IsLater s t → IsLater r t
IsLater-trans r s t h k = record {
  same_id = h.same_id ∙ k.same_id;
  same_room = h.same_room ∙ k.same_room;
  same_number = h.same_number ∙ k.same_number;
  same_seed = h.same_seed ∙ k.same_seed;
  same_commitment = h.same_commitment ∙ k.same_commitment;
  reached = Run-append h.reached.1 k.reached.1;
}

-- One allowed transition.
pub one_step : (a b : RoundStatus) → can_transition_round a b ≡ true → (n : ℕ) × Run a n b
one_step a b h = (1, step here h)

pub Follows-refl : (rs : List Round) → Follows rs rs
Follows-refl [] = tt
Follows-refl (r ∷ rs) = (IsLater-refl r, Follows-refl rs)

pub Follows-trans : (rs ss ts : List Round) → Follows rs ss → Follows ss ts → Follows rs ts
Follows-trans [] ss ts h k = tt
Follows-trans (r ∷ rs) [] ts h k = absurd h
Follows-trans (r ∷ rs) (s ∷ ss) [] h k = absurd k
Follows-trans (r ∷ rs) (s ∷ ss) (t ∷ ts) h k =
    (IsLater-trans r s t h.0 k.0, Follows-trans rs ss ts h.1 k.1)

pub Follows-append : (rs ss : List Round) → Follows rs (rs ++ ss)
Follows-append [] ss = tt
Follows-append (r ∷ rs) ss = (IsLater-refl r, Follows-append rs ss)

pub Follows-change :
    (p : Round → Bool) (f : Round → Round)
    → ((r : Round) → p r ≡ true → IsLater r (f r))
    → (rs : List Round) → Follows rs (map (change p f) rs)
Follows-change p f h [] = tt
Follows-change p f h (r ∷ rs) = (
  elim (Bool-cases (p r)) [ inl t ↦ rw t (h r t) | inr t ↦ rw t (IsLater-refl r) ],
  Follows-change p f h rs,
)
