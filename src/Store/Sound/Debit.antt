-- ===== src/Store/Sound/Debit.antt =====
-- A debit finds the one wallet of its id, if that wallet can pay.
use kingspin.Prelude.{
  ◌≡◌, refl, true, false, String, List, [], ◌∷◌, map, none, some, arith, Bool-cases, inl, inr,
}
use kingspin.Prelude.Int.{ℤ, ◌-ℤ◌}
use kingspin.Prelude.Lists.{any, find, any-false}
use kingspin.Prelude.Text.{str_eq_iff}
use kingspin.Store.Tables.{WalletAccount}
use kingspin.Store.Queries.{has_id, adjust, pay, can_pay}
use kingspin.Store.Sound.{UniqueIds}

-- Where no wallet has the id, nothing changes.
absent :
    (id user_id : String) (amount : ℤ) (ws : List WalletAccount)
    → any (has_id id) ws ≡ false
    → (map (pay id user_id amount) ws ≡ ws)
      × (map (adjust (λ b. b -ℤ amount) id) ws ≡ ws)
      × (find (can_pay id user_id amount) ws ≡ none)
absent id user_id amount [] h = (refl, refl, refl)
absent id user_id amount (w ∷ ws) h =
    let (other, rest) = any-false (has_id id) w ws h in
    let (a, b, c) = absent id user_id amount ws rest in
    (rw (other, a) refl, rw (other, b) refl, rw (other, c) refl)

-- A refused debit changes nothing.
pub pay-none :
    (id user_id : String) (amount : ℤ) (ws : List WalletAccount)
    → find (can_pay id user_id amount) ws ≡ none
    → map (pay id user_id amount) ws ≡ ws
pay-none id user_id amount [] h = refl
pay-none id user_id amount (w ∷ ws) h = elim (Bool-cases (can_pay id user_id amount w)) [
  | inl t ↦ cc (rw t at h)
  | inr t ↦ rw (t, pay-none id user_id amount ws (rw t at h)) refl
]

pub can_pay-id :
    (id user_id : String) (amount : ℤ) (w : WalletAccount)
    → can_pay id user_id amount w ≡ true
    → has_id id w ≡ true
can_pay-id id user_id amount w h = ground arith

-- A debit that goes through lowers the balance of the wallet of its id, and of no other.
pub pay-some :
    (id user_id : String) (amount : ℤ) (ws : List WalletAccount) {v : WalletAccount}
    → UniqueIds ws
    → find (can_pay id user_id amount) ws ≡ some v
    → (map (pay id user_id amount) ws ≡ map (adjust (λ b. b -ℤ amount) id) ws) × (v.id ≡ id)
pay-some id user_id amount [] u h = cc
pay-some id user_id amount (w ∷ ws) {v} u h = elim (Bool-cases (can_pay id user_id amount w)) [
  | inl t ↦
      let mine = can_pay-id id user_id amount w t in
      let same : w.id ≡ id = (str_eq_iff w.id id).0 mine in
      let (a, b, c) = absent id user_id amount ws (rw (← same) u.0) in
      let e : some w ≡ some v = rw t at h in (rw (t, mine, a, b) refl, cc (same, e))
  | inr t ↦
      let later : find (can_pay id user_id amount) ws ≡ some v = rw t at h in
      let (a, b) = pay-some id user_id amount ws u.1 later in
      elim (Bool-cases (has_id id w)) [
        | inl mine ↦
            let same : w.id ≡ id = (str_eq_iff w.id id).0 mine in
            cc ((absent id user_id amount ws (rw (← same) u.0)).2, later)
        | inr other ↦ (rw (t, other, a) refl, b)
      ]
]
