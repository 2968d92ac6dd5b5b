-- ===== src/Engine/Draw/Ticket.antt =====
-- What the draw returns, and that it returns.
use mathlib.Core.Path.{subst}
use mathlib.Core.Bool.{false≢true}
use kingspin.Prelude.{
  ap, ℕ, zero, suc, ◌+◌, ◌≤◌, ◌<◌, ◌≡◌, refl, sym, ◌∙◌, ◌⊎◌, inl, inr, true, false, String, arith,
  Bool-cases,
}
use kingspin.Prelude.Int.{ℤ, pos, ◌-ℤ◌, ◌%ℤ◌, leb_ℤ}
use kingspin.Prelude.Text.{is_empty}
use kingspin.Prelude.Json.{hex_value}
use kingspin.Prelude.Result.{Result, ok, Result-cases, err-ne-ok, ok_eq}
use kingspin.Engine.Draw.{
  DrawInputParts, Selection, assert_draw_parts, draw_text, build_draw_input, acceptance_limit,
  max_safe_integer, is_safe_integer, select_from, select_winning_ticket,
}

le_split : (a b : ℕ) → a ≤ b → (a ≡ b) ⊎ (a + 1 ≤ b)
le_split a b h = grind arith

build-eq :
    (parts : DrawInputParts) (nonce : ℕ) (input : String)
    → build_draw_input parts nonce ≡ ok input
    → input ≡ draw_text parts nonce
unfolding build_draw_input
build-eq parts nonce input h = elim (Result-cases (assert_draw_parts parts)) [
  | inl (u, q) ↦ ground arith
  | inr (e, q) ↦ ground arith
]

is_safe : (n : ℕ) → n < max_safe_integer → is_safe_integer (pos n) ≡ true
unfolding is_safe_integer ◌-ℤ◌
is_safe n h = ground arith

build_ok :
    (parts : DrawInputParts) (nonce : ℕ)
    → assert_draw_parts parts ≡ ok tt
    → nonce < max_safe_integer
    → build_draw_input parts nonce ≡ ok (draw_text parts nonce)
unfolding build_draw_input
build_ok parts nonce h k = rw (h, is_safe nonce k) refl

module _ (hmac : String → String → String) (seed : String) (parts : DrawInputParts) where
  -- The value of the digest for a nonce.
  abbrev pub digest : ℕ → ℤ
  digest nonce = pos (hex_value (hmac seed (draw_text parts nonce)))

  -- The draw rejects this nonce.
  abbrev pub Rejected : ℕ → Type 0
  Rejected nonce = leb_ℤ (acceptance_limit parts.total_entry_amount) (digest nonce) ≡ true

  -- The selection belongs to its nonce, which is accepted.
  pub record IsDrawn (s : Selection) : Type 0 where
    pub input : s.draw_input ≡ draw_text parts s.nonce_used
    pub hash : s.draw_hash ≡ hmac seed (draw_text parts s.nonce_used)
    pub ticket : s.winning_ticket ≡ digest s.nonce_used %ℤ parts.total_entry_amount
    pub accepted : leb_ℤ (acceptance_limit parts.total_entry_amount) (digest s.nonce_used) ≡ false

  -- The selection at a nonce.
  abbrev drawn_at : ℕ → Selection
  drawn_at nonce = record {
    draw_input = draw_text parts nonce;
    draw_hash = hmac seed (draw_text parts nonce);
    nonce_used = nonce;
    winning_ticket = digest nonce %ℤ parts.total_entry_amount;
  }

  abbrev from_nonce : ℕ → ℕ → Result Selection
  from_nonce = select_from hmac seed parts (acceptance_limit parts.total_entry_amount)

  next :
      (rounds nonce : ℕ)
      → build_draw_input parts nonce ≡ ok (draw_text parts nonce)
      → Rejected nonce
      → from_nonce (suc rounds) nonce ≡ from_nonce rounds (nonce + 1)
  unfolding select_from
  next rounds nonce text out = ground arith

  stop :
      (rounds nonce : ℕ)
      → build_draw_input parts nonce ≡ ok (draw_text parts nonce)
      → leb_ℤ (acceptance_limit parts.total_entry_amount) (digest nonce) ≡ false
      → from_nonce (suc rounds) nonce ≡ ok (drawn_at nonce)
  unfolding select_from
  stop rounds nonce text hit = ground arith

  select_from-IsDrawn :
      (rounds nonce : ℕ) (s : Selection)
      → from_nonce rounds nonce ≡ ok s
      → IsDrawn s × (nonce ≤ s.nonce_used) × ((k : ℕ) → nonce ≤ k → k < s.nonce_used → Rejected k)
  unfolding select_from
  select_from-IsDrawn zero nonce s h = cc
  select_from-IsDrawn (suc rounds) nonce s h = elim (Result-cases (build_draw_input parts nonce)) [
    | inr (e, q) ↦ absurd (err-ne-ok (rw q at h))
    | inl (input, q) ↦
        let text : build_draw_input parts nonce ≡ ok (draw_text parts nonce) =
          rw q (ap ok (build-eq parts nonce input q)) in
        elim (Bool-cases (leb_ℤ (acceptance_limit parts.total_entry_amount) (digest nonce))) [
          | inl out ↦
              let (drawn, low, all) =
                select_from-IsDrawn rounds (nonce + 1) s (sym (next rounds nonce text out) ∙ h) in
              (
                drawn,
                omega arith,
                λ k a b. elim (le_split nonce k a) [
                  | inl e ↦ rw (← e) out
                  | inr later ↦ all k later b
                ],
              )
          | inr hit ↦
              subst
                (λ z.
                  IsDrawn z
                  × (nonce ≤ z.nonce_used)
                  × ((k : ℕ) → nonce ≤ k → k < z.nonce_used → Rejected k))
                (ok_eq (sym (stop rounds nonce text hit) ∙ h))
                (
                  record { input = refl; hash = refl; ticket = refl; accepted = hit },
                  omega arith,
                  λ k a b. absurd (omega arith),
                )
        ]
  ]

  select_from-total :
      (rounds nonce k : ℕ)
      → assert_draw_parts parts ≡ ok tt
      → nonce ≤ k
      → k < nonce + rounds
      → nonce + rounds ≤ max_safe_integer
      → leb_ℤ (acceptance_limit parts.total_entry_amount) (digest k) ≡ false
      → (s : Selection) × (from_nonce rounds nonce ≡ ok s)
  select_from-total zero nonce k valid low high bound hit = absurd (omega arith)
  select_from-total (suc rounds) nonce k valid low high bound hit =
      let text = build_ok parts nonce valid (omega arith) in
      elim (Bool-cases (leb_ℤ (acceptance_limit parts.total_entry_amount) (digest nonce))) [
        | inr here ↦ (drawn_at nonce, stop rounds nonce text here)
        | inl out ↦ elim (le_split nonce k low) [
          | inl e ↦ absurd (false≢true (sym hit ∙ rw (← e) out))
          | inr later ↦
              let (s, q) =
                select_from-total rounds (nonce + 1) k valid later (omega arith) (omega arith)
                  hit in
              (s, next rounds nonce text out ∙ q)
        ]
      ]

  pub select_steps :
      (s : Selection)
      → select_winning_ticket hmac seed parts ≡ ok s
      → (is_empty seed ≡ false)
        × (assert_draw_parts parts ≡ ok tt)
        × (from_nonce max_safe_integer 0 ≡ ok s)
  unfolding select_winning_ticket
  select_steps s h = elim (Bool-cases (is_empty seed)) [
    | inl missing ↦ absurd (err-ne-ok (rw missing at h))
    | inr ready ↦ elim (Result-cases (assert_draw_parts parts)) [
      | inr (e, q) ↦ absurd (err-ne-ok (rw (ready, q) at h))
      | inl (u, q) ↦ (ready, q, rw (ready, q) at h)
    ]
  ]

  -- A drawn selection comes from the first nonce whose digest is accepted: its hash is the keyed hash
  -- of the draw input for that nonce, its ticket the remainder of the digest, and the digests of all
  -- smaller nonces are rejected.
  pub select_winning_ticket-IsDrawn :
      (s : Selection)
      → select_winning_ticket hmac seed parts ≡ ok s
      → IsDrawn s × ((k : ℕ) → k < s.nonce_used → Rejected k)
  unfolding select_winning_ticket
  select_winning_ticket-IsDrawn s h =
      let (ready, checked, found) = select_steps s h in
      let (drawn, low, all) = select_from-IsDrawn max_safe_integer 0 s found in
      (drawn, λ k b. all k (omega arith) b)

  -- With a seed and valid parts, a ticket is drawn as soon as one nonce below the limit of the loop
  -- has an accepted digest.
  pub select_winning_ticket_total :
      (k : ℕ)
      → is_empty seed ≡ false
      → assert_draw_parts parts ≡ ok tt
      → k < max_safe_integer
      → leb_ℤ (acceptance_limit parts.total_entry_amount) (digest k) ≡ false
      → (s : Selection) × (select_winning_ticket hmac seed parts ≡ ok s)
  unfolding select_winning_ticket
  select_winning_ticket_total k ready valid low hit =
      let (s, q) =
        select_from-total max_safe_integer 0 k valid (omega arith) (omega arith) (omega arith)
          hit in
      (s, rw (ready, valid) q)
