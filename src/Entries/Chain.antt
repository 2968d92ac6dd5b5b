-- ===== src/Entries/Chain.antt =====
-- The steps of a placement in their order.
use kingspin.Store.Tx as Tx
use kingspin.Prelude.{
  ◌≡◌, refl, ap, ◌∙◌, Bool, true, false, List, [], ◌∷◌, none, some, arith, Bool-cases, Option-cases,
  inl, inr,
}
use kingspin.Prelude.Int.{◌-ℤ◌, leb_ℤ, ltb_ℤ}
use kingspin.Prelude.Lists.{any, some_eq}
use kingspin.Prelude.Text.{str_eq, str_eq_self}
use kingspin.Prelude.Result.{ok}
use kingspin.Store.Tables.{
  GameMode, flexible_proportional, fixed_equal_chance, Room, Category, WalletAccount, Entry, Round,
  Db,
}
use kingspin.Store.Tx.{Tx, lift, pure}
use kingspin.Store.Runs.{bind_after}
use kingspin.Rounds.Rows.{latest, is_round}
use kingspin.Entries.{PlacementArgs}
use kingspin.Entries.Request.{RequestRows, request_rows}
use kingspin.Entries.Rules.{is_flexible}
use kingspin.Entries.Statement.{Writable, writable_request, debit_wallet, upsert_entry}
use kingspin.Entries.Ledger.{insert_transaction, apply_held_transaction}
use kingspin.Entries.Place.{write_placement}
use kingspin.Entries.Limits.{IsAllowed}
use kingspin.Entries.Success.{did}

pub any-latest :
    (p : Round → Bool) (rs : List Round) (r : Round)
    → latest p rs ≡ some r
    → any (is_round r.id) rs ≡ true
any-latest p [] r h = cc h
any-latest p (x ∷ xs) r h = elim (Bool-cases (str_eq x.id r.id)) [
  | inl t ↦ rw t refl
  | inr n ↦ rw n (
      any-latest p xs r (elim (Bool-cases (p x)) [
        | inr off ↦ rw off at h
        | inl on ↦ elim (Option-cases (latest p xs)) [
          | inl missing ↦
              let same : x ≡ r = some_eq (rw (on, missing) at h) in cc (same, n, str_eq_self r.id)
          | inr (s, there) ↦ elim (Bool-cases (ltb_ℤ s.round_number x.round_number)) [
            | inl newest ↦
                let same : x ≡ r = some_eq (rw (on, there, newest) at h) in
                cc (same, n, str_eq_self r.id)
            | inr older ↦ there ∙ (rw (on, there, older) at h)
          ]
        ]
      ]))
]

four_steps :
    {A B C D : Type 0} (m : Tx A) (f : A → Tx B) (g : A → B → Tx C) (k : A → B → C → Tx D)
    {E : Type 0} (h : A → B → C → D → E) (a : A) (b : B) (c : C) (x : D) (d d1 d2 d3 d4 : Db)
    → m d ≡ ok (a, d1)
    → f a d1 ≡ ok (b, d2)
    → g a b d2 ≡ ok (c, d3)
    → k a b c d3 ≡ ok (x, d4)
    → Tx.◌>>=◌ m
        (λ a.
          Tx.◌>>=◌ (f a) (λ b. Tx.◌>>=◌ (g a b) (λ c. Tx.◌>>=◌ (k a b c) (λ x. pure (h a b c x)))))
        d
      ≡ ok (h a b c x, d4)
four_steps m f g k h a b c x d d1 d2 d3 d4 p q r s =
    bind_after m
      (λ x.
        Tx.◌>>=◌ (f x) (λ y. Tx.◌>>=◌ (g x y) (λ z. Tx.◌>>=◌ (k x y z) (λ u. pure (h x y z u)))))
      d p
    ∙ bind_after (f a) (λ y. Tx.◌>>=◌ (g a y) (λ z. Tx.◌>>=◌ (k a y z) (λ u. pure (h a y z u)))) d1
        q
    ∙ bind_after (g a b) (λ z. Tx.◌>>=◌ (k a b z) (λ u. pure (h a b z u))) d2 r
    ∙ bind_after (k a b c) (λ u. pure (h a b c u)) d3 s

-- The parts of the statement in their order.
pub chained :
    (args : PlacementArgs) (db d1 d2 d3 : Db) (w : Writable) (v : WalletAccount) (e : Entry)
    → writable_request args (request_rows args db) ≡ some w
    → debit_wallet args (request_rows args db) db (some w) db ≡ ok (some v, d1)
    → upsert_entry args (request_rows args db) (some w) (some v) d1 ≡ ok (some e, d2)
    → insert_transaction args (request_rows args db) db (some w) (some v) (some e) d2
      ≡ ok (true, d3)
    → apply_held_transaction args (request_rows args db) db (some w) (some e) d3 ≡ ok (false, d3)
    → write_placement args db db ≡ ok (did v e, d3)
unfolding write_placement
chained args db d1 d2 d3 w v e writable paid placed inserted applied =
    let rows = request_rows args db in
    let o = writable_request args rows in
    four_steps (debit_wallet args rows db o) (λ x. upsert_entry args rows o x)
      (λ x y. insert_transaction args rows db o x y)
      (λ x y b. apply_held_transaction args rows db o y)
      (λ x y b c. record { paid = x; entry = y; inserted = b; applied = c }) (some v) (some e) true
      false db d1 d2 d3 d3 (ap (λ x. debit_wallet args rows db x db) writable ∙ paid)
      (ap (λ x. upsert_entry args rows x (some v) d1) writable ∙ placed)
      (ap (λ x. insert_transaction args rows db x (some v) (some e) d2) writable ∙ inserted)
      (ap (λ x. apply_held_transaction args rows db x (some e) d3) writable ∙ applied)

-- A room with an entry of the player is not fixed, and the entry leaves room for more.
pub more_allowed :
    (args : PlacementArgs) (rows : RequestRows) (category : Category) (old : Entry)
    → IsAllowed args rows
    → rows.transaction ≡ none
    → rows.category ≡ some category
    → rows.entry ≡ some old
    → (is_flexible rows ≡ true)
      × (leb_ℤ old.amount (category.max_entry_amount -ℤ args.amount) ≡ true)
more_allowed args rows category old rules fresh at_category there = elim (Option-cases rows.room) [
  | inl missing ↦ cc (rw missing at rules.room_active)
  | inr (room, at_room) ↦ go room at_room room.game_mode refl
]
  where
    go :
        (room : Room)
        → rows.room ≡ some room
        → (m : GameMode) → room.game_mode ≡ m
        → (is_flexible rows ≡ true)
          × (leb_ℤ old.amount (category.max_entry_amount -ℤ args.amount) ≡ true)
    go room at_room flexible_proportional mode =
        let over = rw (at_room, mode, there, at_category) at rules.not_over in
        (rw (at_room, mode) refl, ground arith)
    go room at_room fixed_equal_chance mode =
        cc (rw (at_room, mode, there, fresh) at rules.no_top_up)
