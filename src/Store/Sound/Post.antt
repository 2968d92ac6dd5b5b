-- ===== src/Store/Sound/Post.antt =====
-- A row that is appended to the ledger, and a balance that moves with it.
use kingspin.Prelude.{
  ◌≡◌, refl, ◌∙◌, Bool, true, false, String, List, [], ◌∷◌, ◌++◌, map, arith, Bool-cases, inl, inr,
}
use kingspin.Prelude.Int.{ℤ, pos, ◌+ℤ◌, ◌-ℤ◌, ◌≤ℤ◌, int_laws}
use kingspin.Prelude.Lists.{All, All-map, All-imp, All-append, any, any-false}
use kingspin.Prelude.Text.{str_eq, str_eq_iff}
use kingspin.Store.Tables.{LedgerEntryDirection, WalletAccount, LedgerTransaction, Db}
use kingspin.Store.Queries.{has_key, has_id, adjust, pay, can_pay}
use kingspin.Store.Sound.{
  signed, net_entries, net, UniqueKeys, UniqueIds, NonNegative, Known, IsSound, net-append,
}

pub str_eq_sym : (s t : String) → str_eq s t ≡ str_eq t s
str_eq_sym s t = ground (arith, str_eq_iff s t, str_eq_iff t s)

-- Who can pay an amount has it.
covered :
    (id user_id : String) (amount : ℤ) (w : WalletAccount)
    → can_pay id user_id amount w ≡ true
    → pos 0 ≤ℤ w.balance -ℤ amount
covered id user_id amount w t = let enough : amount ≤ℤ w.balance = ground arith in omega int_laws

pub any-append {ℓ} :
    {A : Type ℓ} (p : A → Bool) (ts : List A) (t : A)
    → any p ts ≡ false
    → p t ≡ false
    → any p (ts ++ t ∷ []) ≡ false
any-append p [] t h k = rw k
any-append p (s ∷ ts) t h k = ground (arith, any-append p ts t)

UniqueKeys-append :
    (ts : List LedgerTransaction) (t : LedgerTransaction)
    → any (has_key t.idempotency_key) ts ≡ false
    → UniqueKeys ts
    → UniqueKeys (ts ++ t ∷ [])
UniqueKeys-append [] t h u = (refl, tt)
UniqueKeys-append (s ∷ ts) t h u =
    let (other, rest) = any-false (has_key t.idempotency_key) s ts h in
    (
      any-append (has_key s.idempotency_key) ts t u.0
          (str_eq_sym t.idempotency_key s.idempotency_key ∙ other),
      UniqueKeys-append ts t rest u.1,
    )

-- A change of wallets that leaves their ids alone.
abbrev pub KeepsId : (WalletAccount → WalletAccount) → Type 0
KeepsId f = (w : WalletAccount) → (f w).id ≡ w.id

pub any-map :
    (f : WalletAccount → WalletAccount) (id : String) (ws : List WalletAccount)
    → KeepsId f
    → any (has_id id) (map f ws) ≡ any (has_id id) ws
any-map f id [] same = refl
any-map f id (w ∷ ws) same = rw (same w, any-map f id ws same)

pub UniqueIds-map :
    (f : WalletAccount → WalletAccount) (ws : List WalletAccount)
    → KeepsId f
    → UniqueIds ws
    → UniqueIds (map f ws)
UniqueIds-map f [] same u = tt
UniqueIds-map f (w ∷ ws) same u =
    (rw (same w, any-map f w.id ws same) u.0, UniqueIds-map f ws same u.1)

Known-one :
    (f : WalletAccount → WalletAccount) (ws : List WalletAccount) (t : LedgerTransaction)
    → KeepsId f
    → Known ws t
    → Known (map f ws) t
Known-one f ws t same h =
    All-imp (λ e. any (has_id e.wallet_account_id) ws ≡ true)
      (λ e. any (has_id e.wallet_account_id) (map f ws) ≡ true)
      (λ e k. any-map f e.wallet_account_id ws same ∙ k) t.entries h

Known-map :
    (f : WalletAccount → WalletAccount) (ws : List WalletAccount) (ts : List LedgerTransaction)
    → KeepsId f
    → All (Known ws) ts
    → All (Known (map f ws)) ts
Known-map f ws ts same h =
    All-imp (Known ws) (Known (map f ws)) (λ t k. Known-one f ws t same k) ts h

-- A new ledger row and the change of the balances that it records keep the database sound.
pub post-IsSound :
    (db : Db) (f : WalletAccount → WalletAccount) (t : LedgerTransaction)
    → IsSound db
    → KeepsId f
    → ((w : WalletAccount) → (f w).balance ≡ w.balance +ℤ net_entries w.id t.entries)
    → All (λ w. pos 0 ≤ℤ w.balance) (map f db.wallets)
    → NonNegative t
    → Known db.wallets t
    → any (has_key t.idempotency_key) db.ledger ≡ false
    → IsSound (record db { wallets = map f db.wallets; ledger = db.ledger ++ t ∷ [] })
post-IsSound db f t s same moves solvent amounts known free = record {
  balanced =
      All-map (λ w. w.balance ≡ net w.id db.ledger)
        (λ w. w.balance ≡ net w.id (db.ledger ++ t ∷ [])) f
        (λ w h. rw (moves w, same w, net-append w.id db.ledger t, h) refl) db.wallets s.balanced;
  solvent = solvent;
  known =
      All-append (Known (map f db.wallets)) db.ledger (t ∷ [])
        (Known-map f db.wallets db.ledger same s.known) (Known-one f db.wallets t same known, tt);
  amounts = All-append NonNegative db.ledger (t ∷ []) s.amounts (amounts, tt);
  unique_keys = UniqueKeys-append db.ledger t free s.unique_keys;
  unique_ids = UniqueIds-map f db.wallets same s.unique_ids;
}

-- A posting of a signed amount on the wallet of an id moves the balance as its entry says.
pub adjust-moves :
    (id : String) (d : LedgerEntryDirection) (a b : ℤ) (f : ℤ → ℤ)
    → ((c : ℤ) → f c ≡ c +ℤ signed d a)
    → (w : WalletAccount)
    → (adjust f id w).balance
      ≡ w.balance
        +ℤ net_entries w.id
            (record { wallet_account_id = id; direction = d; amount = a; balance_after = b } ∷ [])
adjust-moves id d a b f g w = elim (Bool-cases (str_eq w.id id)) [
  | inl t ↦ rw (t, g w.balance) (omega int_laws)
  | inr t ↦ rw t (omega int_laws)
]

pub adjust-KeepsId : (f : ℤ → ℤ) (id : String) → KeepsId (adjust f id)
adjust-KeepsId f id w = ground arith

pub adjust-solvent :
    (id : String) (amount : ℤ) (ws : List WalletAccount)
    → pos 0 ≤ℤ amount
    → All (λ w. pos 0 ≤ℤ w.balance) ws
    → All (λ w. pos 0 ≤ℤ w.balance) (map (adjust (λ b. b +ℤ amount) id) ws)
adjust-solvent id amount ws h k =
    All-map (λ w. pos 0 ≤ℤ w.balance) (λ w. pos 0 ≤ℤ w.balance) (adjust (λ b. b +ℤ amount) id)
      (λ w low. elim (Bool-cases (str_eq w.id id)) [
        | inl t ↦ rw t (omega int_laws)
        | inr t ↦ rw t low
      ])
      ws k

pub pay-KeepsId : (id user_id : String) (amount : ℤ) → KeepsId (pay id user_id amount)
pay-KeepsId id user_id amount w = ground arith

pub pay-solvent :
    (id user_id : String) (amount : ℤ) (ws : List WalletAccount)
    → All (λ w. pos 0 ≤ℤ w.balance) ws
    → All (λ w. pos 0 ≤ℤ w.balance) (map (pay id user_id amount) ws)
pay-solvent id user_id amount ws k =
    All-map (λ w. pos 0 ≤ℤ w.balance) (λ w. pos 0 ≤ℤ w.balance) (pay id user_id amount)
      (λ w low. elim (Bool-cases (can_pay id user_id amount w)) [
        | inl t ↦ rw t (covered id user_id amount w t)
        | inr t ↦ rw t low
      ])
      ws k
