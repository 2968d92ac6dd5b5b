-- ===== src/Wallets/NewWallet.antt =====
-- A wallet that is created keeps the database sound.
use kingspin.Prelude.{
  ◌≡◌, refl, sym, ◌∙◌, true, false, String, List, [], ◌∷◌, ◌++◌, arith, inl, inr, Bool-cases,
  Option-cases,
}
use kingspin.Prelude.Int.{pos, ◌+ℤ◌, ◌≤ℤ◌, int_laws}
use kingspin.Prelude.Lists.{All, All-append, All-imp, any, any-false, find}
use kingspin.Prelude.Text.{str_eq, str_eq_iff}
use kingspin.Store.Tables.{WalletAccount, LedgerEntry, LedgerTransaction, Db}
use kingspin.Store.Queries.{has_id}
use kingspin.Store.Sound.{net_entries, net, Known, IsSound, UniqueIds}
use kingspin.Store.Sound.Post.{any-append, str_eq_sym}
use kingspin.Wallets.MainWallet.{create_wallet_run, create_wallet_taken, ensure_new, ensure_found}
use mathlib.Core.Path.{subst}
use kingspin.Store.Sound.Rules.{IfOk-ok, IfOk-err, Keeps, SoundAfter, IfOk}
use kingspin.Wallets.Money.{
  create_wallet, ensure_main_wallet_for_user_id_in_transaction, new_main_wallet, is_main_of,
}

-- No entry is on a wallet that is not there.
net_entries_unknown :
    (id : String) (ws : List WalletAccount) (es : List LedgerEntry)
    → any (has_id id) ws ≡ false
    → All (λ e. any (has_id e.wallet_account_id) ws ≡ true) es
    → net_entries id es ≡ pos 0
unfolding ◌+ℤ◌
net_entries_unknown id ws [] h k = refl
net_entries_unknown id ws (e ∷ es) h k = elim (Bool-cases (str_eq id e.wallet_account_id)) [
  | inl t ↦
      let same : id ≡ e.wallet_account_id = (str_eq_iff id e.wallet_account_id).0 t in
      let there : any (has_id id) ws ≡ true = rw same k.0 in cc (h, there)
  | inr t ↦ rw (t, net_entries_unknown id ws es h k.1) refl
]

net_unknown :
    (id : String) (ws : List WalletAccount) (ts : List LedgerTransaction)
    → any (has_id id) ws ≡ false
    → All (Known ws) ts
    → net id ts ≡ pos 0
unfolding ◌+ℤ◌
net_unknown id ws [] h k = refl
net_unknown id ws (t ∷ ts) h k =
    rw (net_entries_unknown id ws t.entries h k.0, net_unknown id ws ts h k.1) refl

any-more :
    (id : String) (ws : List WalletAccount) (w : WalletAccount)
    → any (has_id id) ws ≡ true
    → any (has_id id) (ws ++ w ∷ []) ≡ true
any-more id [] w h = cc
any-more id (v ∷ ws) w h = ground (arith, any-more id ws w)

UniqueIds-append :
    (ws : List WalletAccount) (w : WalletAccount)
    → any (has_id w.id) ws ≡ false
    → UniqueIds ws
    → UniqueIds (ws ++ w ∷ [])
UniqueIds-append [] w h u = (refl, tt)
UniqueIds-append (v ∷ ws) w h u =
    let (other, rest) = any-false (has_id w.id) v ws h in
    (
      any-append (has_id v.id) ws w u.0 (str_eq_sym w.id v.id ∙ other),
      UniqueIds-append ws w rest u.1,
    )

-- A wallet without money that is added.
create-IsSound :
    (db : Db) (w : WalletAccount)
    → IsSound db
    → w.balance ≡ pos 0
    → any (has_id w.id) db.wallets ≡ false
    → IsSound (record db { wallets = db.wallets ++ w ∷ [] })
create-IsSound db w s h new = record {
  balanced =
      All-append (λ v. v.balance ≡ net v.id db.ledger) db.wallets (w ∷ []) s.balanced
        (h ∙ sym (net_unknown w.id db.wallets db.ledger new s.known), tt);
  solvent =
      All-append (λ v. pos 0 ≤ℤ v.balance) db.wallets (w ∷ []) s.solvent
        (rw h (omega int_laws), tt);
  known =
      All-imp (Known db.wallets) (Known (db.wallets ++ w ∷ []))
        (λ t k.
          All-imp (λ e. any (has_id e.wallet_account_id) db.wallets ≡ true)
            (λ e. any (has_id e.wallet_account_id) (db.wallets ++ w ∷ []) ≡ true)
            (λ e there. any-more e.wallet_account_id db.wallets w there) t.entries k)
        db.ledger s.known;
  amounts = s.amounts;
  unique_keys = s.unique_keys;
  unique_ids = UniqueIds-append db.wallets w new s.unique_ids;
}

pub Keeps-create : (w : WalletAccount) → w.balance ≡ pos 0 → Keeps (create_wallet w)
Keeps-create w h db s = elim (Bool-cases (any (has_id w.id) db.wallets)) [
  | inl taken ↦ IfOk-err SoundAfter (create_wallet_taken w db taken)
  | inr new ↦ IfOk-ok SoundAfter (create_wallet_run w db new) (create-IsSound db w s h new)
]

pub Keeps-ensure :
    (new_wallet_id user_id : String)
    → Keeps (ensure_main_wallet_for_user_id_in_transaction new_wallet_id user_id)
Keeps-ensure new_wallet_id user_id db s =
    elim (Option-cases (find (is_main_of user_id) db.wallets)) [
      | inl missing ↦
          subst (IfOk SoundAfter) (sym (ensure_new new_wallet_id user_id db missing))
            (Keeps-create (new_main_wallet new_wallet_id user_id) refl db s)
      | inr (w, found) ↦ IfOk-ok SoundAfter (ensure_found new_wallet_id user_id db w found) s
    ]
