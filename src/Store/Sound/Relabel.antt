-- ===== src/Store/Sound/Relabel.antt =====
-- A change of ledger rows that leaves their keys and their entries alone.
use kingspin.Prelude.{◌≡◌, refl, String, List, [], ◌∷◌, map}
use kingspin.Prelude.Lists.{All-map, All-imp, any}
use kingspin.Store.Tables.{LedgerTransaction, Db}
use kingspin.Store.Queries.{has_key}
use kingspin.Store.Sound.{net, UniqueKeys, NonNegative, Known, IsSound}

pub record KeepsMoney (f : LedgerTransaction → LedgerTransaction) : Type 0 where
  pub same_key : (t : LedgerTransaction) → (f t).idempotency_key ≡ t.idempotency_key
  pub same_entries : (t : LedgerTransaction) → (f t).entries ≡ t.entries

module _ (f : LedgerTransaction → LedgerTransaction) (k : KeepsMoney f) where
  net-map : (id : String) (ts : List LedgerTransaction) → net id (map f ts) ≡ net id ts
  net-map id [] = refl
  net-map id (t ∷ ts) = rw (k.same_entries t, net-map id ts) refl

  any-relabel :
      (key : String) (ts : List LedgerTransaction)
      → any (has_key key) (map f ts) ≡ any (has_key key) ts
  any-relabel key [] = refl
  any-relabel key (t ∷ ts) = rw (k.same_key t, any-relabel key ts) refl

  UniqueKeys-map : (ts : List LedgerTransaction) → UniqueKeys ts → UniqueKeys (map f ts)
  UniqueKeys-map [] u = tt
  UniqueKeys-map (t ∷ ts) u =
      (rw (k.same_key t, any-relabel t.idempotency_key ts) u.0, UniqueKeys-map ts u.1)

  pub relabel-IsSound : (db : Db) → IsSound db → IsSound (record db { ledger = map f db.ledger })
  relabel-IsSound db s = record {
    balanced =
        All-imp (λ w. w.balance ≡ net w.id db.ledger) (λ w. w.balance ≡ net w.id (map f db.ledger))
          (λ w h. rw (net-map w.id db.ledger) h) db.wallets s.balanced;
    solvent = s.solvent;
    known =
        All-map (Known db.wallets) (Known db.wallets) f (λ t h. rw (k.same_entries t) h) db.ledger
          s.known;
    amounts =
        All-map NonNegative NonNegative f (λ t h. rw (k.same_entries t) h) db.ledger s.amounts;
    unique_keys = UniqueKeys-map db.ledger s.unique_keys;
    unique_ids = s.unique_ids;
  }
