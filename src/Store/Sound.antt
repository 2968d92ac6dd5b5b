-- ===== src/Store/Sound.antt =====
-- What holds of the database between two transactions: the balance of a wallet is what the ledger
-- says, no balance is negative, and ids and idempotency keys are unique.
pub mod Debit
pub mod Post
pub mod Rules
pub mod Relabel
use kingspin.Prelude.{
  ◌≡◌, refl, sym, ◌∙◌, Bool, true, false, String, List, [], ◌∷◌, ◌++◌, arith, if◌then◌else◌,
}
use kingspin.Prelude.Int.{ℤ, pos, ◌+ℤ◌, ◌-ℤ◌, ◌≤ℤ◌, int_laws}
use kingspin.Prelude.Lists.{All, any}
use kingspin.Prelude.Text.{str_eq}
use kingspin.Store.Tables.{
  LedgerEntryDirection, credit, debit, WalletAccount, LedgerEntry, LedgerTransaction, Db,
}
use kingspin.Store.Queries.{has_key, has_id}

abbrev pub signed : LedgerEntryDirection → ℤ → ℤ
signed credit amount = amount
signed debit amount = pos 0 -ℤ amount

-- What an entry adds to the wallet of the given id.
abbrev pub effect : String → LedgerEntry → ℤ
effect id e = if str_eq id e.wallet_account_id then signed e.direction e.amount else pos 0

abbrev pub net_entries : String → List LedgerEntry → ℤ
net_entries id [] = pos 0
net_entries id (e ∷ es) = effect id e +ℤ net_entries id es

-- The credits of a wallet less its debits, over the whole ledger.
abbrev pub net : String → List LedgerTransaction → ℤ
net id [] = pos 0
net id (t ∷ ts) = net_entries id t.entries +ℤ net id ts

abbrev pub UniqueKeys : List LedgerTransaction → Type 0
UniqueKeys [] = Unit
UniqueKeys (t ∷ ts) = (any (has_key t.idempotency_key) ts ≡ false) × UniqueKeys ts

abbrev pub UniqueIds : List WalletAccount → Type 0
UniqueIds [] = Unit
UniqueIds (w ∷ ws) = (any (has_id w.id) ws ≡ false) × UniqueIds ws

abbrev pub NonNegative : LedgerTransaction → Type 0
NonNegative t = All (λ e. pos 0 ≤ℤ e.amount) t.entries

-- The foreign key of an entry: its wallet is there.
abbrev pub Known : List WalletAccount → LedgerTransaction → Type 0
Known ws t = All (λ e. any (has_id e.wallet_account_id) ws ≡ true) t.entries

pub record IsSound (db : Db) : Type 0 where
  pub balanced : All (λ w. w.balance ≡ net w.id db.ledger) db.wallets
  pub solvent : All (λ w. pos 0 ≤ℤ w.balance) db.wallets
  pub known : All (Known db.wallets) db.ledger
  pub amounts : All NonNegative db.ledger
  pub unique_keys : UniqueKeys db.ledger
  pub unique_ids : UniqueIds db.wallets

pub net-append :
    (id : String) (ts : List LedgerTransaction) (t : LedgerTransaction)
    → net id (ts ++ t ∷ []) ≡ net id ts +ℤ net_entries id t.entries
net-append id [] t = omega int_laws
net-append id (s ∷ ts) t = rw (net-append id ts t) (omega int_laws)
