-- ===== src/Wallets/MainWallet.antt =====
-- How a main wallet is found or made.
use kingspin.Prelude.{◌≡◌, true, false, String, [], ◌∷◌, ◌++◌, none, some, arith}
use kingspin.Prelude.Lists.{any, find}
use kingspin.Prelude.Result.{ok, err, unique_constraint}
use kingspin.Store.Tables.{WalletAccount, Db}
use kingspin.Store.Queries.{has_id}
use kingspin.Wallets.Money.{
  create_wallet, ensure_main_wallet_for_user_id_in_transaction, is_main_of, new_main_wallet,
}

pub create_wallet_run :
    (w : WalletAccount) (db : Db)
    → any (has_id w.id) db.wallets ≡ false
    → create_wallet w db ≡ ok (w, record db { wallets = db.wallets ++ w ∷ [] })
unfolding create_wallet
create_wallet_run w db new = ground arith

pub create_wallet_taken :
    (w : WalletAccount) (db : Db)
    → any (has_id w.id) db.wallets ≡ true
    → create_wallet w db ≡ err unique_constraint
unfolding create_wallet
create_wallet_taken w db taken = ground arith

pub ensure_found :
    (new_wallet_id user_id : String) (db : Db) (w : WalletAccount)
    → find (is_main_of user_id) db.wallets ≡ some w
    → ensure_main_wallet_for_user_id_in_transaction new_wallet_id user_id db ≡ ok (w, db)
unfolding ensure_main_wallet_for_user_id_in_transaction
ensure_found new_wallet_id user_id db w found = ground arith

pub ensure_new :
    (new_wallet_id user_id : String) (db : Db)
    → find (is_main_of user_id) db.wallets ≡ none
    → ensure_main_wallet_for_user_id_in_transaction new_wallet_id user_id db
      ≡ create_wallet (new_main_wallet new_wallet_id user_id) db
unfolding ensure_main_wallet_for_user_id_in_transaction
ensure_new new_wallet_id user_id db missing = ground arith
