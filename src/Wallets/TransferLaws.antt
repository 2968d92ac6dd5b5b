-- ===== src/Wallets/TransferLaws.antt =====
-- What a transfer does to the wallets and to the ledger.
use kingspin.Prelude.{
  ◌≡◌, refl, ◌∙◌, true, false, String, List, [], ◌∷◌, ◌++◌, map, none, some, arith,
}
use kingspin.Prelude.Int.{ℤ, ◌+ℤ◌, ◌-ℤ◌, int_laws}
use kingspin.Prelude.Lists.{any, find}
use kingspin.Prelude.Result.{ok, err, bad_request, unique_constraint, record_not_found}
use kingspin.Store.Tables.{credit, debit, WalletAccount, Db}
use kingspin.Store.Queries.{
  has_id, has_key, adjust, pay, can_pay, decrement_balance, increment_balance, create_transaction,
}
use kingspin.Store.Sound.{net_entries}
use kingspin.Store.Sound.Post.{adjust-moves, adjust-KeepsId}
use kingspin.Wallets.Transfers.{TransferArgs, transfer_row, transfer_tx}

-- The wallets when the sender has paid.
abbrev pub paid : String → String → ℤ → Db → List WalletAccount
paid id user_id amount db = map (pay id user_id amount) db.wallets

-- The rows as the two updates return them.
abbrev pub lowered : ℤ → WalletAccount → WalletAccount
lowered amount w = record w { balance = w.balance -ℤ amount }

abbrev pub raised : ℤ → WalletAccount → WalletAccount
raised amount w = record w { balance = w.balance +ℤ amount }

-- Both balances changed.
abbrev pub moved : String → String → ℤ → WalletAccount → WalletAccount
moved from to amount w = adjust (λ b. b +ℤ amount) to (adjust (λ b. b -ℤ amount) from w)

pub transfer_refused :
    (new_id user_id : String) (args : TransferArgs) (from to : WalletAccount) (db : Db)
    → find (can_pay from.id user_id args.amount) db.wallets ≡ none
    → transfer_tx new_id user_id args from to db ≡ err (bad_request "Insufficient wallet balance.")
unfolding transfer_tx decrement_balance
transfer_refused new_id user_id args from to db h = ground arith

pub transfer_missing :
    (new_id user_id : String) (args : TransferArgs) (from to : WalletAccount) (db : Db)
    (w : WalletAccount)
    → find (can_pay from.id user_id args.amount) db.wallets ≡ some w
    → find (has_id to.id) (paid from.id user_id args.amount db) ≡ none
    → transfer_tx new_id user_id args from to db ≡ err record_not_found
unfolding transfer_tx decrement_balance increment_balance
transfer_missing new_id user_id args from to db w h k = ground arith

pub transfer_taken :
    (new_id user_id : String) (args : TransferArgs) (from to : WalletAccount) (db : Db)
    (w v : WalletAccount)
    → find (can_pay from.id user_id args.amount) db.wallets ≡ some w
    → find (has_id to.id) (paid from.id user_id args.amount db) ≡ some v
    → any (has_key args.idempotency_key) db.ledger ≡ true
    → transfer_tx new_id user_id args from to db ≡ err unique_constraint
unfolding transfer_tx decrement_balance increment_balance create_transaction
transfer_taken new_id user_id args from to db w v h k t = ground arith

pub transfer_run :
    (new_id user_id : String) (args : TransferArgs) (from to : WalletAccount) (db : Db)
    (w v : WalletAccount)
    → find (can_pay from.id user_id args.amount) db.wallets ≡ some w
    → find (has_id to.id) (paid from.id user_id args.amount db) ≡ some v
    → any (has_key args.idempotency_key) db.ledger ≡ false
    → transfer_tx new_id user_id args from to db
      ≡ ok (
        transfer_row new_id user_id args (lowered args.amount w) (raised args.amount v),
        record db {
          wallets =
              map (adjust (λ b. b +ℤ args.amount) to.id) (paid from.id user_id args.amount db);
          ledger =
              db.ledger
              ++ transfer_row new_id user_id args (lowered args.amount w) (raised args.amount v)
                ∷ [];
        },
      )
unfolding transfer_tx decrement_balance increment_balance create_transaction
transfer_run new_id user_id args from to db w v h k t = ground arith

pub map-map :
    (f g : WalletAccount → WalletAccount) (ws : List WalletAccount)
    → map g (map f ws) ≡ map (λ w. g (f w)) ws
map-map f g [] = refl
map-map f g (w ∷ ws) = rw (map-map f g ws) refl

-- The two entries say how the balances move.
pub moved-balance :
    (from to : String) (a b c : ℤ) (w : WalletAccount)
    → (moved from to a w).balance
      ≡ w.balance
        +ℤ net_entries w.id (
            record { wallet_account_id = from; direction = debit; amount = a; balance_after = b }
            ∷ record { wallet_account_id = to; direction = credit; amount = a; balance_after = c }
            ∷ [])
moved-balance from to a b c w =
    let first = adjust-moves from debit a b (λ x. x -ℤ a) (λ x. omega int_laws) w in
    let second =
      adjust-moves to credit a c (λ x. x +ℤ a) (λ x. refl) (adjust (λ x. x -ℤ a) from w) in
    second ∙ rw (first, adjust-KeepsId (λ x. x -ℤ a) from w) (omega int_laws)
