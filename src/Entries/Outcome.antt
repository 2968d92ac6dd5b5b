-- ===== src/Entries/Outcome.antt =====
-- What a new placement has to do, in the words of its request.
use kingspin.Prelude.{
  if◌then◌else◌, ◌&&◌, Bool, false, ◌≡◌, String, List, [], ◌∷◌, ◌++◌, map, Option, none, some,
}
use kingspin.Prelude.Int.{ℤ, ◌+ℤ◌, ◌-ℤ◌}
use kingspin.Prelude.Lists.{find, any}
use kingspin.Prelude.Text.{to_string, str_eq}
use kingspin.Store.Tables.{entry_hold, debit, LedgerTransaction, WalletAccount, Entry, Round, Db}
use kingspin.Store.Queries.{has_key, pay, can_pay}
use kingspin.Rounds.Rows.{has_entry_id, latest}
use kingspin.Entries.{PlacementArgs, Placement}
use kingspin.Entries.Request.{is_open_for, wallet_id_of}
use kingspin.Entries.Ledger.{total_in}
use kingspin.Wallets.Money.{is_main_of}
use kingspin.Entries.Status.{shown_round}

-- The entry after the placement, by the entry of that round and player before it.
abbrev pub entry_after : PlacementArgs → String → String → Option Entry → Entry
entry_after args round_id id none = record {
  id = id;
  round_id = round_id;
  user_id = args.user_id;
  amount = args.amount;
  ticket_start = none;
  ticket_end = none;
  is_winner = false;
  created_at = args.now;
}
entry_after args round_id id (some old) = record old {
  amount = old.amount +ℤ args.amount;
  ticket_start = none;
  ticket_end = none;
}

abbrev pub is_of : String → String → Entry → Bool
is_of round_id user_id e = str_eq e.round_id round_id && str_eq e.user_id user_id

abbrev pub entries_after : PlacementArgs → String → Entry → Option Entry → List Entry → List Entry
entries_after args round_id e none es = es ++ e ∷ []
entries_after args round_id e (some old) es =
    map (λ x. if is_of round_id args.user_id x then entry_after args round_id x.id (some x) else x)
      es

-- The row of the ledger. Its totals are those of the entries that the snapshot showed.
abbrev pub row_of : PlacementArgs → String → WalletAccount → Entry → ℤ → LedgerTransaction
row_of args round_id w e total = record {
  id = args.ledger_transaction_id;
  type = entry_hold;
  reference_type = some "ENTRY";
  reference_id = some e.id;
  idempotency_key = args.idempotency_key;
  metadata =
      ("userId", args.user_id)
      ∷ ("roundId", round_id)
      ∷ ("entryId", e.id)
      ∷ ("amount", to_string args.amount)
      ∷ ("walletAccountId", w.id)
      ∷ ("holdState", "APPLIED")
      ∷ ("entryAmountAfter", to_string e.amount)
      ∷ ("roundTotalEntryAmountAfter", to_string total)
      ∷ ("roundPayoutAmountAfter", to_string total)
      ∷ [];
  entries =
      record {
        wallet_account_id = w.id;
        direction = debit;
        amount = args.amount;
        balance_after = w.balance;
      }
      ∷ [];
}

pub record IsPlaced (args : PlacementArgs) (before db : Db) (p : Placement) (next : Db)
    : Type 0 where
  pub round : Round
  pub round_found : latest (is_open_for args) before.rounds ≡ some round
  pub round_is : p.round ≡ shown_round before round
  pub main_found : wallet_id_of (find (is_main_of args.user_id) before.wallets) ≡ some p.wallet.id
  pub payer : WalletAccount
  pub payer_found : find (can_pay p.wallet.id args.user_id args.amount) db.wallets ≡ some payer
  pub wallet_is : p.wallet ≡ record payer { balance = payer.balance -ℤ args.amount }
  pub entry_is :
      p.entry
      ≡ entry_after args round.id p.entry.id (find (is_of round.id args.user_id) db.round_entries)
  pub id_is_new :
      find (is_of round.id args.user_id) db.round_entries ≡ none
      → any (has_entry_id p.entry.id) db.round_entries ≡ false
  pub key_is_new : any (has_key args.idempotency_key) db.ledger ≡ false
  pub next_is : next ≡ record db {
    wallets = map (pay p.wallet.id args.user_id args.amount) db.wallets;
    ledger = db.ledger ++ row_of args round.id p.wallet p.entry (total_in round.id before) ∷ [];
    round_entries =
        entries_after args round.id p.entry
          (find (is_of round.id args.user_id) db.round_entries)
          db.round_entries;
  }
