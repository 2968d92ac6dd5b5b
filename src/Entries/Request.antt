-- ===== src/Entries/Request.antt =====
-- The part of the statement that reads: the rows of the request, and what makes it writable. All reads
-- are of the database before the statement.
use kingspin.Prelude.{Bool, true, not, ◌&&◌, String, List, Option, none, some, is_some}
use kingspin.Prelude.Int.{ℤ, ltb_ℤ}
use kingspin.Prelude.Lists.{find}
use kingspin.Prelude.Text.{str_eq, opt_str_eq, lookup, to_string}
use kingspin.Store.Tables.{
  entry_hold, User, Category, Room, Round, Entry, WalletAccount, LedgerTransaction, Db,
  ledger_type_eq,
}
use kingspin.Store.Queries.{has_key}
use kingspin.Engine.Machine.{open_round, status_eq}
use kingspin.Wallets.Matches.{is_debit}
use kingspin.Wallets.Money.{is_main_of}
use kingspin.Rounds.Rows.{latest}
use kingspin.Entries.{PlacementArgs}
use kingspin.Entries.Sql.{and_sql, eq_text, eq_number, coalesce}

-- `selected_user` to `existing_transaction`, and `existing_entry`
pub record RequestRows : Type 0 where
  pub user : Option User
  pub room : Option Room
  pub category : Option Category
  pub open_round : Option Round
  pub wallet : Option WalletAccount
  pub transaction : Option LedgerTransaction
  pub entry : Option Entry

-- `r."locksAt" IS NULL OR r."locksAt" > i.request_accepted_at`
abbrev pub takes_entries : Option ℤ → ℤ → Bool
takes_entries none accepted_at = true
takes_entries (some t) accepted_at = ltb_ℤ accepted_at t

abbrev pub is_open_for : PlacementArgs → Round → Bool
is_open_for args r =
    str_eq r.room_id args.room_id
    && status_eq r.status open_round
    && takes_entries r.locks_at args.request_accepted_at

abbrev pub category_of : Option Room → List Category → Option Category
category_of none cs = none
category_of (some r) cs = find (λ c. str_eq c.id r.category_id) cs

abbrev pub member : Option LedgerTransaction → String → Option String
member none key = none
member (some t) key = lookup key t.metadata

abbrev pub reference_of : Option LedgerTransaction → Option String
reference_of none = none
reference_of (some t) = t.reference_id

abbrev pub round_id_of : Option Round → Option String
round_id_of none = none
round_id_of (some r) = some r.id

abbrev pub wallet_id_of : Option WalletAccount → Option String
wallet_id_of none = none
wallet_id_of (some w) = some w.id

-- `rc.round_id`: that of the earlier transaction, or else the open round
abbrev pub target_round : Option LedgerTransaction → Option Round → Option String
target_round t r = coalesce (member t "roundId") (round_id_of r)

-- `rc.wallet_account_id`
abbrev pub target_wallet : RequestRows → Option String
target_wallet rows = coalesce (member rows.transaction "walletAccountId") (wallet_id_of rows.wallet)

abbrev pub is_entry_of : String → String → Entry → Bool
is_entry_of round_id user_id e = str_eq e.round_id round_id && str_eq e.user_id user_id

abbrev pub entry_in : Option String → String → List Entry → Option Entry
entry_in none user_id es = none
entry_in (some round_id) user_id es = find (is_entry_of round_id user_id) es

unfoldable pub request_rows : PlacementArgs → Db → RequestRows
request_rows args db =
    let room = find (λ (r : Room). str_eq r.id args.room_id) db.rooms in
    let open_now = latest (is_open_for args) db.rounds in
    let earlier = find (has_key args.idempotency_key) db.ledger in
    record {
      user = find (λ (u : User). str_eq u.id args.user_id) db.users;
      room = room;
      category = category_of room db.categories;
      open_round = open_now;
      wallet = find (is_main_of args.user_id) db.wallets;
      transaction = earlier;
      entry = entry_in (target_round earlier open_now) args.user_id db.round_entries;
    }

-- The first debit of the earlier transaction.
abbrev pub debit_wallet_of : LedgerTransaction → Option String
debit_wallet_of t = elim (find is_debit t.entries) [
  | none ↦ none
  | some e ↦ some e.wallet_account_id
]

abbrev pub debit_amount_of : LedgerTransaction → Option ℤ
debit_amount_of t = elim (find is_debit t.entries) [ none ↦ none | some e ↦ some e.amount ]

-- `tx_matches`
abbrev matches_row : PlacementArgs → Option String → Option String → LedgerTransaction → Option Bool
matches_row args round_id wallet_id t = and_sql (some (ledger_type_eq t.type entry_hold)) (
    and_sql (eq_text t.reference_type (some "ENTRY")) (
      and_sql (eq_text (debit_wallet_of t) wallet_id) (
        and_sql (eq_number (debit_amount_of t) (some args.amount)) (
          and_sql (eq_text (lookup "roundId" t.metadata) round_id) (
            and_sql (eq_text (lookup "userId" t.metadata) (some args.user_id)) (
              and_sql (eq_text (lookup "walletAccountId" t.metadata) wallet_id)
                (eq_text (lookup "amount" t.metadata) (some (to_string args.amount)))))))))

unfoldable pub tx_matches : PlacementArgs → RequestRows → Option Bool
tx_matches args rows = elim rows.transaction [
  | none ↦ some true
  | some t ↦ matches_row args (target_round rows.transaction rows.open_round) (target_wallet rows) t
]

abbrev pub tx_exists : RequestRows → Bool
tx_exists rows = is_some rows.transaction

-- A row that is not held was applied before.
abbrev pub applied_replay : RequestRows → Bool
applied_replay rows =
    tx_exists rows && not (opt_str_eq (member rows.transaction "holdState") (some "HELD"))

abbrev pub held_retry : RequestRows → Bool
held_retry rows = tx_exists rows && opt_str_eq (member rows.transaction "holdState") (some "HELD")

-- `transaction_target_entry_id` of an earlier row
abbrev pub transaction_entry_id : RequestRows → Option String
transaction_entry_id rows =
    coalesce (member rows.transaction "entryId") (reference_of rows.transaction)

unfoldable pub target_entry_id : PlacementArgs → RequestRows → Option String
target_entry_id args rows = elim rows.transaction [
  | some t ↦ transaction_entry_id rows
  | none ↦ elim rows.entry [ some e ↦ some e.id | none ↦ some args.entry_id ]
]
