-- ===== src/Entries/Handler.antt =====
-- The handler of a request to place an entry, and the answer to a request that came second.
use kingspin.Prelude.Result as Result
use kingspin.Store.Tx as Tx
use kingspin.Prelude.{
  ℕ, ⊤, Bool, true, false, not, ◌&&◌, String, Option, none, some, is_some, if◌then◌else◌,
}
use kingspin.Prelude.Int.{ℤ, pos, leb_ℤ}
use kingspin.Prelude.Lists.{find}
use kingspin.Prelude.Text.{Fields, is_empty, ◌<>◌, to_string, str_eq, opt_str_eq}
use kingspin.Prelude.Trim.{trim}
use kingspin.Prelude.Result.{
  Error, Result, ok, err, bad_request, forbidden, unique_constraint, entry_idempotency_race,
  record_not_found, throw_if,
}
use kingspin.Store.Tables.{entry_hold, User, Entry, LedgerTransaction, Db, ledger_type_eq}
use kingspin.Store.Tx.{Tx, commit}
use kingspin.Store.Service.{Service, ◌>>=◌, ◌>>◌, done, fail_if, need, lift, meanwhile}
use kingspin.Store.Queries.{find_transaction, find_wallet_or_throw, get_metadata_string}
use kingspin.Engine.Draw.{is_safe_integer}
use kingspin.Wallets.Matches.{has_text}
use kingspin.Wallets.EntryRefund.{entry_hold_compensation_idempotency_key}
use kingspin.Rounds.Rows.{has_entry_id, find_round_or_throw}
use kingspin.Entries.{PlacementArgs, Placement}
use kingspin.Entries.Request.{is_entry_of}
use kingspin.Entries.Place.{write_entry_placement_in_transaction}

-- The member `amount` of a request: not a number, a number with a fraction, or a whole number.
pub data RawAmount : Type 0 where
  not_a_number not_an_integer : RawAmount
  integer : ℤ → RawAmount

unfoldable pub parse_amount : RawAmount → Result ℤ
parse_amount not_a_number = err (bad_request "amount must be a number.")
parse_amount not_an_integer = err (bad_request "amount must be a safe integer.")
parse_amount (integer n) =
    Result.◌>>◌ (throw_if (not (is_safe_integer n)) (bad_request "amount must be a safe integer."))
      (Result.◌>>◌ (throw_if (leb_ℤ n (pos 0)) (bad_request "amount must be greater than zero."))
        (ok n))

-- A request, with the times and the random ids that the server takes. `idempotency_key` is there if it
-- is a text.
pub record EntryRequest : Type 0 where
  pub room_id : String
  pub user_id : String
  pub raw_amount : RawAmount
  pub idempotency_key : Option String
  pub accepted_at : ℤ
  pub now : ℤ
  pub random_key : String
  pub entry_id : String
  pub ledger_transaction_id : String

-- What the fraud service says of the attempt, with the message of its finding on rapid entries.
pub record FraudEvaluation : Type 0 where
  pub is_block : Bool
  pub rapid_entry_message : Option String

abbrev pub given_key : String → Option String → String
given_key fallback none = fallback
given_key fallback (some key) = if is_empty (trim key) then fallback else trim key

unfoldable pub request_key : EntryRequest → String
request_key q =
    given_key ("entry:" <> q.room_id <> ":" <> q.user_id <> ":" <> q.random_key) q.idempotency_key

abbrev pub to_args : EntryRequest → ℤ → PlacementArgs
to_args q amount = record {
  room_id = q.room_id;
  user_id = q.user_id;
  amount = amount;
  idempotency_key = request_key q;
  request_accepted_at = q.accepted_at;
  entry_id = q.entry_id;
  ledger_transaction_id = q.ledger_transaction_id;
  now = q.now;
}

unfoldable pub assert_fraud_allowed : Option FraudEvaluation → Result ⊤
assert_fraud_allowed none = ok tt
assert_fraud_allowed (some e) = throw_if e.is_block (forbidden (message e.rapid_entry_message))
  where
    message : Option String → String
    message none = "Entry attempt was blocked by fraud protection."
    message (some m) = m

unfoldable pub assert_entry_hold_matches :
    LedgerTransaction → String → String → String → ℤ → Result ⊤
assert_entry_hold_matches t round_id user_id wallet_account_id amount =
    throw_if
      (not (
        ledger_type_eq t.type entry_hold
        && opt_str_eq t.reference_type (some "ENTRY")
        && has_text t.metadata "roundId" round_id
        && has_text t.metadata "userId" user_id
        && has_text t.metadata "walletAccountId" wallet_account_id
        && has_text t.metadata "amount" (to_string amount)))
      (bad_request "Idempotency key was already used for a different entry request.")

-- A member of the metadata that is not empty
abbrev pub truthy : Option String → Option String
truthy none = none
truthy (some s) = if is_empty s then none else some s

abbrev pub text_in : Fields → String → Service String
text_in m key =
    need (truthy (get_metadata_string m key)) (
      bad_request "Previous entry request is missing idempotency metadata. Manual review required.")

abbrev pub find_placed : Option String → String → String → Tx Entry
find_placed entry_id round_id user_id =
    Tx.◌>>=◌ (Tx.gets λ db. find (selects entry_id) db.round_entries)
      (λ e. Tx.or_throw e record_not_found)
  where
    selects : Option String → Entry → Bool
    selects none e = is_entry_of round_id user_id e
    selects (some id) e = has_entry_id id e

abbrev pub find_player : String → Tx User
find_player user_id =
    Tx.◌>>=◌ (Tx.gets λ db. find (λ (u : User). str_eq u.id user_id) db.users)
      (λ u. Tx.or_throw u record_not_found)

-- The rows of an entry that was placed before.
abbrev pub placed_before :
    (ℕ → Db → Db) → LedgerTransaction → String → String → String → Service (Option Placement)
placed_before others t round_id user_id wallet_account_id = do
  e ← commit (find_placed (truthy (get_metadata_string t.metadata "entryId")) round_id user_id)
  meanwhile (others 4)
  w ← commit (find_wallet_or_throw wallet_account_id)
  meanwhile (others 5)
  r ← commit (find_round_or_throw round_id)
  meanwhile (others 6)
  u ← commit (find_player user_id)
  done (some (record { entry = e; player = u; wallet = w; round = r; reused = true }))

abbrev pub inspect_found : (ℕ → Db → Db) → ℤ → LedgerTransaction → Service (Option Placement)
inspect_found others amount t = do
  round_id ← text_in t.metadata "roundId"
  user_id ← text_in t.metadata "userId"
  wallet_account_id ← text_in t.metadata "walletAccountId"
  lift (assert_entry_hold_matches t round_id user_id wallet_account_id amount)
  compensation ← commit (find_transaction (entry_hold_compensation_idempotency_key t.id))
  fail_if (is_some compensation) (
      bad_request (
        "Previous entry request was refunded after a failed write."
        <> " Retry with a new idempotency key."))
  meanwhile (others 3)
  if opt_str_eq (get_metadata_string t.metadata "holdState") (some "HELD")
      then done none
      else placed_before others t round_id user_id wallet_account_id

unfoldable pub inspect_existing_placement_snapshot_by_idempotency_key :
    (ℕ → Db → Db) → String → ℤ → Service (Option Placement)
unfolding find_transaction find_wallet_or_throw find_round_or_throw assert_entry_hold_matches
inspect_existing_placement_snapshot_by_idempotency_key others key amount = do
  found ← commit (find_transaction key)
  meanwhile (others 2)
  elim found [ none ↦ done none | some t ↦ inspect_found others amount t ]

abbrev pub is_repeated : Error → Bool
is_repeated unique_constraint = true
is_repeated entry_idempotency_race = true
is_repeated _ = false

abbrev pub catch_repeated : {A : Type 0} → Service A → Service A → Service A
catch_repeated m handler db =
    let (r, next) = m db in
    elim r [ ok a ↦ (ok a, next) | err e ↦ if is_repeated e then handler next else (err e, next) ]

-- The `catch` block
abbrev pub answer_repeated : (ℕ → Db → Db) → String → ℤ → Service Placement
answer_repeated others key amount = do
  found ← inspect_existing_placement_snapshot_by_idempotency_key others key amount
  need found (
      bad_request
        ("Duplicate entry request detected." <> " Use a new idempotency key and retry safely."))

abbrev pub snapshot : Service Db
snapshot db = (ok db, db)

-- The transaction: what is committed between the statement's snapshot and its writes is `others 1`.
abbrev pub place_once : (ℕ → Db → Db) → PlacementArgs → Service Placement
place_once others args = do
  before ← snapshot
  meanwhile (others 1)
  commit (write_entry_placement_in_transaction args before)

unfoldable pub place_entry_for_user :
    Option FraudEvaluation → (ℕ → Db → Db) → EntryRequest → Service Placement
unfolding parse_amount request_key assert_fraud_allowed write_entry_placement_in_transaction
    inspect_existing_placement_snapshot_by_idempotency_key
place_entry_for_user fraud others q = do
  fail_if (is_empty q.room_id) (bad_request "roomId is required.")
  fail_if (is_empty q.user_id) (bad_request "Authenticated user id is required.")
  amount ← lift (parse_amount q.raw_amount)
  lift (assert_fraud_allowed fraud)
  meanwhile (others 0)
  catch_repeated (place_once others (to_args q amount))
      (answer_repeated others (request_key q) amount)
