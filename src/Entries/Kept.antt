-- ===== src/Entries/Kept.antt =====
-- The handler of a request, among what other requests commit between its statements.
use kingspin.Store.Service as Service
use kingspin.Store.Invariant.InTx as InTx
use kingspin.Prelude.{
  ◌≡◌, refl, ℕ, Bool, true, false, String, Option, none, some, is_some, arith, if◌then◌else◌,
}
use kingspin.Prelude.Int.{ℤ, pos, ◌≤ℤ◌}
use kingspin.Prelude.Lists.{find}
use kingspin.Prelude.Text.{is_empty, opt_str_eq, ◌<>◌, str_eq}
use kingspin.Prelude.Result.{Error, Result, ok, err, bad_request, record_not_found}
use kingspin.Store.Tables.{User, LedgerTransaction, Db}
use kingspin.Store.Tx.{commit}
use kingspin.Store.Service.{Service}
use kingspin.Store.Queries.{
  find_transaction, find_wallet_or_throw, has_key, has_id, get_metadata_string,
}
use kingspin.Store.Sound.{IsSound}
use kingspin.Store.Invariant.InTx.{InTx}
use kingspin.Store.Invariant.Holds.{
  Holds, ◌>>=◌, ◌>>◌, commits, dones, fails_if, needs, lifts, others_keep, either, cases_option,
}
use kingspin.Wallets.EntryRefund.{entry_hold_compensation_idempotency_key}
use kingspin.Rounds.Rows.{find_round, find_round_or_throw, is_round}
use kingspin.Entries.{PlacementArgs}
use kingspin.Entries.Place.{write_entry_placement_in_transaction}
use kingspin.Entries.Handler.{
  RawAmount, integer, not_a_number, not_an_integer, EntryRequest, FraudEvaluation, parse_amount,
  request_key, to_args, assert_fraud_allowed, assert_entry_hold_matches, truthy, find_placed,
  find_player, placed_before, inspect_found, inspect_existing_placement_snapshot_by_idempotency_key,
  is_repeated, catch_repeated, answer_repeated, snapshot, place_entry_for_user,
}
use kingspin.Entries.Sound.{write_entry_placement-IsSound}

-- What comes after a check knows what the check returned.
checked :
    {P : Db → Type 0} {A B : Type 0} (r : Result A) (f : A → Service B)
    → ((a : A) → r ≡ ok a → Holds P (f a))
    → Holds P (Service.◌>>=◌ (Service.lift r) f)
checked (ok a) f h = record { kept = λ db p. (h a refl).kept db p }
checked (err e) f h = record { kept = λ db p. p }

catches_repeated :
    {P : Db → Type 0} {A : Type 0} {m handler : Service A}
    → Holds P m
    → Holds P handler
    → Holds P (catch_repeated m handler)
catches_repeated {P} {A} {m} {handler} h k = record { kept = λ db p. go (m db) (h.kept db p) }
  where
    on_error :
        (b : Bool) (x : Error) (d : Db)
        → P d
        → P (if◌then◌else◌ {A = Result A × Db} b (handler d) (err x, d)).1
    on_error true x d g = k.kept d g
    on_error false x d g = g

    go :
        (q : Result A × Db)
        → P q.1
        → P
            (elim q.0 as (λ x. Result A × Db) [
              | ok a ↦ (ok a, q.1)
              | err x ↦ if is_repeated x then handler q.1 else (err x, q.1)
            ]).1
    go (ok a, d) g = g
    go (err x, d) g = on_error (is_repeated x) x d g

-- An amount that is parsed is positive.
pub parse_amount-positive : (raw : RawAmount) (n : ℤ) → parse_amount raw ≡ ok n → pos 1 ≤ℤ n
unfolding parse_amount
parse_amount-positive not_a_number n h = cc
parse_amount-positive not_an_integer n h = cc
parse_amount-positive (integer m) n h = ground arith

module _ (P : Db → Type 0) (others : ℕ → Db → Db)
    (k : (i : ℕ) (db : Db) → P db → P (others i db)) where
  finds : (key : String) → Holds P (commit (find_transaction key))
  unfolding find_transaction
  finds key = commits (InTx.reads λ db. find (has_key key) db.ledger)

  finds_wallet : (id : String) → Holds P (commit (find_wallet_or_throw id))
  unfolding find_wallet_or_throw
  finds_wallet id =
      commits (
        InTx.◌>>=◌ (InTx.reads λ db. find (has_id id) db.wallets)
          λ w. InTx.needs w record_not_found)

  finds_round : (id : String) → Holds P (commit (find_round_or_throw id))
  unfolding find_round_or_throw find_round
  finds_round id = commits (
      InTx.◌>>=◌ (InTx.reads λ db. find (is_round id) db.rounds) λ r. InTx.needs r record_not_found)

  finds_player : (id : String) → Holds P (commit (find_player id))
  finds_player id = commits (
      InTx.◌>>=◌ (InTx.reads λ db. find (λ (u : User). str_eq u.id id) db.users)
        λ u. InTx.needs u record_not_found)

  finds_placed :
      (entry_id : Option String) (round_id user_id : String)
      → Holds P (commit (find_placed entry_id round_id user_id))
  finds_placed entry_id round_id user_id =
      commits (InTx.◌>>=◌ (InTx.reads _) λ e. InTx.needs e record_not_found)

  shows_placed :
      (t : LedgerTransaction) (round_id user_id wallet_id : String)
      → Holds P (placed_before others t round_id user_id wallet_id)
  shows_placed t round_id user_id wallet_id = do
    e ← finds_placed (truthy (get_metadata_string t.metadata "entryId")) round_id user_id
    others_keep (others 4) (k 4)
    w ← finds_wallet wallet_id
    others_keep (others 5) (k 5)
    r ← finds_round round_id
    others_keep (others 6) (k 6)
    u ← finds_player user_id
    dones (some (record { entry = e; player = u; wallet = w; round = r; reused = true }))

  inspects_found : (amount : ℤ) (t : LedgerTransaction) → Holds P (inspect_found others amount t)
  inspects_found amount t = do
    round_id ← needs (truthy (get_metadata_string t.metadata "roundId")) missing
    user_id ← needs (truthy (get_metadata_string t.metadata "userId")) missing
    wallet_id ← needs (truthy (get_metadata_string t.metadata "walletAccountId")) missing
    lifts (assert_entry_hold_matches t round_id user_id wallet_id amount)
    compensation ← finds (entry_hold_compensation_idempotency_key t.id)
    fails_if (is_some compensation) (
        bad_request (
          "Previous entry request was refunded after a failed write."
          <> " Retry with a new idempotency key."))
    others_keep (others 3) (k 3)
    either (opt_str_eq (get_metadata_string t.metadata "holdState") (some "HELD")) (dones none)
        (shows_placed t round_id user_id wallet_id)
    where
      missing : Error
      missing =
          bad_request
            "Previous entry request is missing idempotency metadata. Manual review required."

  pub inspects :
      (key : String) (amount : ℤ)
      → Holds P (inspect_existing_placement_snapshot_by_idempotency_key others key amount)
  unfolding inspect_existing_placement_snapshot_by_idempotency_key
  inspects key amount = do
    found ← finds key
    others_keep (others 2) (k 2)
    cases_option found (dones none) (inspects_found amount)

  answers_repeated : (key : String) (amount : ℤ) → Holds P (answer_repeated others key amount)
  answers_repeated key amount = do
    found ← inspects key amount
    needs found (
        bad_request
          ("Duplicate entry request detected." <> " Use a new idempotency key and retry safely."))

  -- The handler keeps what its transaction keeps.
  pub handles :
      ((args : PlacementArgs) (before : Db)
        → pos 0 ≤ℤ args.amount
        → InTx P (write_entry_placement_in_transaction args before))
      → (fraud : Option FraudEvaluation) (q : EntryRequest)
      → Holds P (place_entry_for_user fraud others q)
  unfolding place_entry_for_user
  handles writes fraud q = do
    fails_if (is_empty q.room_id) (bad_request "roomId is required.")
    fails_if (is_empty q.user_id) (bad_request "Authenticated user id is required.")
    checked (parse_amount q.raw_amount) _ λ amount parsed. do
      lifts (assert_fraud_allowed fraud)
      others_keep (others 0) (k 0)
      catches_repeated
          (do
            before ← reads_db
            others_keep (others 1) (k 1)
            commits (
                writes (to_args q amount) before
                  (positive amount (parse_amount-positive q.raw_amount amount parsed))))
          (answers_repeated (request_key q) amount)
    where
      positive : (n : ℤ) → pos 1 ≤ℤ n → pos 0 ≤ℤ n
      positive n h = omega arith

      reads_db : Holds P snapshot
      reads_db = record { kept = λ db p. p }

-- A request to place an entry leaves a sound database sound, whatever it answers, and whatever other
-- requests, which keep it sound, commit before its statements and between the snapshot of the
-- placement and its writes.
pub place_entry-IsSound :
    (fraud : Option FraudEvaluation) (others : ℕ → Db → Db) (q : EntryRequest) (db : Db)
    → ((i : ℕ) (d : Db) → IsSound d → IsSound (others i d))
    → IsSound db
    → IsSound (place_entry_for_user fraud others q db).1
place_entry-IsSound fraud others q db k s =
    (handles IsSound others k write_entry_placement-IsSound fraud q).kept db s
