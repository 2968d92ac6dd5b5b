-- ===== src/Rounds/Settle.antt =====
-- The settlement of a round (apps/api/src/modules/rounds/rounds.service.ts): the winner is paid, the
-- house takes its fee, and the round is completed. The scoring of the winner for fraud, which the
-- source starts and does not wait for, is left out.
use kingspin.Prelude.{
  ℕ, Bool, true, not, ◌&&◌, ◌||◌, String, [], ◌∷◌, Option, none, some, ◌==◌, if◌then◌else◌,
}
use kingspin.Prelude.Int.{ℤ, pos, leb_ℤ}
use kingspin.Prelude.Text.{is_empty, str_eq}
use kingspin.Prelude.Result.{bad_request, record_not_found}
use kingspin.Store.Tables.{Round, Entry, Db}
use kingspin.Store.Tx as Tx
use kingspin.Store.Tx.{Tx, commit}
use kingspin.Store.Service.{Service, ◌>>=◌, ◌>>◌, meanwhile, fail_if, need, done, fail}
use kingspin.Engine.Machine.{settling, completed, status_eq}
use kingspin.Engine.Proof.{is_truthy, text_or_empty}
use kingspin.Wallets.{MoneyMutationResult}
use kingspin.Wallets.Matches.{RoundWinArgs, PlatformFeeArgs}
use kingspin.Wallets.Wins.{credit_round_win, credit_platform_fee}
use kingspin.Rounds.Rows.{
  in_room, is_round, find_latest_round, find_round_or_throw, update_rounds, find_entry,
}

pub record SettleResult : Type 0 where
  pub round : Round
  pub winner_entry : Option Entry
  pub payout : Option MoneyMutationResult
  pub platform_fee : Option MoneyMutationResult
  pub reused : Bool

-- The ids of the rows that a settlement may make.
pub record SettleIds : Type 0 where
  pub wallet_id : String
  pub win_id : String
  pub fee_id : String

abbrev pub int_or_zero : Option ℤ → ℤ
int_or_zero none = pos 0
int_or_zero (some n) = n

abbrev pub win_args : Round → RoundWinArgs
win_args r = record {
  user_id = text_or_empty r.winner_user_id;
  round_id = r.id;
  winner_entry_id = text_or_empty r.winner_entry_id;
  amount = r.payout_amount;
}

abbrev pub fee_args : Round → PlatformFeeArgs
fee_args r = record {
  round_id = r.id;
  amount = r.house_fee_amount;
  platform_fee_bps = int_or_zero r.platform_fee_bps;
}

abbrev pub is_completed_with_winner : Round → Bool
is_completed_with_winner r =
    status_eq r.status completed && is_truthy r.winner_entry_id && is_truthy r.winner_user_id

-- No round is settling: a settlement that was already completed is answered again.
abbrev pub already_settled : Option Round → Service SettleResult
already_settled none = fail (bad_request "Room does not have a SETTLING round ready to complete.")
already_settled (some r) =
    if is_completed_with_winner r
    then (do
      winner ← commit (find_entry (text_or_empty r.winner_entry_id))
      done (record {
        round = r;
        winner_entry = winner;
        payout = none;
        platform_fee = none;
        reused = true;
      }))
    else fail (bad_request "Room does not have a SETTLING round ready to complete.")

abbrev pub set_completed : ℤ → Round → Round
set_completed now r = record r { status = completed; completed_at = some now }

abbrev pub check_completed : ℕ → String → Service Unit
check_completed count id =
    if not (count == 1)
    then (do
      raced ← commit (find_round_or_throw id)
      fail_if (not (status_eq raced.status completed)) (
          bad_request
            "Payout was created but round could not be marked COMPLETED. Retry settlement."))
    else done tt

abbrev pub find_entry_or_throw : String → Tx Entry
find_entry_or_throw id = Tx.◌>>=◌ (find_entry id) (λ e. Tx.or_throw e record_not_found)

-- The two payments, in their order.
unfoldable pub pay_out :
    SettleIds → (ℕ → Db → Db) → Round → Service (MoneyMutationResult × Option MoneyMutationResult)
unfolding credit_round_win credit_platform_fee
pay_out ids others current = do
  payout ← credit_round_win ids.wallet_id ids.win_id (win_args current) (others 2)
  meanwhile (others 3)
  fee ← credit_platform_fee ids.fee_id (fee_args current) (others 4)
  done (payout, fee)

unfoldable pub settle_round : SettleIds → ℤ → (ℕ → Db → Db) → Round → Service SettleResult
unfolding find_entry update_rounds find_round_or_throw pay_out
settle_round ids now others current = do
  fail_if (not (is_truthy current.winner_entry_id) || not (is_truthy current.winner_user_id))
      (bad_request "Round has no winner yet. Draw the round before settlement.")
  fail_if (leb_ℤ current.payout_amount (pos 0))
      (bad_request "Round payout amount must be greater than zero.")
  meanwhile (others 0)
  found ← commit (find_entry (text_or_empty current.winner_entry_id))
  winner ← need found (bad_request "Winner entry not found.")
  fail_if (not (str_eq winner.user_id (text_or_empty current.winner_user_id)))
      (bad_request "Winner entry user does not match round winner user. Manual review required.")
  meanwhile (others 1)
  paid ← pay_out ids others current
  meanwhile (others 5)
  count ← commit (
      update_rounds (λ r. is_round current.id r && status_eq r.status settling) (set_completed now))
  meanwhile (others 6)
  check_completed count current.id
  meanwhile (others 7)
  final ← commit (find_round_or_throw current.id)
  meanwhile (others 8)
  entry ← commit (find_entry_or_throw (text_or_empty current.winner_entry_id))
  done (record {
    round = final;
    winner_entry = some entry;
    payout = some paid.0;
    platform_fee = paid.1;
    reused = paid.0.reused;
  })

unfoldable pub settle_current_round_for_room :
    SettleIds → ℤ → (ℕ → Db → Db) → String → Service SettleResult
unfolding find_latest_round settle_round find_entry
settle_current_round_for_room ids now others room_id = do
  fail_if (is_empty room_id) (bad_request "roomId is required.")
  found ← commit (find_latest_round (in_room room_id (settling ∷ [])))
  elim found [
    | none ↦ do
      meanwhile (others 0)
      last ← commit (find_latest_round (λ r. str_eq r.room_id room_id))
      already_settled last
    | some current ↦ settle_round ids now others current
  ]
