-- ===== src/Rounds/Draw.antt =====
-- The draw of a round (apps/api/src/modules/rounds/rounds.service.ts): what is computed from the rows
-- that were read, and the transaction that stores it.
use kingspin.Prelude.{
  Bool, true, false, not, ◌&&◌, String, List, Option, none, some, map, ◌==◌, if◌then◌else◌, is_some,
}
use kingspin.Prelude.Int.{ℤ, pos}
use kingspin.Prelude.Lists.{find}
use kingspin.Prelude.Text.{str_eq, opt_str_eq}
use kingspin.Prelude.Json.{to_lower_case}
use kingspin.Prelude.Result.{Result, ok, err, bad_request, record_not_found, ◌>>=◌, ◌>>◌, throw_if}
use kingspin.Store.Tables.{Round, Entry}
use kingspin.Store.Tx as Tx
use kingspin.Store.Tx.{Tx}
use kingspin.Engine.Machine.{locked, drawing, status_eq}
use kingspin.Engine.SpinAngle.{calculate_spin_angle}
use kingspin.Engine.Draw.{DrawInputParts, WinnerSelectionResult, fairness_algorithm, select_winner}
use kingspin.Engine.EntriesHash.{calculate_entries_hash}
use kingspin.Engine.Proof.{is_truthy, text_or_empty}
use kingspin.Rounds.Payout.{PayoutAmounts, calculate_winner_payout_amounts}
use kingspin.Rounds.Rows.{
  Env, is_round, find_round_or_throw, update_rounds, find_entries, has_entry_id,
  to_ticket_ranges_from_entries, to_fairness_entries,
}
use kingspin.Rounds.Tickets.{or_env}

-- What is computed before the transaction.
pub record DrawData : Type 0 where
  pub entries_hash : String
  pub drawn : WinnerSelectionResult
  pub winner : Entry
  pub spin_angle : ℤ
  pub platform_fee_bps : ℤ
  pub amounts : PayoutAmounts

abbrev pub parts_of : Round → String → DrawInputParts
parts_of r hash = record {
  round_id = r.id;
  round_number = r.round_number;
  total_entry_amount = r.total_entry_amount;
  entries_hash = hash;
}

abbrev pub need_entry : Option Entry → Result Entry
need_entry none =
    err (bad_request "Winning ticket did not match any entry. Manual review required.")
need_entry (some e) = ok e

unfoldable pub prepare_draw : Env → Round → List Entry → Result DrawData
prepare_draw env current entries = do
  ranges ← to_ticket_ranges_from_entries entries
  fairness ← to_fairness_entries entries
  hash ← calculate_entries_hash env.sha256 fairness
  throw_if
      (is_truthy current.entries_hash
        && not (str_eq (to_lower_case (text_or_empty current.entries_hash)) hash))
      (bad_request "Finalized entry commitment changed before draw. Manual review required.")
  throw_if
      (is_truthy current.fairness_algorithm
        && not (opt_str_eq current.fairness_algorithm (some fairness_algorithm)))
      (bad_request "Round fairness algorithm is unsupported. Manual review required.")
  drawn ←
      select_winner env.hmac ranges (text_or_empty current.server_seed_reveal)
        (parts_of current hash)
  winner ← need_entry (find (has_entry_id drawn.winner_range.id) entries)
  angle ← calculate_spin_angle drawn.winning_ticket current.total_entry_amount
  let bps = or_env env current.platform_fee_bps
  ok (record {
    entries_hash = hash;
    drawn = drawn;
    winner = winner;
    spin_angle = angle;
    platform_fee_bps = bps;
    amounts = calculate_winner_payout_amounts current.total_entry_amount winner.amount bps;
  })

pub record DrawResult : Type 0 where
  pub round : Round
  pub winner_entry : Option Entry
  pub entries : List Entry
  pub reused : Bool

-- A draw that is stored: `status === DRAWING && winningTicket !== null && winnerEntryId`.
abbrev pub is_drawn : Round → Bool
is_drawn r = status_eq r.status drawing && is_some r.winning_ticket && is_truthy r.winner_entry_id

abbrev pub set_drawn : ℤ → DrawData → Round → Round
set_drawn now d r = record r {
  status = drawing;
  drawing_at = some now;
  fairness_algorithm = some fairness_algorithm;
  entries_hash = some d.entries_hash;
  draw_hash = some d.drawn.draw_hash;
  draw_nonce = some (pos d.drawn.nonce_used);
  winning_ticket = some d.drawn.winning_ticket;
  winner_entry_id = some d.winner.id;
  winner_user_id = some d.winner.user_id;
  spin_angle = some d.spin_angle;
  house_fee_amount = d.amounts.platform_fee_amount;
  payout_amount = d.amounts.payout_amount;
  platform_fee_bps = some d.platform_fee_bps;
}

abbrev pub mark_winner : String → Entry → Entry
mark_winner id e = if has_entry_id id e then record e { is_winner = true } else e

-- `entry.update`
unfoldable pub update_winner : String → Tx Entry
update_winner id = Tx.◌>>=◌ (Tx.gets λ db. find (has_entry_id id) db.round_entries) (λ found.
    Tx.◌>>=◌ (Tx.or_throw found record_not_found) (λ e.
      Tx.◌>>◌ (Tx.modify λ db. record db { round_entries = map (mark_winner id) db.round_entries })
        (Tx.pure (record e { is_winner = true }))))

-- Another request was first: its draw is returned, or the draw is given up.
abbrev pub raced_draw : Round → List Entry → DrawData → Tx DrawResult
raced_draw current entries d = Tx.◌>>=◌ (find_round_or_throw current.id) (λ raced.
    if is_drawn raced
    then Tx.pure
        (record { round = raced; winner_entry = some d.winner; entries = entries; reused = true })
    else Tx.throw (bad_request "Round changed while drawing. Retry or review manually."))

abbrev pub stored_draw : Env → Round → DrawData → Tx DrawResult
stored_draw env current d = Tx.◌>>=◌ (update_winner d.winner.id) (λ updated.
    Tx.◌>>=◌ (find_round_or_throw current.id) (λ final.
      Tx.◌>>=◌ (find_entries env current.id) (λ entries.
        Tx.◌>>=◌
          (Tx.or_throw (find (has_entry_id d.winner.id) entries)
            (bad_request "Winner entry disappeared after draw."))
          (λ winner. Tx.pure (record {
            round = final;
            winner_entry = some winner;
            entries = entries;
            reused = false;
          })))))

unfoldable pub draw_tx : Env → ℤ → Round → List Entry → DrawData → Tx DrawResult
draw_tx env now current entries d =
    Tx.◌>>=◌
      (update_rounds (λ r. is_round current.id r && status_eq r.status locked) (set_drawn now d))
      (λ count.
        if not (count == 1) then raced_draw current entries d else stored_draw env current d)
