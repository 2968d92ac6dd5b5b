-- ===== src/Entries/Success.antt =====
-- A placement that meets the rules is answered.
use kingspin.Prelude.{
  ◌≡◌, refl, ap, ◌∙◌, true, false, not, ◌&&◌, none, some, is_some, Bool-cases, Option-cases, inl,
  inr,
}
use kingspin.Prelude.Lists.{All}
use kingspin.Prelude.Text.{is_empty}
use kingspin.Prelude.Result.{ok}
use kingspin.Store.Tables.{Category, WalletAccount, Entry, Round, User, Db}
use kingspin.Entries.{success, PlacementArgs, Placement}
use kingspin.Entries.Request.{RequestRows}
use kingspin.Entries.Rules.{is_fixed}
use kingspin.Entries.Status.{
  Written, case_when, replay_cases, request_cases, write_cases, last_case, placement_status,
  placement_row, shown_round,
}
use kingspin.Entries.Place.{thrown, to_placement_result_from_row}
use kingspin.Entries.Passed.{IsUntrue}
use kingspin.Entries.Answer.{blank_player, blank_entry, id_missing}
use kingspin.Entries.Limits.{IsAllowed}
use kingspin.Entries.Runs.{case_when-skips, held_entry_mismatch-fresh}

-- What the statement returned for a new placement.
abbrev pub did : WalletAccount → Entry → Written
did v e = record { paid = some v; entry = some e; inserted = true; applied = false }

module _ (args : PlacementArgs) (rows : RequestRows) (db : Db) (user : User) (round : Round)
    (wallet : WalletAccount) (category : Category) (at_user : rows.user ≡ some user)
    (at_round : rows.open_round ≡ some round) (at_wallet : rows.wallet ≡ some wallet)
    (at_category : rows.category ≡ some category) (fresh : rows.transaction ≡ none)
    (rules : IsAllowed args rows) (v : WalletAccount) (e : Entry) where
  no_replay : All IsUntrue (replay_cases args rows db)
  no_replay = (rw fresh refl, (rw fresh refl, (rw fresh refl, tt)))

  room_there : not (is_some rows.room) ≡ false
  room_there = elim (Option-cases rows.room) [
    | inl missing ↦ cc (rw missing at rules.room_active)
    | inr (r, there) ↦ rw there refl
  ]

  no_refusal : All IsUntrue (request_cases args rows)
  no_refusal =
      let a = rules in
      let agreed =
        held_entry_mismatch-fresh args rows db round wallet category at_round at_wallet at_category
          fresh in
      (
        rw at_user refl,
        (
          room_there,
          (
            ap not a.room_active,
            (
              ap not a.category_active,
              (
                rw at_round refl,
                (
                  rw (fresh, at_wallet) refl,
                  (
                    rw agreed refl,
                    (
                      a.amount_given,
                      (a.amount_same, (a.no_top_up, (a.enough, (a.not_above, (a.not_over, tt))))),
                    ),
                  ),
                ),
              ),
            ),
          ),
        ),
      )

  no_failure : All IsUntrue (write_cases rows (did v e))
  no_failure = (rw fresh refl, (fixed_too, (refl, (rw fresh refl, (rw fresh refl, tt)))))
    where
      fixed_too : (is_fixed rows && false) ≡ false
      fixed_too = elim (Bool-cases (is_fixed rows)) [ inl t ↦ rw t refl | inr n ↦ rw n refl ]

  status-success : placement_status args rows db (did v e) ≡ success
  unfolding placement_status
  status-success =
      case_when-skips (replay_cases args rows db)
        (case_when (request_cases args rows)
          (case_when (write_cases rows (did v e)) (last_case args rows db (did v e))))
        no_replay
      ∙ case_when-skips (request_cases args rows)
          (case_when (write_cases rows (did v e)) (last_case args rows db (did v e))) no_refusal
      ∙ case_when-skips (write_cases rows (did v e)) (last_case args rows db (did v e)) no_failure
      ∙ rw at_round refl

  -- The answer.
  abbrev pub answer_to : Placement
  answer_to = record {
    entry = e;
    player = user;
    wallet = v;
    round = shown_round db round;
    reused = false;
  }

  pub answers :
      id_missing e v (shown_round db round) ≡ false
      → blank_entry e ≡ false
      → blank_player user ≡ false
      → is_empty (shown_round db round).room_id ≡ false
      → to_placement_result_from_row args (placement_row args rows db (did v e)) ≡ ok answer_to
  unfolding to_placement_result_from_row placement_row thrown placement_status
  answers ids texts player room =
      rw (status-success, at_round, at_user) (rw (ids, texts, player, room, fresh) refl)
