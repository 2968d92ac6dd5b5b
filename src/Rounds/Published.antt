-- ===== src/Rounds/Published.antt =====
-- What is published of a completed round, and its proof (apps/api/src/modules/rounds/rounds.service.ts).
use kingspin.Prelude.{String, List, [], ◌∷◌, Option, none, some, if◌then◌else◌}
use kingspin.Prelude.Text.{is_empty}
use kingspin.Prelude.Result.{Result, ok, bad_request, not_found}
use kingspin.Store.Tables.{Round, Entry}
use kingspin.Store.Tx.{commit}
use kingspin.Store.Service.{Service, ◌>>=◌, ◌>>◌, fail_if, need, lift}
use kingspin.Engine.Machine.{completed, status_eq}
use kingspin.Engine.EntriesHash.{FairnessEntry}
use kingspin.Engine.Proof.{FairnessProofArgs, FairnessProofResult, verify_fairness_proof}
use kingspin.Rounds.Rows.{Env, in_room, range_ends, find_latest_round, find_entries}

-- The `flatMap` that leaves out entries without tickets.
unfoldable pub published_entries : List Entry → List FairnessEntry
published_entries [] = []
published_entries (e ∷ es) = elim (range_ends e) [
  | none ↦ published_entries es
  | some (a, b) ↦
      record {
        entry_id = e.id;
        user_id = e.user_id;
        amount = e.amount;
        ticket_start = a;
        ticket_end = b;
        round_id = e.round_id;
      }
      ∷ published_entries es
]

-- The seed of a round that is not completed stays secret.
abbrev pub revealed : Round → Option String
revealed r = if status_eq r.status completed then r.server_seed_reveal else none

unfoldable pub proof_args : Round → List Entry → FairnessProofArgs
unfolding published_entries
proof_args r entries = record {
  algorithm = r.fairness_algorithm;
  server_seed_reveal = revealed r;
  server_seed_hash = r.server_seed_hash;
  entries_hash = r.entries_hash;
  entries = published_entries entries;
  winning_ticket = r.winning_ticket;
  draw_hash = r.draw_hash;
  nonce_used = r.draw_nonce;
  winner_entry_id = r.winner_entry_id;
  draw_parts = record {
    round_id = r.id;
    round_number = r.round_number;
    total_entry_amount = r.total_entry_amount;
  };
}

-- The proof that players are shown of a round and its entries.
unfoldable pub published_proof : Env → Round → List Entry → Result FairnessProofResult
unfolding proof_args
published_proof env r entries = verify_fairness_proof env.sha256 env.hmac (proof_args r entries)

-- The latest completed round of a room, with its proof.
unfoldable pub get_latest_round_result : Env → String → Service (Round × FairnessProofResult)
unfolding find_latest_round find_entries published_proof
get_latest_round_result env room_id = do
  fail_if (is_empty room_id) (bad_request "roomId is required.")
  found ← commit (find_latest_round (in_room room_id (completed ∷ [])))
  r ← need found (not_found "No completed round result found for this room.")
  entries ← commit (find_entries env r.id)
  proof ← lift (published_proof env r entries)
  lift (ok (r, proof))
