-- ===== src/Engine/Draw.antt =====
-- The draw of a winning ticket (packages/game-engine/src/winner-selection.ts). The keyed hash of the
-- platform, `createHmac("sha256", key).update(text).digest("hex")`, is a parameter. A `number` that
-- the code requires to be a safe integer is an integer with no bound.
pub mod Fair
pub mod Ticket
pub mod Winner
mod Tests
use kingspin.Prelude.{
  ℕ, zero, suc, ◌+◌, ◌-◌, ◌^◌, ⊤, Bool, true, false, not, ◌||◌, String, List, [], ◌∷◌, Option, none,
  some, leb, if◌then◌else◌,
}
use kingspin.Prelude.Int.{ℤ, pos, ◌-ℤ◌, ◌%ℤ◌, leb_ℤ, ltb_ℤ}
use kingspin.Prelude.Text.{◌<>◌, is_empty, to_string}
use kingspin.Prelude.Json.{quote, object_text, to_lower_case, hex_value, is_sha256_hex}
use kingspin.Prelude.Result.{Result, ok, err, error, throw_if, ◌>>=◌, ◌>>◌}
use kingspin.Engine.Ranges.{TicketRange, find_range_by_winning_ticket}

abbrev pub fairness_algorithm : String
fairness_algorithm = "HMAC_SHA256_REJECTION_SAMPLING_V1"

unfoldable pub sha256_space : ℤ
sha256_space = pos (2 ^ 256)

-- `Number.MAX_SAFE_INTEGER`
unfoldable pub max_safe_integer : ℕ
max_safe_integer = 2 ^ 53 - 1

unfoldable pub is_safe_integer : ℤ → Bool
is_safe_integer n = not (ltb_ℤ (pos max_safe_integer) n || ltb_ℤ n (pos 0 -ℤ pos max_safe_integer))

pub record DrawInputParts : Type 0 where
  pub round_id : String
  pub round_number : ℤ
  pub total_entry_amount : ℤ
  pub entries_hash : String

unfoldable pub assert_draw_parts : DrawInputParts → Result ⊤
assert_draw_parts parts = do
  throw_if (is_empty parts.round_id) (error "roundId is required.")
  throw_if (not (is_safe_integer parts.round_number) || leb_ℤ parts.round_number (pos 0))
      (error "roundNumber must be a positive safe integer.")
  throw_if (leb_ℤ parts.total_entry_amount (pos 0))
      (error "totalEntryAmount must be greater than zero.")
  throw_if (ltb_ℤ sha256_space parts.total_entry_amount)
      (error "totalEntryAmount must not exceed the SHA-256 value space.")
  throw_if (not (is_sha256_hex parts.entries_hash))
      (error "entriesHash must be a SHA-256 hex digest.")

-- The text that is hashed.
unfoldable pub draw_text : DrawInputParts → ℕ → String
draw_text parts nonce = object_text (
    ("algorithm", quote fairness_algorithm)
    ∷ ("roundId", quote parts.round_id)
    ∷ ("roundNumber", quote (to_string parts.round_number))
    ∷ ("totalEntryAmount", quote (to_string parts.total_entry_amount))
    ∷ ("entriesHash", quote (to_lower_case parts.entries_hash))
    ∷ ("nonce", quote (to_string (pos nonce)))
    ∷ [])

unfoldable pub build_draw_input : DrawInputParts → ℕ → Result String
build_draw_input parts nonce = do
  assert_draw_parts parts
  throw_if (not (is_safe_integer (pos nonce))) (error "nonce must be a non-negative safe integer.")
  ok (draw_text parts nonce)

pub record Selection : Type 0 where
  pub draw_input : String
  pub draw_hash : String
  pub nonce_used : ℕ
  pub winning_ticket : ℤ

pub record WinnerSelectionResult : Type 0 where
  pub selection : Selection
  pub open selection use *
  pub winner_range : TicketRange

unfoldable pub acceptance_limit : ℤ → ℤ
acceptance_limit total = sha256_space -ℤ sha256_space %ℤ total

module _ (hmac : String → String → String) where
  -- The loop from a nonce on, with the number of rounds that are left.
  unfoldable pub select_from : String → DrawInputParts → ℤ → ℕ → ℕ → Result Selection
  select_from seed parts limit zero nonce =
      err (error "Could not select a winning ticket within the nonce limit.")
  select_from seed parts limit (suc rounds) nonce = build_draw_input parts nonce >>= λ draw_input.
      let draw_hash = hmac seed draw_input in
      let digest_value = pos (hex_value draw_hash) in
      elim (leb_ℤ limit digest_value) [
        | true ↦ select_from seed parts limit rounds (nonce + 1)
        | false ↦ ok (record {
          draw_input = draw_input;
          draw_hash = draw_hash;
          nonce_used = nonce;
          winning_ticket = digest_value %ℤ parts.total_entry_amount;
        })
      ]

  unfoldable pub select_winning_ticket : String → DrawInputParts → Result Selection
  select_winning_ticket seed parts = do
    throw_if (is_empty seed) (error "serverSeed is required.")
    assert_draw_parts parts
    select_from seed parts (acceptance_limit parts.total_entry_amount) max_safe_integer 0

  unfoldable pub select_winner :
      List TicketRange → String → DrawInputParts → Result WinnerSelectionResult
  select_winner ranges seed parts = do
    selection ← select_winning_ticket seed parts
    elim (find_range_by_winning_ticket ranges selection.winning_ticket) [
      | none ↦ err (
          error (
            "Winning ticket "
            <> to_string selection.winning_ticket
            <> " did not match any ticket range."))
      | some winner_range ↦ ok (record { selection = selection; winner_range = winner_range })
    ]
