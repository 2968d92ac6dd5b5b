-- ===== src/Entries/Passed.antt =====
-- A placement that is answered passed all the tests of its status.
use kingspin.Prelude.{
  ◌≡◌, refl, Bool, true, false, not, ◌&&◌, List, [], ◌∷◌, none, arith, ◌⊎◌, inl, inr, Bool-cases,
  Option-cases,
}
use kingspin.Prelude.Lists.{All}
use kingspin.Prelude.Result.{ok}
use kingspin.Store.Tables.{Db}
use kingspin.Entries.{
  EntryPlacementStatus, success, replay, PlacementArgs, EntryPlacementRow, Placement,
}
use kingspin.Entries.Request.{RequestRows, applied_replay}
use kingspin.Entries.Status.{
  Written, case_when, replay_cases, request_cases, write_cases, placement_status, last_case,
}
use kingspin.Entries.Place.{thrown, to_placement_result_from_row}

abbrev pub goes_on : EntryPlacementStatus → Bool
goes_on success = true
goes_on replay = true
goes_on _ = false

thrown-goes_on :
    (args : PlacementArgs) (row : EntryPlacementRow)
    → thrown args row ≡ none
    → goes_on row.status ≡ true
unfolding thrown
thrown-goes_on args row h = ground arith

-- An answer is thrown for no reason of the status.
pub answered-goes_on :
    (args : PlacementArgs) (row : EntryPlacementRow) (p : Placement)
    → to_placement_result_from_row args row ≡ ok p
    → goes_on row.status ≡ true
unfolding to_placement_result_from_row
answered-goes_on args row p h = elim (Option-cases (thrown args row)) [
  | inl none_thrown ↦ thrown-goes_on args row none_thrown
  | inr (e, there) ↦ cc (there, h)
]

abbrev pub IsUntrue : Bool × EntryPlacementStatus → Type 0
IsUntrue c = c.0 ≡ false

-- A test whose status ends the request was not true.
pub case_when-passed :
    (cs : List (Bool × EntryPlacementStatus)) (d : EntryPlacementStatus)
    → All (λ c. (goes_on c.1 ≡ false) ⊎ (c.0 ≡ false)) cs
    → goes_on (case_when cs d) ≡ true
    → All IsUntrue cs × (goes_on d ≡ true)
case_when-passed [] d ends h = (tt, h)
case_when-passed ((b, s) ∷ cs) d ends h = elim (Bool-cases b) [
  | inr f ↦ let (rest, last) = case_when-passed cs d ends.1 (rw f at h) in ((f, rest), last)
  | inl t ↦ elim ends.0 [
    | inr f ↦ cc (t, f)
    | inl stops ↦ let g : goes_on s ≡ true = rw t at h in cc (g, stops)
  ]
]

abbrev all_end : List (Bool × EntryPlacementStatus) → Bool
all_end [] = true
all_end ((b, s) ∷ cs) = not (goes_on s) && all_end cs

ends :
    (cs : List (Bool × EntryPlacementStatus))
    → all_end cs ≡ true
    → All (λ c. (goes_on c.1 ≡ false) ⊎ (c.0 ≡ false)) cs
ends [] h = tt
ends ((b, s) ∷ cs) h = (inl (ground arith), ends cs (ground arith))

-- A row whose request was not placed before.
module _ (args : PlacementArgs) (rows : RequestRows) (before : Db) (written : Written)
    (fresh : applied_replay rows ≡ false)
    (goes : goes_on (placement_status args rows before written) ≡ true) where
  after_request :
      All IsUntrue (request_cases args rows)
      × (goes_on (case_when (write_cases rows written) (last_case args rows before written)) ≡ true)
  unfolding placement_status
  after_request =
      case_when-passed (request_cases args rows)
        (case_when (write_cases rows written) (last_case args rows before written))
        (ends (request_cases args rows) refl)
        (case_when-passed (replay_cases args rows before)
          (case_when (request_cases args rows)
            (case_when (write_cases rows written) (last_case args rows before written)))
          (inl refl, (inl refl, (inr fresh, tt))) goes).1

  pub write-passed : All IsUntrue (write_cases rows written)
  write-passed =
      (case_when-passed (write_cases rows written) (last_case args rows before written)
        (ends (write_cases rows written) refl) after_request.1).0
