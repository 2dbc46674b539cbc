-- ===== src/Remember/Graph/Seals.antt =====
-- The comparison of the claims that are sealed with those that should be:
-- src/ohmyboring/remember/graph.py, `expected_seal_states` and `compare_seals`.
use ohmyboring.Prelude.{
  ℕ, suc, Bool, false, not, ◌&&◌, List, [], ◌∷◌, if◌then◌else◌, length, Text, text_eq,
}
use ohmyboring.Remember.Tokens.{is_member}
use ohmyboring.Remember.Graph.{Slot, has_slot}

-- A row of the claims, as the comparison reads it.
pub record ClaimRow : Type 0 where
  pub source_path : Text
  pub subject : Text
  pub predicate : Text
  pub kind : Text
  pub is_sealed : Bool

unfoldable pub expected_seal_states :
    List ClaimRow → Text → List Slot → List Text → List (ClaimRow × Bool)
expected_seal_states [] new_path new_slots superseded_paths = []
expected_seal_states (row ∷ rows) new_path new_slots superseded_paths =
    let rest = expected_seal_states rows new_path new_slots superseded_paths in
    if text_eq row.source_path new_path
    then (row, false) ∷ rest
    else if is_member row.source_path superseded_paths
    then (row, has_slot (row.subject, row.predicate) new_slots) ∷ rest
    else rest

pub record SealVerdict : Type 0 where
  pub checked : ℕ
  pub engine_only : ℕ
  pub python_only : ℕ
  pub engine_only_on_new_note : ℕ

unfoldable pub count_seal : Text → ClaimRow × Bool → SealVerdict → SealVerdict
count_seal new_path (row, want_sealed) v =
    if row.is_sealed && not want_sealed
    then record v {
      engine_only = suc v.engine_only;
      engine_only_on_new_note =
          (if text_eq row.source_path new_path
            then suc v.engine_only_on_new_note
            else v.engine_only_on_new_note);
    }
    else if want_sealed && not row.is_sealed
    then record v { python_only = suc v.python_only }
    else v

unfoldable pub seal_loop : Text → SealVerdict → List (ClaimRow × Bool) → SealVerdict
seal_loop new_path v [] = v
seal_loop new_path v (row ∷ rows) = seal_loop new_path (count_seal new_path row v) rows

unfoldable pub compare_seals : List (ClaimRow × Bool) → Text → SealVerdict
compare_seals expected new_path =
    seal_loop new_path
      (record {
        checked = length expected;
        engine_only = 0;
        python_only = 0;
        engine_only_on_new_note = 0;
      })
      expected
