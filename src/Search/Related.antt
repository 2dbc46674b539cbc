-- ===== src/Search/Related.antt =====
-- `attach_related` of src/ohmyboring/search/rank.py: the notes beside the first hits of an answer. The
-- dictionary is the list of its items in the order of insertion, and the set is the list of what
-- was added to it.
pub mod Once
use ohmyboring.Prelude.{
  ℕ, Bool, Option, none, some, List, [], ◌∷◌, ◌++◌, if◌then◌else◌, any, take, map, flatten, Text,
  text_eq,
}
use ohmyboring.Remember.Tokens.{is_member}

pub record Related : Type 0 where
  pub source_path : Text
  pub snippet : Text

abbrev pub RelatedMap : Type 0
RelatedMap = List (Text × List Related)

-- The loop over the documents of one hit: the notes that are new, and the set after it.
unfoldable pub new_notes : ℕ → List Text → List (Text × Text) → List Related × List Text
new_notes snippet_chars seen [] = ([], seen)
new_notes snippet_chars seen ((path, content) ∷ docs) =
    let skipped = new_notes snippet_chars seen docs in
    let (notes, after) = new_notes snippet_chars (path ∷ seen) docs in
    if is_member path seen
    then skipped
    else (record { source_path = path; snippet = take snippet_chars content } ∷ notes, after)

-- `out.setdefault(chunk_id, [])`, extended by the notes.
unfoldable pub extend_at : Text → List Related → RelatedMap → RelatedMap
extend_at chunk_id notes [] = (chunk_id, notes) ∷ []
extend_at chunk_id notes ((key, old) ∷ out) =
    let rest = extend_at chunk_id notes out in
    if text_eq key chunk_id then (key, old ++ notes) ∷ out else (key, old) ∷ rest

-- No result stands for the `ValueError` of lists of different lengths.
unfoldable pub attach_loop :
    ℕ → List Text → RelatedMap → List (Text × Text) → List (List (Text × Text)) → Option RelatedMap
attach_loop snippet_chars seen out [] [] = some out
attach_loop snippet_chars seen out [] (docs ∷ lists) = none
attach_loop snippet_chars seen out (head ∷ heads) [] = none
attach_loop snippet_chars seen out (head ∷ heads) (docs ∷ lists) =
    let (notes, after) = new_notes snippet_chars seen docs in
    attach_loop snippet_chars after (extend_at head.0 notes out) heads lists

unfoldable pub attach_related :
    List (Text × Text) → List Text → List (List (Text × Text)) → ℕ → Option RelatedMap
attach_related heads pool_paths related_lists snippet_chars =
    attach_loop snippet_chars pool_paths [] heads related_lists
