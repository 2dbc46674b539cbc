-- ===== src/Remember/Dedup.antt =====
-- src/ohmyboring/remember/dedup.py: the search of the vault and the gate that stores, supersedes or
-- skips. The vault's reading functions and the embedding search are arguments, as in the source;
-- `next(iter(exclude_paths))` is the first of the list.
pub mod Gate
pub mod Pick
pub mod Search
pub mod Index
use ohmyboring.Prelude.{
  Bool, not, ◌&&◌, ◌||◌, Option, none, some, List, [], ◌∷◌, ◌++◌, if◌then◌else◌, filter, Text,
  codes, newline, text_eq,
}
use ohmyboring.Result.{Either, ok, err}
use ohmyboring.Remember.Note.{CharTable, RememberNote, ExistingNote}
use ohmyboring.Remember.Tokens.{is_member}
use ohmyboring.Remember.Quality.{
  Branch, embedding, incoming_source, existing_source, note_quality, should_replace_duplicate,
}
use ohmyboring.Remember.Match.{DuplicateMatch, branch_for, pick_duplicate}

pub data Verdict : Type 0 where
  stored superseded skipped : Verdict

abbrev pub empty_note : Text → ExistingNote
empty_note path = record {
  source_path = path;
  title = none;
  tags = [];
  tools = [];
  concepts = [];
  claims = [];
  sources = [];
  omb_session_id = none;
  author = codes "unknown";
  body = [];
  omb_session_since = none;
}

-- `parse_note` has the source's `split_frontmatter` in it.
pub record VaultView : Type 0 where
  pub list_notes : List Text
  pub read_note : Text → Text → Option Text
  pub vault_dir : Text
  pub parse_note : Text → Text → ExistingNote
  pub parsed_entries : Option (List (Text × ExistingNote))

abbrev pub Entry : Type 0
Entry = Text × ExistingNote

abbrev pub note_path : Text → Text
note_path note_id = codes "/vault/wiki/" ++ note_id ++ codes ".md"

unfoldable pub read_entry : VaultView → Text → Option Text → List Entry → List Entry
read_entry vault path none rest = rest
read_entry vault path (some text) rest = (path, vault.parse_note path text) ∷ rest

unfoldable pub entries_of : VaultView → List Text → List Text → List Entry
unfolding read_entry
entries_of vault exclude_paths [] = []
entries_of vault exclude_paths (note_id ∷ ids) =
    let rest = entries_of vault exclude_paths ids in
    if is_member (note_path note_id) exclude_paths
    then rest
    else read_entry vault (note_path note_id) (vault.read_note vault.vault_dir note_id) rest

unfoldable pub disk_entries : VaultView → List Text → List Entry
disk_entries vault exclude_paths = entries_of vault exclude_paths vault.list_notes

unfoldable pub candidates : VaultView → List Text → List Entry
candidates vault exclude_paths = elim vault.parsed_entries [
  | none ↦ disk_entries vault exclude_paths
  | some entries ↦ filter (λ e. not (is_member e.0 exclude_paths)) entries
]

abbrev first_path : List Text → Option Text
first_path [] = none
first_path (path ∷ paths) = some path

-- The nearest document within the distance, if there is one, or why the search failed.
abbrev pub NearestDocument : Type 0
NearestDocument = Text → Option Text → Either (Option Text) Text

embedding_result : Either (Option Text) Text → Either (Option DuplicateMatch) Text
embedding_result (err reason) = err (codes "embedding nearest: " ++ reason)
embedding_result (ok none) = ok none
embedding_result (ok (some path)) =
    ok (some (record { source_path = path; branch = embedding; existing = empty_note path }))

abbrev pub is_owner_note : ExistingNote → Bool
is_owner_note existing = text_eq existing.author (codes "owner")

abbrev pub match_entry :
    Text → ExistingNote → Option Branch → List DuplicateMatch → List DuplicateMatch
match_entry path existing none rest = rest
match_entry path existing (some branch) rest =
    record { source_path = path; branch = branch; existing = existing } ∷ rest

unfoldable pub embedding_match :
    RememberNote → NearestDocument → List Text → Either (Option DuplicateMatch) Text
unfolding embedding_result
embedding_match note nearest exclude_paths =
    embedding_result
      (nearest (note.front.title ++ newline ∷ newline ∷ note.body) (first_path exclude_paths))

abbrev pub after_files :
    RememberNote
    → Option NearestDocument
    → List Text
    → Option DuplicateMatch
    → Either (Option DuplicateMatch) Text
after_files note nearest exclude_paths (some found) = ok (some found)
after_files note none exclude_paths none = ok none
after_files note (some nearest) exclude_paths none = embedding_match note nearest exclude_paths

module _ (table : CharTable) where
  unfoldable pub match_entries : RememberNote → List Entry → List DuplicateMatch
  match_entries note [] = []
  match_entries note ((path, existing) ∷ entries) =
      match_entry path existing (branch_for table note existing) (match_entries note entries)

  unfoldable pub scan_vault : RememberNote → VaultView → List Text → List DuplicateMatch
  scan_vault note vault exclude_paths = match_entries note (candidates vault exclude_paths)

  unfoldable pub check_duplicate :
      RememberNote
      → VaultView
      → Option NearestDocument
      → List Text
      → Either (Option DuplicateMatch) Text
  check_duplicate note vault nearest exclude_paths =
      after_files note nearest exclude_paths
        (pick_duplicate table (scan_vault note vault exclude_paths))

  abbrev pub replaces : RememberNote → DuplicateMatch → Bool
  replaces note found =
      should_replace_duplicate found.branch (note_quality table (incoming_source note))
        (note_quality table (existing_source found.existing))

  unfoldable pub dedup_gate :
      Bool → RememberNote → Option DuplicateMatch → Verdict × Option DuplicateMatch
  dedup_gate is_owner note none = (stored, none)
  dedup_gate is_owner note (some found) =
      let may_rewrite = is_owner || not (is_owner_note found.existing) in
      if not (not is_owner || is_owner_note found.existing)
      then (stored, none)
      else if replaces note found && may_rewrite
      then (superseded, some found)
      else (skipped, some found)
