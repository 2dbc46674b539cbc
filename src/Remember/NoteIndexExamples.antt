-- ===== src/Remember/NoteIndexExamples.antt =====
-- Runs of the note index of src/ohmyboring/remember/index.py on two states of a disk.
use ohmyboring.Prelude.{
  text_ltb, true, false, if◌then◌else◌, Option, none, some, List, [], ◌∷◌, ◌≡◌, refl, ◌==◌, codes,
  Text, text_eq, All, map,
}
use ohmyboring.Remember.Note.{ExistingNote}
use ohmyboring.Result.{Either, ok}
use ohmyboring.Remember.Match.{DuplicateMatch}
use ohmyboring.Remember.Dedup.{VaultView, check_duplicate}
use ohmyboring.Remember.Dedup.Index.{on_disk}
use ohmyboring.Remember.Examples.{ascii, on_vault, richer, program}
use ohmyboring.Remember.NoteIndex.Answers.{disk_of, IsGone, IsSorted, check_duplicate-synced}
use ohmyboring.Remember.NoteIndex.{
  insert_entry, sorted_entries, Marker, Disk, NoteIndex, find_entry, collect_loop, collect, prefill,
  sync,
}
use ohmyboring.Remember.NoteIndex.Faithful.{IsFaithful, IsTrue, sync-Fresh}

abbrev parse_note : Text → Text → ExistingNote
parse_note path text = record (on_vault path) { body = text }

-- The text is the id, and one more letter after the time 1.
abbrev text_at : Text → Marker → Text
text_at note_id (time, size) = if time == 1 then note_id else 120 ∷ note_id

abbrev read_at : Text → Option Marker → Option Text
read_at note_id none = none
read_at note_id (some marker) = some (text_at note_id marker)

abbrev made_disk : List Text → (Text → Option Marker) → Disk
made_disk ids stat = record {
  list_notes = ids;
  stat = stat;
  read_note = λ note_id. read_at note_id (stat note_id);
}

made_disk-IsFaithful :
    (ids : List Text) (stat : Text → Option Marker)
    → IsFaithful parse_note text_at (made_disk ids stat)
made_disk-IsFaithful ids stat note_id marker h = rw h refl

abbrev before : Disk
before = made_disk (codes "wiki-1" ∷ codes "wiki-2" ∷ []) (λ note_id. some (1, 6))

-- `wiki-1` has changed, `wiki-2` has gone, `wiki-10` is new.
abbrev after : Disk
after = made_disk (codes "wiki-1" ∷ codes "wiki-10" ∷ codes "wiki-2" ∷ []) (λ note_id.
    if text_eq note_id (codes "wiki-2")
    then none
    else if text_eq note_id (codes "wiki-1")
    then some (2, 7)
    else some (1, 7))

after-IsFaithful : IsFaithful parse_note text_at after
after-IsFaithful = made_disk-IsFaithful after.list_notes after.stat

abbrev filled : NoteIndex
filled = prefill parse_note (some before) (record { entries = []; ready = false; usable = false })

synced_ids :
    map (λ e. e.0) (sync parse_note after filled).1.entries ≡ codes "wiki-1" ∷ codes "wiki-10" ∷ []
unfolding prefill sync collect collect_loop find_entry
synced_ids = refl

filled-IsTrue : All (IsTrue parse_note text_at) filled.entries
unfolding prefill collect collect_loop find_entry
filled-IsTrue = (refl, (refl, tt))

filled-ready : (filled.ready ≡ true) × (filled.usable ≡ true)
unfolding prefill
filled-ready = (refl, refl)

sync-Fresh_example :
    ((sync parse_note after filled).1.entries ≡ collect parse_note after [])
    × All (IsTrue parse_note text_at) (sync parse_note after filled).1.entries
    × ((sync parse_note after filled).0
        ≡ (sync parse_note after (prefill parse_note (some after) filled)).0)
sync-Fresh_example =
    sync-Fresh parse_note text_at after after-IsFaithful filled filled-IsTrue filled-ready.0
      filled-ready.1

abbrev vault : VaultView
vault = record {
  list_notes = after.list_notes;
  read_note = λ dir note_id. after.read_note note_id;
  vault_dir = codes "/vault";
  parse_note = parse_note;
  parsed_entries = none;
}

vault-IsGone : IsGone vault after.stat
vault-IsGone note_id h = rw h refl

ids-IsSorted : IsSorted vault.list_notes
unfolding text_ltb
ids-IsSorted = ((refl, (refl, tt)), ((refl, tt), (tt, tt)))

abbrev synced_vault : VaultView
synced_vault = record vault {
  parsed_entries = (sync parse_note (disk_of vault after.stat) filled).0;
}

abbrev found_path : Either (Option DuplicateMatch) Text → Option Text
found_path (ok (some m)) = some m.source_path
found_path _ = none

newest_found :
    found_path (check_duplicate ascii richer synced_vault none [])
    ≡ some (codes "/vault/wiki/wiki-10.md")
unfolding program prefill sync collect collect_loop find_entry text_ltb insert_entry sorted_entries
newest_found = refl

check_duplicate-synced_example :
    check_duplicate ascii richer synced_vault none []
    ≡ check_duplicate ascii richer (on_disk vault) none []
check_duplicate-synced_example =
    check_duplicate-synced ascii richer none [] vault after.stat text_at filled after-IsFaithful
      vault-IsGone ids-IsSorted filled-IsTrue
