-- ===== src/Remember/NoteIndex.antt =====
-- src/ohmyboring/remember/index.py: the index of the notes on disk that the door keeps. The clock,
-- and with it the times and the count that are logged, is left out, the directory lists a note
-- once, and the parser of a note is a parameter that does not fail.
pub mod Faithful
pub mod Answers
use ohmyboring.Prelude.{
  text_ltb, ℕ, Bool, true, false, ◌&&◌, ◌||◌, Option, none, some, List, [], ◌∷◌, if◌then◌else◌, ltb,
  ◌==◌, map, Text, text_eq,
}
use ohmyboring.Remember.Note.{ExistingNote}
use ohmyboring.Remember.Dedup.{Entry, note_path}

-- The time and the size of a file.
abbrev pub Marker : Type 0
Marker = ℕ × ℕ

-- What the index reads of the disk: the ids, the marker and the text of a note.
pub record Disk : Type 0 where
  pub list_notes : List Text
  pub stat : Text → Option Marker
  pub read_note : Text → Option Text

abbrev pub IndexEntry : Type 0
IndexEntry = Text × Marker × ExistingNote

abbrev pub marker_eq : Marker → Marker → Bool
marker_eq (t, size) (u, other_size) = t == u && size == other_size

unfoldable pub find_entry : Text → List IndexEntry → Option (Marker × ExistingNote)
find_entry note_id [] = none
find_entry note_id ((id, marker, note) ∷ entries) =
    if text_eq id note_id then some (marker, note) else find_entry note_id entries

-- The state of the index. It is not usable when the first filling failed.
pub record NoteIndex : Type 0 where
  pub entries : List IndexEntry
  pub ready : Bool
  pub usable : Bool

unfoldable pub insert_entry : IndexEntry → List IndexEntry → List IndexEntry
insert_entry e [] = e ∷ []
insert_entry e (x ∷ xs) =
    let later = insert_entry e xs in if text_ltb x.0 e.0 then x ∷ later else e ∷ x ∷ xs

unfoldable pub sorted_entries : List IndexEntry → List IndexEntry
sorted_entries [] = []
sorted_entries (e ∷ es) = insert_entry e (sorted_entries es)

abbrev pub path_entry : IndexEntry → Entry
path_entry (note_id, marker, note) = (note_path note_id, note)

module _ (parse_note : Text → Text → ExistingNote) where
  abbrev pub add_text : Text → Marker → Option Text → List IndexEntry → List IndexEntry
  add_text note_id marker none rest = rest
  add_text note_id marker (some text) rest =
      (note_id, marker, parse_note (note_path note_id) text) ∷ rest

  abbrev pub add_known :
      Text
      → Marker
      → Option (Marker × ExistingNote)
      → Option Text
      → List IndexEntry
      → List IndexEntry
  add_known note_id marker none text rest = add_text note_id marker text rest
  add_known note_id marker (some (known, note)) text rest =
      if marker_eq known marker
      then (note_id, known, note) ∷ rest
      else add_text note_id marker text rest

  abbrev pub add_note :
      Disk → List IndexEntry → Text → Option Marker → List IndexEntry → List IndexEntry
  add_note disk base note_id none rest = rest
  add_note disk base note_id (some marker) rest =
      add_known note_id marker (find_entry note_id base) (disk.read_note note_id) rest

  unfoldable pub collect_loop : Disk → List IndexEntry → List Text → List IndexEntry
  collect_loop disk base [] = []
  collect_loop disk base (note_id ∷ ids) =
      add_note disk base note_id (disk.stat note_id) (collect_loop disk base ids)

  unfoldable pub collect : Disk → List IndexEntry → List IndexEntry
  collect disk base = collect_loop disk base disk.list_notes

  -- The disk is `none` when reading it fails.
  unfoldable pub prefill : Option Disk → NoteIndex → NoteIndex
  prefill none index = record index { ready = true; usable = false }
  prefill (some disk) index = record { entries = collect disk []; ready = true; usable = true }

  unfoldable pub sync : Disk → NoteIndex → Option (List Entry) × NoteIndex
  sync disk index =
      let entries = collect disk index.entries in
      let synced : Option (List Entry) × NoteIndex =
        (some (map path_entry (sorted_entries entries)), record index { entries = entries }) in
      let unsynced : Option (List Entry) × NoteIndex = (none, index) in
      if index.ready && index.usable then synced else unsynced
