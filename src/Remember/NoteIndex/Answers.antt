-- ===== src/Remember/NoteIndex/Answers.antt =====
-- The duplicate search of src/ohmyboring/remember/dedup.py over the entries of the index of
-- src/ohmyboring/remember/index.py.
use ohmyboring.Prelude.{
  text_ltb, text_ltb-asymmetric, Bool-cases, inl, inr, true, Option, none, some, List, [], ◌∷◌, ◌≡◌,
  refl, map, ◌&&◌, Text, All,
}
use ohmyboring.Remember.Note.{CharTable, RememberNote}
use ohmyboring.Remember.Dedup.{
  VaultView, Entry, NearestDocument, note_path, read_entry, entries_of, disk_entries,
  check_duplicate,
}
use ohmyboring.Remember.Dedup.Index.{check_duplicate-indexed, on_disk}
use ohmyboring.Remember.NoteIndex.{
  Marker, Disk, IndexEntry, NoteIndex, find_entry, insert_entry, sorted_entries, path_entry,
  add_note, collect_loop, collect, sync,
}
use ohmyboring.Remember.NoteIndex.Faithful.{IsFaithful, IsTrue, collect_loop-fresh}

-- Each text is below all that follow it.
abbrev pub IsSorted : List Text → Type 0
IsSorted [] = Unit
IsSorted (x ∷ xs) = All (λ y. text_ltb x y ≡ true) xs × IsSorted xs

abbrev entry_id : IndexEntry → Text
entry_id e = e.0

insert_entry-head :
    (e : IndexEntry) (es : List IndexEntry)
    → All (λ y. text_ltb e.0 y ≡ true) (map entry_id es)
    → insert_entry e es ≡ e ∷ es
unfolding insert_entry
insert_entry-head e [] h = refl
insert_entry-head e (x ∷ xs) h = rw (text_ltb-asymmetric e.0 x.0 h.0) refl

sorted_entries-IsSorted :
    (es : List IndexEntry) → IsSorted (map entry_id es) → sorted_entries es ≡ es
unfolding sorted_entries
sorted_entries-IsSorted [] h = refl
sorted_entries-IsSorted (e ∷ es) h =
    rw (sorted_entries-IsSorted es h.1) (insert_entry-head e es h.0)

module _ (vault : VaultView) (stat : Text → Option Marker) where
  -- The directory that the vault reads, with the markers of its files.
  abbrev pub disk_of : Disk
  disk_of = record {
    list_notes = vault.list_notes;
    stat = stat;
    read_note = vault.read_note vault.vault_dir;
  }

  -- A file that has no marker cannot be read.
  abbrev pub IsGone : Type 0
  IsGone = (note_id : Text) → stat note_id ≡ none → vault.read_note vault.vault_dir note_id ≡ none

  module _ (text_at : Text → Marker → Text) (faithful : IsFaithful vault.parse_note text_at disk_of)
      (gone : IsGone) where
    abbrev fresh : List Text → List IndexEntry
    fresh ids = collect_loop vault.parse_note disk_of [] ids

    add_note-Entries :
        (note_id : Text) (marker : Option Marker) (rest : List IndexEntry) (others : List Entry)
        → stat note_id ≡ marker
        → map path_entry rest ≡ others
        → map path_entry (add_note vault.parse_note disk_of [] note_id marker rest)
          ≡ read_entry vault (note_path note_id) (vault.read_note vault.vault_dir note_id) others
    unfolding find_entry read_entry
    add_note-Entries note_id none rest others h same = rw (gone note_id h) same
    add_note-Entries note_id (some marker) rest others h same =
        rw (faithful note_id marker h, same) refl

    -- A fresh reading by the index is the scan of the disk.
    fresh-Entries : (ids : List Text) → map path_entry (fresh ids) ≡ entries_of vault [] ids
    unfolding collect_loop entries_of
    fresh-Entries [] = refl
    fresh-Entries (note_id ∷ ids) =
        add_note-Entries note_id (stat note_id) (fresh ids) _ refl (fresh-Entries ids)

    module _ (P : Text → Type 0) where
      add_note-All :
          (note_id : Text) (marker : Option Marker) (rest : List IndexEntry)
          → stat note_id ≡ marker
          → P note_id
          → All P (map entry_id rest)
          → All P (map entry_id (add_note vault.parse_note disk_of [] note_id marker rest))
      unfolding find_entry
      add_note-All note_id none rest h hp hr = hr
      add_note-All note_id (some marker) rest h hp hr = rw (faithful note_id marker h) (hp, hr)

      fresh-All : (ids : List Text) → All P ids → All P (map entry_id (fresh ids))
      unfolding collect_loop
      fresh-All [] h = tt
      fresh-All (note_id ∷ ids) h =
          add_note-All note_id (stat note_id) (fresh ids) refl h.0 (fresh-All ids h.1)

    add_note-IsSorted :
        (note_id : Text) (marker : Option Marker) (rest : List IndexEntry)
        → stat note_id ≡ marker
        → All (λ y. text_ltb note_id y ≡ true) (map entry_id rest)
        → IsSorted (map entry_id rest)
        → IsSorted (map entry_id (add_note vault.parse_note disk_of [] note_id marker rest))
    unfolding find_entry
    add_note-IsSorted note_id none rest h below hr = hr
    add_note-IsSorted note_id (some marker) rest h below hr =
        rw (faithful note_id marker h) (below, hr)

    fresh-IsSorted : (ids : List Text) → IsSorted ids → IsSorted (map entry_id (fresh ids))
    unfolding collect_loop
    fresh-IsSorted [] h = tt
    fresh-IsSorted (note_id ∷ ids) h =
        add_note-IsSorted note_id (stat note_id) (fresh ids) refl
          (fresh-All (λ y. text_ltb note_id y ≡ true) ids h.0) (fresh-IsSorted ids h.1)

    sync-Entries :
        (index : NoteIndex)
        → IsSorted vault.list_notes
        → All (IsTrue vault.parse_note text_at) index.entries
        → map path_entry (sorted_entries (collect vault.parse_note disk_of index.entries))
          ≡ entries_of vault [] vault.list_notes
    unfolding collect
    sync-Entries index sorted h =
        rw
          (
            (collect_loop-fresh vault.parse_note text_at disk_of faithful index.entries
                vault.list_notes h).0,
            sorted_entries-IsSorted (fresh vault.list_notes)
                (fresh-IsSorted vault.list_notes sorted),
          )
          (fresh-Entries vault.list_notes)

module _ (table : CharTable) (note : RememberNote) (nearest : Option NearestDocument)
    (exclude_paths : List Text) where
  -- Where the directory lists its notes in order and each once, a file without a marker cannot be
  -- read, the marker of a note decides its text, and every entry of the index is what the note's
  -- text with the entry's marker is parsed to, the duplicate search gives the same answer over what
  -- a synchronisation of the index returns as over the disk, whether the index can be used or not.
  pub check_duplicate-synced :
      (vault : VaultView) (stat : Text → Option Marker) (text_at : Text → Marker → Text)
      (index : NoteIndex)
      → IsFaithful vault.parse_note text_at (disk_of vault stat)
      → IsGone vault stat
      → IsSorted vault.list_notes
      → All (IsTrue vault.parse_note text_at) index.entries
      → check_duplicate table note
          (record vault { parsed_entries = (sync vault.parse_note (disk_of vault stat) index).0 })
          nearest
          exclude_paths
        ≡ check_duplicate table note (on_disk vault) nearest exclude_paths
  unfolding sync disk_entries
  check_duplicate-synced vault stat text_at index faithful gone sorted h =
      elim (Bool-cases (index.ready && index.usable)) [
        | inl is_used ↦
            rw (is_used, sync-Entries (on_disk vault) stat text_at faithful gone index sorted h)
              (check_duplicate-indexed table note vault nearest exclude_paths)
        | inr is_not_used ↦ rw is_not_used refl
      ]
