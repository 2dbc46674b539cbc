-- ===== src/Remember/Dedup/Index.antt =====
-- The two ways in which src/ohmyboring/remember/dedup.py gets the candidates: from the disk, and
-- from an index that has read and parsed the notes before.
use mathlib.Core.List.{Memᴰ}
use mathlib.Core.Path.{subst}
use ohmyboring.Prelude.{
  Bool, false, not, Option, none, some, List, [], ◌∷◌, ◌≡◌, refl, sym, ap, arith, filter, Text,
  if◌then◌else◌,
}
use ohmyboring.Prelude.Membership.{filter-Memᴰ}
use ohmyboring.Remember.Note.{CharTable, RememberNote}
use ohmyboring.Remember.Tokens.{is_member}
use ohmyboring.Remember.Match.{pick_duplicate}
use ohmyboring.Remember.Dedup.{
  VaultView, Entry, note_path, read_entry, entries_of, disk_entries, candidates, match_entries,
  scan_vault, check_duplicate, after_files, NearestDocument,
}

module _ (exclude_paths : List Text) where
  abbrev pub is_allowed : Entry → Bool
  is_allowed e = not (is_member e.0 exclude_paths)

  module _ (vault : VaultView) where
    filter-read_entry :
        (path : Text) (text : Option Text) (rest : List Entry)
        → filter is_allowed (read_entry vault path text rest) ≡ (
            if is_member path exclude_paths
            then filter is_allowed rest
            else read_entry vault path text (filter is_allowed rest))
    unfolding read_entry
    filter-read_entry path none rest = ground arith
    filter-read_entry path (some text) rest = ground arith

    entries_of-filter :
        (ids : List Text)
        → entries_of vault exclude_paths ids ≡ filter is_allowed (entries_of vault [] ids)
    unfolding entries_of
    entries_of-filter [] = refl
    entries_of-filter (note_id ∷ ids) =
        rw
          (
            filter-read_entry (note_path note_id) (vault.read_note vault.vault_dir note_id)
                (entries_of vault [] ids),
            entries_of-filter ids,
          )
          refl

    disk_entries-filter :
        disk_entries vault exclude_paths ≡ filter is_allowed (disk_entries vault [])
    unfolding disk_entries
    disk_entries-filter = entries_of-filter vault.list_notes

    candidates-filter :
        (entries : List Entry) × (candidates vault exclude_paths ≡ filter is_allowed entries)
    unfolding candidates
    candidates-filter = by_view vault.parsed_entries
      where
        by_view :
            (parsed : Option (List Entry))
            → (entries : List Entry) × ((elim parsed [
              | none ↦ disk_entries vault exclude_paths
              | some entries ↦ filter is_allowed entries
            ])
                ≡ filter is_allowed entries)
        by_view none = (disk_entries vault [], disk_entries-filter)
        by_view (some entries) = (entries, refl)

    -- No candidate of the search, from the disk or from an index, has an excluded path.
    pub candidates-allowed :
        (e : Entry) → Memᴰ e (candidates vault exclude_paths) → is_member e.0 exclude_paths ≡ false
    candidates-allowed e h =
        let (entries, same) = candidates-filter in
        let r = filter-Memᴰ is_allowed entries (subst (Memᴰ e) same h) in ground (arith, r.1)

module _ (vault : VaultView) where
  abbrev pub on_disk : VaultView
  on_disk = record vault { parsed_entries = none }

  abbrev pub indexed : VaultView
  indexed = record vault { parsed_entries = some (disk_entries on_disk []) }

module _ (table : CharTable) (note : RememberNote) (vault : VaultView)
    (nearest : Option NearestDocument) (exclude_paths : List Text) where
  candidates-indexed :
      candidates (indexed vault) exclude_paths ≡ candidates (on_disk vault) exclude_paths
  unfolding candidates
  candidates-indexed = sym (disk_entries-filter exclude_paths (on_disk vault))

  -- An index that holds every note of the vault as the disk scan reads and parses it gives the same
  -- answer as the disk scan, whatever paths are excluded.
  pub check_duplicate-indexed :
      check_duplicate table note (indexed vault) nearest exclude_paths
      ≡ check_duplicate table note (on_disk vault) nearest exclude_paths
  unfolding check_duplicate scan_vault
  check_duplicate-indexed =
      ap
        (λ entries.
          after_files note nearest exclude_paths
            (pick_duplicate table (match_entries table note entries)))
        candidates-indexed
