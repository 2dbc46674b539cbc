-- ===== src/Remember/NoteIndex/Faithful.antt =====
-- The index of src/ohmyboring/remember/index.py against the disk.
use ohmyboring.Prelude.{
  true, Option, none, some, List, [], ◌∷◌, ◌≡◌, refl, sym, ap, ◌∙◌, inl, inr, arith, Text, text_eq,
  text_eq→eq, Bool-cases, All,
}
use ohmyboring.Result.{if-cases}
use ohmyboring.Remember.Note.{ExistingNote}
use ohmyboring.Remember.Dedup.{note_path}
use ohmyboring.Remember.NoteIndex.{
  Marker, Disk, IndexEntry, marker_eq, find_entry, NoteIndex, add_known, add_note, collect_loop,
  collect, prefill, sync,
}

marker_eq→eq : (m n : Marker) → marker_eq m n ≡ true → m ≡ n
marker_eq→eq (t, size) (u, other_size) h = rw (times, sizes) refl
  where
    times : t ≡ u
    times = ground (arith, h)

    sizes : size ≡ other_size
    sizes = ground (arith, h)

module _ (parse_note : Text → Text → ExistingNote) (text_at : Text → Marker → Text) where
  -- A note with a marker can be read, and the marker says what it holds.
  abbrev pub IsFaithful : Disk → Type 0
  IsFaithful disk =
      (note_id : Text) (marker : Marker)
      → disk.stat note_id ≡ some marker
      → disk.read_note note_id ≡ some (text_at note_id marker)

  abbrev pub note_at : Text → Marker → ExistingNote
  note_at note_id marker = parse_note (note_path note_id) (text_at note_id marker)

  abbrev pub IsTrue : IndexEntry → Type 0
  IsTrue (note_id, marker, note) = note ≡ note_at note_id marker

  find_entry-head :
      (id note_id : Text) (m marker : Marker) (n note : ExistingNote)
      → id ≡ note_id
      → ◌≡◌ {A = Option (Marker × ExistingNote)} (some (m, n)) (some (marker, note))
      → n ≡ note_at id m
      → note ≡ note_at note_id marker
  find_entry-head id note_id m marker n note same found held =
      sym (ap (λ p. p.1) pair)
      ∙ held
      ∙ ap (λ i. note_at i m) same
      ∙ ap (λ p. note_at note_id p.0) pair
    where
      pair : ◌≡◌ {A = Marker × ExistingNote} (m, n) (marker, note)
      pair = cc

  find_entry-IsTrue :
      (note_id : Text) (base : List IndexEntry) (marker : Marker) (note : ExistingNote)
      → All IsTrue base
      → find_entry note_id base ≡ some (marker, note)
      → note ≡ note_at note_id marker
  unfolding find_entry
  find_entry-IsTrue note_id [] marker note h found = absurd cc
  find_entry-IsTrue note_id ((id, m, n) ∷ base) marker note h found =
      elim (if-cases (text_eq id note_id) (some (m, n)) (find_entry note_id base)
        (some (marker, note)) found) [
          | inl (same, head) ↦
              find_entry-head id note_id m marker n note (text_eq→eq id note_id same) head h.0
          | inr (other, tail) ↦ find_entry-IsTrue note_id base marker note h.1 tail
        ]

  module _ (disk : Disk) (faithful : IsFaithful disk) where
    -- Known or not, a note of the disk ends up as its marker says.
    add_known-lem :
        (note_id : Text) (marker : Marker) (held : Option (Marker × ExistingNote))
        (rest : List IndexEntry)
        → disk.stat note_id ≡ some marker
        → ((known : Marker) (note : ExistingNote)
            → held ≡ some (known, note)
            → note ≡ note_at note_id known)
        → add_known parse_note note_id marker held (disk.read_note note_id) rest
          ≡ (note_id, marker, note_at note_id marker) ∷ rest
    add_known-lem note_id marker none rest stat true_held = rw (faithful note_id marker stat) refl
    add_known-lem note_id marker (some (known, note)) rest stat true_held =
        elim (Bool-cases (marker_eq known marker)) [
          | inl same ↦ known_same (marker_eq→eq known marker same) same
          | inr other ↦ rw (other, faithful note_id marker stat) refl
        ]
      where
        known_same :
            known ≡ marker
            → marker_eq known marker ≡ true
            → add_known parse_note note_id marker (some (known, note)) (disk.read_note note_id) rest
              ≡ (note_id, marker, note_at note_id marker) ∷ rest
        known_same eq same = rw (same, true_held known note refl, eq) refl

    -- Whatever true entries the index has, it holds what the disk has.
    add_note-lem :
        (base : List IndexEntry) (note_id : Text) (stat : Option Marker) (rest : List IndexEntry)
        → All IsTrue base
        → disk.stat note_id ≡ stat
        → All IsTrue rest
        → (add_note parse_note disk base note_id stat rest
            ≡ add_note parse_note disk [] note_id stat rest)
          × All IsTrue (add_note parse_note disk base note_id stat rest)
    add_note-lem base note_id none rest h stat hr = (refl, hr)
    add_note-lem base note_id (some marker) rest h stat hr = (whole ∙ sym whole_fresh, All-cons)
      where
        whole :
            add_note parse_note disk base note_id (some marker) rest
            ≡ (note_id, marker, note_at note_id marker) ∷ rest
        whole =
            add_known-lem note_id marker (find_entry note_id base) rest stat
              (λ known note. find_entry-IsTrue note_id base known note h)

        All-cons : All IsTrue (add_note parse_note disk base note_id (some marker) rest)
        All-cons = rw whole (refl, hr)

        whole_fresh :
            add_note parse_note disk [] note_id (some marker) rest
            ≡ (note_id, marker, note_at note_id marker) ∷ rest
        whole_fresh =
            add_known-lem note_id marker (find_entry note_id []) rest stat
              (λ known note. find_entry-IsTrue note_id [] known note tt)

    pub collect_loop-fresh :
        (base : List IndexEntry) (ids : List Text)
        → All IsTrue base
        → (collect_loop parse_note disk base ids ≡ collect_loop parse_note disk [] ids)
          × All IsTrue (collect_loop parse_note disk base ids)
    unfolding collect_loop
    collect_loop-fresh base [] h = (refl, tt)
    collect_loop-fresh base (note_id ∷ ids) h =
        let rest = collect_loop-fresh base ids h in
        let whole =
          add_note-lem base note_id (disk.stat note_id) (collect_loop parse_note disk base ids) h
            refl rest.1 in
        (
          whole.0 ∙ ap (λ xs. add_note parse_note disk [] note_id (disk.stat note_id) xs) rest.0,
          whole.1,
        )

  -- Whatever true entries a usable index has, a synchronisation leaves it with what a fresh
  -- reading of the disk gives, and what it returns is what a new index filled from this disk
  -- returns.
  module _ (disk : Disk) (faithful : IsFaithful disk) where
    -- Where the marker of a note decides its text and every entry of a usable index is what the
    -- note's text with the entry's marker is parsed to, a synchronisation keeps the entries so,
    -- leaves the index with the entries that a reading of the whole disk gives, and answers what it
    -- answers for an index that has just been filled from this disk.
    pub sync-Fresh :
        (index : NoteIndex)
        → All IsTrue index.entries
        → index.ready ≡ true
        → index.usable ≡ true
        → ((sync parse_note disk index).1.entries ≡ collect parse_note disk [])
          × All IsTrue (sync parse_note disk index).1.entries
          × ((sync parse_note disk index).0
              ≡ (sync parse_note disk (prefill parse_note (some disk) index)).0)
    unfolding sync prefill collect
    sync-Fresh index h ready usable =
        let again = collect_loop-fresh disk faithful index.entries disk.list_notes h in
        let first = collect_loop-fresh disk faithful [] disk.list_notes tt in
        let refilled =
          collect_loop-fresh disk faithful (collect_loop parse_note disk [] disk.list_notes)
            disk.list_notes first.1 in
        rw (ready, usable) (again.0, again.1, rw (again.0, refilled.0) refl)
