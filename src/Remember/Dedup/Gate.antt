-- ===== src/Remember/Dedup/Gate.antt =====
-- `dedup_gate` of src/ohmyboring/remember/dedup.py: who may supersede whom, and how often a note can
-- be superseded.
use ohmyboring.Prelude.{
  ℕ, suc, ◌+◌, ◌≤◌, ◌<◌, Bool, true, false, not, ◌&&◌, ◌||◌, Option, none, some, ◌≡◌, ◌↔◌, ap,
  arith, if◌then◌else◌, Text,
}
use ohmyboring.Remember.Note.{CharTable, RememberNote}
use ohmyboring.Remember.Quality.{
  Branch, same_session, probable_session, exact_title, embedding, QualitySource, NoteQuality,
  incoming_source, existing_source, note_quality, should_replace_duplicate,
}
use ohmyboring.Remember.Quality.Newline.{KeepsLines, existing_source-quality}
use ohmyboring.Remember.Render.{Yaml, render_wiki_note}
use ohmyboring.Remember.ReadBack.{Dict, parse_existing_note}
use ohmyboring.Remember.ReadBack.Rendered.{IsPlain, parse_existing_note-IsReadBack}
use ohmyboring.Remember.Match.{DuplicateMatch}
use ohmyboring.Remember.Dedup.{
  Verdict, stored, superseded, skipped, dedup_gate, is_owner_note, replaces,
}

module _ (table : CharTable) (is_owner : Bool) (note : RememberNote) (found : DuplicateMatch) where
  -- A call supersedes the note found exactly when the call and the note have the same standing
  -- (both the owner or neither) and the note is to be replaced, and a note is stored beside the one
  -- found exactly when the owner calls and the note found is not the owner's.
  pub dedup_gate-authority :
      (((dedup_gate table is_owner note (some found)).0 ≡ superseded)
        ↔ ((is_owner ≡ is_owner_note found.existing) × (replaces table note found ≡ true)))
      × (((dedup_gate table is_owner note (some found)).0 ≡ stored)
          ↔ ((is_owner ≡ true) × (is_owner_note found.existing ≡ false)))
  unfolding dedup_gate
  dedup_gate-authority = decide is_owner (is_owner_note found.existing) (replaces table note found)
    where
      decide :
          (o n r : Bool)
          → let v : Verdict × Option DuplicateMatch =
              (if not (not o || n)
                then (stored, none)
                else if r && (o || not n)
                then (superseded, some found)
                else (skipped, some found)) in
            ((v.0 ≡ superseded) ↔ ((o ≡ n) × (r ≡ true)))
            × ((v.0 ≡ stored) ↔ ((o ≡ true) × (n ≡ false)))
      decide o n r = ground arith

should_replace_duplicate-score :
    (branch : Branch) (incoming current : NoteQuality)
    → should_replace_duplicate branch incoming current ≡ true
    → current.score < incoming.score
unfolding should_replace_duplicate
should_replace_duplicate-score same_session incoming current h = ground arith
should_replace_duplicate-score probable_session incoming current h = ground arith
should_replace_duplicate-score exact_title incoming current h = cc
should_replace_duplicate-score embedding incoming current h = cc

abbrev pub max_score : ℕ
max_score = 218

module _ (table : CharTable) where
  -- The score of a note is at most 218, whatever the note holds.
  pub note_quality-score : (source : QualitySource) → (note_quality table source).score ≤ max_score
  unfolding note_quality
  note_quality-score source = ground arith

  abbrev pub existing_score : DuplicateMatch → ℕ
  existing_score found = (note_quality table (existing_source found.existing)).score

-- `n` calls in a row, each of which supersedes the note that the call before it stored, as it is
-- read back from its file.
module _ (table : CharTable) (safe_dump : Yaml → Text) (load : Text → Option Dict)
    (is_digit : ℕ → Bool) where
  pub data Supersedings : DuplicateMatch → ℕ → Type 0 where
    settled : {found : DuplicateMatch} → Supersedings found 0
    replaced :
        {found : DuplicateMatch} {n : ℕ} (is_owner : Bool) (note : RememberNote)
        (wiki_id today : Text) (fresh : DuplicateMatch)
        → (dedup_gate table is_owner note (some found)).0 ≡ superseded
        → IsPlain safe_dump load wiki_id (record note.front { date = today }) note.body
        → parse_existing_note load is_digit fresh.source_path
            (render_wiki_note safe_dump wiki_id (record note.front { date = today }) note.body)
          ≡ some fresh.existing
        → Supersedings fresh n
        → Supersedings found (suc n)

  Supersedings-score :
      KeepsLines table
      → {found : DuplicateMatch} {n : ℕ} → Supersedings found n
      → existing_score table found + n ≤ max_score
  Supersedings-score keeps {found} settled =
      omega (arith, note_quality-score table (existing_source found.existing))
  Supersedings-score keeps {found}
        (replaced is_owner note wiki_id today fresh gate plain read later) =
      let better =
        should_replace_duplicate-score found.branch (note_quality table (incoming_source note))
          (note_quality table (existing_source found.existing))
          (((dedup_gate-authority table is_owner note found).0.0 gate).1) in
      let back =
        parse_existing_note-IsReadBack safe_dump load is_digit wiki_id today note fresh.source_path
          fresh.existing plain read in
      let kept : existing_score table fresh ≡ (note_quality table (incoming_source note)).score =
        ap (λ q. q.score) (existing_source-quality table note fresh.existing keeps back) in
      omega (arith, better, kept, Supersedings-score keeps later)

  -- Where a line feed is no letter and lower case keeps one at the end of a text, there are at most
  -- 218 calls in a row of which each supersedes the note that the call before it stored, as that
  -- note is read from the file that was written for it. The written notes have a title, stripped
  -- like the body, and no carriage return, and the YAML printer ends its text with a line feed,
  -- prints no line that is a fence, and prints what the YAML loader reads back.
  pub Supersedings-length :
      KeepsLines table → {found : DuplicateMatch} {n : ℕ} → Supersedings found n → n ≤ max_score
  Supersedings-length keeps h = omega (arith, Supersedings-score keeps h)
