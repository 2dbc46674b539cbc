-- ===== src/Remember/Quality.antt =====
-- The score of a note, and when a better note replaces another: src/ohmyboring/remember/dedup.py.
pub mod Newline
use ohmyboring.Prelude.{
  ℕ, ◌+◌, ◌*◌, ◌/◌, min, Bool, true, false, not, ◌&&◌, ◌||◌, Option, none, some, List, [], ◌∷◌,
  if◌then◌else◌, ltb, leb, length, filter, any, Text, codes, starts_with, split_lines, is_empty,
}
use ohmyboring.Prelude.Decimal.{lstrip}
use ohmyboring.Remember.Note.{CharTable, RememberNote, ExistingNote}
use ohmyboring.Remember.Tokens.{token_set}

pub data Branch : Type 0 where
  same_session probable_session exact_title embedding : Branch

pub record NoteQuality : Type 0 where
  pub score : ℕ
  pub evidence_signal : Bool

pub record QualitySource : Type 0 where
  pub title : Text
  pub tags : List Text
  pub tools : List Text
  pub concepts : List Text
  pub claims : ℕ
  pub sources : ℕ
  pub body : Text

-- `needle in text`
unfoldable pub contains : Text → Text → Bool
contains needle [] = is_empty needle
contains needle (c ∷ s) = starts_with needle (c ∷ s) || contains needle s

abbrev pub evidence_needles : List Text
evidence_needles =
    codes "## evidence"
    ∷ codes "## verification"
    ∷ codes "## result"
    ∷ codes "## decision"
    ∷ codes "## 검증"
    ∷ codes "## 결과"
    ∷ codes "## 결정"
    ∷ codes "as-is"
    ∷ codes "to-be"
    ∷ codes "asis"
    ∷ codes "tobe"
    ∷ codes "실제"
    ∷ codes "수치"
    ∷ codes "명령"
    ∷ codes "command"
    ∷ codes "commit"
    ∷ codes "pr #"
    ∷ codes "wiki-"
    ∷ []

abbrev pub or_empty : Option Text → Text
or_empty none = []
or_empty (some t) = t

abbrev pub is_repo_tag : Text → Bool
is_repo_tag tag = starts_with (codes "repo/") tag

unfoldable pub is_heading : Text → Bool
is_heading line = starts_with (codes "#") (lstrip line)

unfoldable pub incoming_source : RememberNote → QualitySource
incoming_source note = record {
  title = note.front.title;
  tags = note.front.tags;
  tools = note.front.tools;
  concepts = note.front.concepts;
  claims = length note.front.claims;
  sources = length note.front.sources;
  body = note.body;
}

unfoldable pub existing_source : ExistingNote → QualitySource
existing_source existing = record {
  title = or_empty existing.title;
  tags = existing.tags;
  tools = existing.tools;
  concepts = existing.concepts;
  claims = length existing.claims;
  sources = length existing.sources;
  body = existing.body;
}

module _ (table : CharTable) where
  unfoldable pub has_evidence_signal : Text → Bool
  unfolding contains
  has_evidence_signal body =
      let lowered = table.lower body in any (λ needle. contains needle lowered) evidence_needles

  unfoldable pub note_quality : QualitySource → NoteQuality
  unfolding is_heading
  note_quality source =
      let signal = has_evidence_signal source.body in
      let heading_count = min (length (filter is_heading (split_lines source.body))) 8 in
      let repo_tag_count = min (length (filter (λ tag. not (is_repo_tag tag)) source.tags)) 6 in
      record {
        score =
            min (length (token_set table source.body)) 120 / 4
            + min (length (token_set table source.title)) 8
            + min source.claims 8 * 8
            + min (length source.tools) 8 * 3
            + min (length source.concepts) 8 * 3
            + repo_tag_count * 2
            + min source.sources 4 * 4
            + heading_count * 4
            + (if signal then 8 else 0);
        evidence_signal = signal;
      }

abbrev duplicate_replace_min_delta : ℕ
duplicate_replace_min_delta = 8

abbrev is_session_branch : Branch → Bool
is_session_branch same_session = true
is_session_branch probable_session = true
is_session_branch exact_title = false
is_session_branch embedding = false

unfoldable pub should_replace_duplicate : Branch → NoteQuality → NoteQuality → Bool
should_replace_duplicate branch incoming current =
    if not (is_session_branch branch)
    then false
    else leb (current.score + duplicate_replace_min_delta) incoming.score
      || (ltb current.score incoming.score
          && (incoming.evidence_signal && not current.evidence_signal))
