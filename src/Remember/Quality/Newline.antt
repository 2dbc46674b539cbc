-- ===== src/Remember/Quality/Newline.antt =====
-- The score of a note of src/ohmyboring/remember/dedup.py, when render.py has put a line feed behind
-- the body.
use ohmyboring.Prelude.{
  Bool, true, false, not, ◌&&◌, some, List, [], ◌∷◌, ◌++◌, ◌≡◌, refl, ap, ◌∙◌, inl, inr, arith,
  filter, any, map, length-map, ◌==◌, Text, newline, is_empty, starts_with, split_lines,
  split_lines-ended, Bool-cases,
}
use ohmyboring.Prelude.Decimal.{lstrip}
use ohmyboring.Remember.Note.{CharTable, Claim, RememberNote, ExistingNote}
use ohmyboring.Remember.Tokens.{token_loop, token_set, add_token}
use ohmyboring.Remember.Quality.{
  QualitySource, contains, evidence_needles, is_heading, has_evidence_signal, note_quality,
  incoming_source, existing_source,
}

abbrev ended : Text → Text
ended s = s ++ newline ∷ []

-- No line feed stands in the text, and the text is not empty.
abbrev is_inline : Text → Bool
is_inline needle = not (is_empty needle) && not (any (λ c. c == newline) needle)

starts_with-ended :
    (needle s : Text)
    → any (λ c. c == newline) needle ≡ false
    → starts_with needle (ended s) ≡ starts_with needle s
starts_with-ended [] s h = refl
starts_with-ended (p ∷ ps) [] h = ground arith
starts_with-ended (p ∷ ps) (c ∷ s) h = ground (arith, starts_with-ended ps s)

contains-ended :
    (needle s : Text) → is_inline needle ≡ true → contains needle (ended s) ≡ contains needle s
unfolding contains
contains-ended [] s h = cc
contains-ended (p ∷ ps) [] h = ground arith
contains-ended (p ∷ ps) (c ∷ s) h =
    rw (starts_with-ended (p ∷ ps) (c ∷ s) (ground arith), contains-ended (p ∷ ps) s h) refl

any-contains-ended :
    (needles : List Text) (s : Text)
    → any (λ n. not (is_inline n)) needles ≡ false
    → any (λ n. contains n (ended s)) needles ≡ any (λ n. contains n s) needles
any-contains-ended [] s h = refl
any-contains-ended (n ∷ ns) s h =
    rw (contains-ended n s (ground arith), any-contains-ended ns s (ground arith)) refl

filter-ended : (xs : List Text) → filter is_heading (xs ++ [] ∷ []) ≡ filter is_heading xs
unfolding lstrip
filter-ended [] = unfold is_heading in refl
filter-ended (x ∷ xs) = elim (Bool-cases (is_heading x)) [
  | inl e ↦ rw e (ap (λ r. x ∷ r) (filter-ended xs))
  | inr e ↦ rw e (filter-ended xs)
]

-- What `str.isalnum` and `str.lower` do with a line feed.
pub record KeepsLines (table : CharTable) : Type 0 where
  pub not_alnum : table.is_alnum newline ≡ false
  pub lower_ended : (s : Text) → table.lower (ended s) ≡ ended (table.lower s)

module _ (table : CharTable) (keeps : KeepsLines table) where
  token_loop-ended :
      (out buf : List Text) (s : Text)
      → token_loop table out buf (ended s) ≡ token_loop table out buf s
  unfolding token_loop
  token_loop-ended out buf [] = rw keeps.not_alnum refl
  token_loop-ended out buf (c ∷ s) =
      rw
        (
          token_loop-ended out (buf ++ table.lower (c ∷ []) ∷ []) s,
          token_loop-ended (add_token buf out) [] s,
        )
        refl

  has_evidence_signal-ended :
      (body : Text) → has_evidence_signal table (ended body) ≡ has_evidence_signal table body
  unfolding has_evidence_signal
  has_evidence_signal-ended body =
      rw (keeps.lower_ended body) (any-contains-ended evidence_needles (table.lower body) refl)

  token_set-ended : (s : Text) → token_set table (ended s) ≡ token_set table s
  unfolding token_set
  token_set-ended s = token_loop-ended [] [] s

  note_quality-ended :
      (source : QualitySource)
      → note_quality table (record source { body = ended source.body }) ≡ note_quality table source
  unfolding note_quality
  note_quality-ended source =
      rw
        (
          has_evidence_signal-ended source.body,
          token_set-ended source.body,
          split_lines-ended source.body,
          filter-ended (split_lines source.body),
        )
        refl

-- What parse_existing_note reads of a file that render_wiki_note has written for a note with a title
-- and without carriage returns.
pub record IsReadBack (note : RememberNote) (existing : ExistingNote) : Type 0 where
  pub title : existing.title ≡ some note.front.title
  pub tags : existing.tags ≡ note.front.tags
  pub tools : existing.tools ≡ note.front.tools
  pub concepts : existing.concepts ≡ note.front.concepts
  pub claims :
      existing.claims ≡ map (λ (c : Claim). (c.subject, c.predicate, c.value)) note.front.claims
  pub sources : existing.sources ≡ note.front.sources
  pub body : existing.body ≡ ended note.body

-- A note that is read back has the quality that it had when it came in.
pub existing_source-quality :
    (table : CharTable) (note : RememberNote) (existing : ExistingNote)
    → KeepsLines table
    → IsReadBack note existing
    → note_quality table (existing_source existing) ≡ note_quality table (incoming_source note)
unfolding existing_source incoming_source
existing_source-quality table note existing keeps r =
    ap (note_quality table)
      (rw (r.title, r.tags, r.tools, r.concepts, r.claims, r.sources, r.body, length-map) refl)
    ∙ note_quality-ended table keeps (incoming_source note)
