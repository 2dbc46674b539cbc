-- ===== src/Ingest/Chunk/Sections.antt =====
-- `_sections` of src/ohmyboring/ingest/chunk.py: the sections are the body, cut at its headings.
use ohmyboring.Prelude.{
  ◌≡◌, ap, sym, ◌∙◌, inl, inr, Bool, true, false, not, ◌&&◌, List, [], ◌∷◌, ◌++◌, flatten,
  flatten-snoc, append-nil, append_assoc, arith, All, All-append, All-weaken, join_lines-flatten,
  Text, Bool-cases, is_empty, NonEmpty, starts_with, split_lines, join_lines,
  join_lines-split_lines, split_lines-NonEmpty,
}
use ohmyboring.Ingest.Chunk.{
  Sectioning, no_sections, heading_mark, section_step, section_loop, line_sections, sections,
}

-- No line of the body is lost or moved.
section_step-flatten :
    (s : Sectioning) (line : Text)
    → flatten (section_step s line).sections ++ (section_step s line).current
      ≡ (flatten s.sections ++ s.current) ++ line ∷ []
unfolding section_step
section_step-flatten s line =
    elim (Bool-cases (starts_with heading_mark line && not (is_empty s.current))) [
      | inl e ↦ rw e (ap (λ r. r ++ line ∷ []) (flatten-snoc s.sections s.current))
      | inr e ↦ rw e (sym (append_assoc (flatten s.sections) s.current (line ∷ [])))
    ]

section_loop-flatten :
    (s : Sectioning) (lines : List Text)
    → flatten (section_loop s lines).sections ++ (section_loop s lines).current
      ≡ (flatten s.sections ++ s.current) ++ lines
unfolding section_loop
section_loop-flatten s [] = sym (append-nil _)
section_loop-flatten s (line ∷ lines) =
    section_loop-flatten (section_step s line) lines
    ∙ ap (λ r. r ++ lines) (section_step-flatten s line)
    ∙ append_assoc (flatten s.sections ++ s.current) (line ∷ []) lines

abbrev heading : Text → Bool
heading line = starts_with heading_mark line

-- A section has a line, and only its first may be a heading.
abbrev pub IsSection : List Text → Type 0
IsSection [] = ⊥
IsSection (line ∷ lines) = All (λ l. starts_with heading_mark l ≡ false) lines

abbrev pub IsHeaded : List Text → Type 0
IsHeaded [] = ⊥
IsHeaded (line ∷ lines) = starts_with heading_mark line ≡ true

-- Every section but the first begins with a heading.
abbrev pub LaterHeaded : List (List Text) → Type 0
LaterHeaded [] = Unit
LaterHeaded (section ∷ rest) = All IsHeaded rest

record IsCut (s : Sectioning) : Type 0 where
  closed : All IsSection s.sections
  open_section : IsSection s.current
  later : LaterHeaded (s.sections ++ s.current ∷ [])

LaterHeaded-snoc :
    (xs : List (List Text)) (x : List Text)
    → LaterHeaded xs
    → IsHeaded x
    → LaterHeaded (xs ++ x ∷ [])
LaterHeaded-snoc [] x h hx = tt
LaterHeaded-snoc (y ∷ xs) x h hx = All-append IsHeaded xs (x ∷ []) h (hx, tt)

IsHeaded-snoc : (x : List Text) (line : Text) → IsHeaded x → IsHeaded (x ++ line ∷ [])
IsHeaded-snoc [] line h = absurd h
IsHeaded-snoc (l ∷ x) line h = h

All-last :
    (xs : List (List Text)) (x y : List Text)
    → (IsHeaded x → IsHeaded y)
    → All IsHeaded (xs ++ x ∷ [])
    → All IsHeaded (xs ++ y ∷ [])
All-last [] x y f h = (f h.0, tt)
All-last (z ∷ xs) x y f h = (h.0, All-last xs x y f h.1)

LaterHeaded-last :
    (xs : List (List Text)) (x : List Text) (line : Text)
    → LaterHeaded (xs ++ x ∷ [])
    → LaterHeaded (xs ++ (x ++ line ∷ []) ∷ [])
LaterHeaded-last [] x line h = tt
LaterHeaded-last (y ∷ xs) x line h = All-last xs x (x ++ line ∷ []) (IsHeaded-snoc x line) h

IsSection-snoc :
    (x : List Text) (line : Text) → IsSection x → heading line ≡ false → IsSection (x ++ line ∷ [])
IsSection-snoc [] line h e = absurd h
IsSection-snoc (l ∷ x) line h e =
    All-append (λ m. starts_with heading_mark m ≡ false) x (line ∷ []) h (e, tt)

-- What the test of the loop says, once a section is open.
opens_true :
    (line : Text) (x : List Text) → (heading line && not (is_empty x)) ≡ true → heading line ≡ true
opens_true line x e = ground arith

opens_false :
    (line : Text) (x : List Text)
    → IsSection x
    → (heading line && not (is_empty x)) ≡ false
    → heading line ≡ false
opens_false line [] h e = absurd h
opens_false line (l ∷ x) h e = ground arith

section_step-IsCut : (s : Sectioning) (line : Text) → IsCut s → IsCut (section_step s line)
unfolding section_step
section_step-IsCut s line h =
    elim (Bool-cases (starts_with heading_mark line && not (is_empty s.current))) [
      | inl e ↦ rw e (record {
        closed = All-append IsSection s.sections (s.current ∷ []) h.closed (h.open_section, tt);
        open_section = tt;
        later =
            LaterHeaded-snoc (s.sections ++ s.current ∷ []) (line ∷ []) h.later
              (opens_true line s.current e);
      })
      | inr e ↦ rw e (record {
        closed = h.closed;
        open_section =
            IsSection-snoc s.current line h.open_section
              (opens_false line s.current h.open_section e);
        later = LaterHeaded-last s.sections s.current line h.later;
      })
    ]

section_loop-IsCut : (s : Sectioning) (lines : List Text) → IsCut s → IsCut (section_loop s lines)
unfolding section_loop
section_loop-IsCut s [] h = h
section_loop-IsCut s (line ∷ lines) h =
    section_loop-IsCut (section_step s line) lines (section_step-IsCut s line h)

-- The first line opens the first section, whether it is a heading or not.
first-IsCut : (line : Text) → IsCut (section_step no_sections line)
unfolding section_step
first-IsCut line = elim (Bool-cases (heading line)) [
  | inl e ↦ rw e (record { closed = tt; open_section = tt; later = tt })
  | inr e ↦ rw e (record { closed = tt; open_section = tt; later = tt })
]

loop-IsCut : (lines : List Text) → NonEmpty lines → IsCut (section_loop no_sections lines)
unfolding section_loop
loop-IsCut [] h = absurd h
loop-IsCut (line ∷ lines) h =
    section_loop-IsCut (section_step no_sections line) lines (first-IsCut line)

-- In every section only the first line may begin with `## `, and in every section but the first
-- it does: the cuts are at the headings, and at all of them.
pub line_sections-IsSection :
    (body : Text) → All IsSection (line_sections body) × LaterHeaded (line_sections body)
unfolding line_sections
line_sections-IsSection body =
    let s = section_loop no_sections (split_lines body) in
    let h = loop-IsCut (split_lines body) (split_lines-NonEmpty body) in
    (All-append IsSection s.sections (s.current ∷ []) h.closed (h.open_section, tt), h.later)

IsSection-NonEmpty : (x : List Text) → IsSection x → NonEmpty x
IsSection-NonEmpty [] h = h
IsSection-NonEmpty (l ∷ x) h = tt

All-NonEmpty : (xs : List (List Text)) → All IsSection xs → All NonEmpty xs
All-NonEmpty xs h = All-weaken IsSection-NonEmpty xs h

-- The sections hold the lines of the body, in order.
pub line_sections-flatten : (body : Text) → flatten (line_sections body) ≡ split_lines body
unfolding line_sections flatten
line_sections-flatten body =
    let s = section_loop no_sections (split_lines body) in
    flatten-snoc s.sections s.current ∙ section_loop-flatten no_sections (split_lines body)

-- The sections of a body, joined by line feeds, are the body.
pub join_lines-sections : (body : Text) → join_lines (sections body) ≡ body
unfolding sections
join_lines-sections body =
    join_lines-flatten (line_sections body)
      (All-NonEmpty (line_sections body) (line_sections-IsSection body).0)
    ∙ ap join_lines (line_sections-flatten body)
    ∙ join_lines-split_lines body
