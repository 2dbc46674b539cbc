-- ===== src/Ingest/Chunk.antt =====
-- src/ohmyboring/ingest/chunk.py: cutting a note's body into chunks, by a fixed window with an
-- overlap and along the lines that begin with `## `.
pub mod Fixed
pub mod Sections
pub mod Greedy
pub mod Groups
pub mod Pack
pub mod Limit
use ohmyboring.Prelude.{
  ℕ, zero, suc, ◌+◌, ◌-◌, ◌/◌, min, Bool, true, false, not, ◌&&◌, ◌||◌, List, [], ◌∷◌, ◌++◌, map,
  ltb, leb, ◌==◌, if◌then◌else◌, length, slice, Text, codes, newline, is_empty, starts_with,
  slice_to, split_lines, join_lines,
}
use ohmyboring.Prelude.Int.{ℤ, pos, negsuc, sub_ℕ, leb_ℤ}

-- The `while` loop of `fixed_chunks`, on fuel. `start` grows by `step`, which is positive there.
chunk_loop : ℕ → ℕ → ℕ → Text → ℕ → List Text
chunk_loop zero size step chars start = []
chunk_loop (suc fuel) size step chars start =
    let total = length chars in
    let end = min (start + size) total in
    let rest = chunk_loop fuel size step chars (start + step) in
    if ltb start total then (slice start end chars ∷ (if end == total then [] else rest)) else []

-- A negative size is below every overlap. The loop makes at most one round for each character.
unfoldable pub fixed_chunks : Text → ℤ → ℕ → List Text
unfolding chunk_loop
fixed_chunks body (negsuc n) overlap = body ∷ []
fixed_chunks body (pos size) overlap =
    if size == 0 || leb size overlap
    then body ∷ []
    else if leb (length body) size
    then body ∷ []
    else chunk_loop (length body) size (size - overlap) body 0

abbrev pub default_overlap : ℕ
default_overlap = 200

-- The sections finished so far and the lines of the open one: the loop variables of `_sections`.
pub record Sectioning : Type 0 where
  pub sections : List (List Text)
  pub current : List Text

abbrev pub heading_mark : Text
heading_mark = codes "## "

-- One round of the loop of `_sections`: a heading opens a section unless the open one has no line.
section_step : Sectioning → Text → Sectioning
section_step s line =
    if starts_with heading_mark line && not (is_empty s.current)
    then record { sections = s.sections ++ s.current ∷ []; current = line ∷ [] }
    else record s { current = s.current ++ line ∷ [] }

section_loop : Sectioning → List Text → Sectioning
section_loop s [] = s
section_loop s (line ∷ lines) = section_loop (section_step s line) lines

abbrev pub no_sections : Sectioning
no_sections = record { sections = []; current = [] }

-- `_sections` before its last line, which joins the lines of each section.
pub line_sections : Text → List (List Text)
unfolding section_loop section_step
line_sections body =
    let s = section_loop no_sections (split_lines body) in s.sections ++ s.current ∷ []

unfoldable pub sections : Text → List Text
unfolding line_sections
sections body = map join_lines (line_sections body)

-- The chunks written so far, the sections waiting for one, and the length of these when joined.
pub record Packing : Type 0 where
  pub out : List Text
  pub current : List Text
  pub current_len : ℕ

pub piece : Text → Text → Text
piece header body = header ++ newline ∷ body

-- `if current: out.append(header + "\n" + "\n".join(current))`
pub flush : Text → Packing → List Text
unfolding piece
flush header s =
    if is_empty s.current then s.out else s.out ++ piece header (join_lines s.current) ∷ []

abbrev pub added_len : Packing → Text → ℕ
added_len s section =
    if is_empty s.current then length section else s.current_len + 1 + length section

-- One round of the loop of `_pack`.
pack_step : Text → ℤ → Packing → Text → Packing
unfolding flush
pack_step header budget s section =
    if not (leb_ℤ (pos (length section)) budget)
    then record {
      out =
          flush header s
          ++ map (λ cut. piece header cut) (fixed_chunks section budget default_overlap);
      current = [];
      current_len = 0;
    }
    else if not (is_empty s.current) && not (leb_ℤ (pos (added_len s section)) budget)
    then record { out = flush header s; current = section ∷ []; current_len = length section }
    else record s { current = s.current ++ section ∷ []; current_len = added_len s section }

pub pack_loop : Text → ℤ → Packing → List Text → Packing
pack_loop header budget s [] = s
pack_loop header budget s (section ∷ rest) =
    pack_loop header budget (pack_step header budget s section) rest

abbrev pub untitled : Text
untitled = codes "# (제목 없음)"

-- Cuts a header line so that half of the limit is left for the body.
unfoldable pub cut_header : Text → ℕ → Text
cut_header header max_chars =
    let max_header = sub_ℕ (max_chars - max_chars / 2) 1 in
    if leb_ℤ (pos (length header)) max_header
    then header
    else slice_to (sub_ℕ (max_chars - max_chars / 2) 2) header ++ codes "…"

unfoldable pub pack_header : Text → ℕ → Text
unfolding cut_header
pack_header title max_chars =
    cut_header (if is_empty title then untitled else codes "# " ++ title) max_chars

pub pack_budget : Text → ℕ → ℤ
unfolding pack_header
pack_budget title max_chars = sub_ℕ max_chars (length (pack_header title max_chars) + 1)

-- `_pack`, which `heading_chunks` returns as it is. The limit is not negative.
unfoldable pub heading_chunks : Text → Text → ℕ → List Text
unfolding sections pack_header pack_budget pack_loop pack_step piece
heading_chunks title body max_chars =
    let header = pack_header title max_chars in
    flush header (
      pack_loop header (pack_budget title max_chars)
        (record { out = []; current = []; current_len = 0 }) (sections body))
