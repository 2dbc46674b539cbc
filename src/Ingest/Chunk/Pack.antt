-- ===== src/Ingest/Chunk/Pack.antt =====
-- `_pack` of src/ohmyboring/ingest/chunk.py: what the chunks hold.
use ohmyboring.Prelude.{
  ℕ, ◌≡◌, ap, ◌∙◌, List, [], map, flatten, All, Text, NonEmpty, join_lines, split_lines,
  join_lines-flatten,
}
use ohmyboring.Prelude.Int.{ℤ}
use ohmyboring.Ingest.Chunk.{
  Packing, piece, pack_loop, pack_header, pack_budget, heading_chunks, line_sections, sections,
}
use ohmyboring.Ingest.Chunk.Greedy.{IsGreedy, Opens-closed}
use ohmyboring.Ingest.Chunk.Sections.{
  IsSection, LaterHeaded, line_sections-flatten, line_sections-IsSection, join_lines-sections,
}
use ohmyboring.Ingest.Chunk.Groups.{
  unit_cuts, IsSized, IsWritten, flush-IsWritten, pack_loop-IsPacked, start-IsPacked,
}

-- How the chunks of a note come from its body: the lines of the body are cut at its headings into
-- sections, these are taken in groups, and the chunks are the cuts of the joined groups behind the
-- header.
pub record IsChunking (header : Text) (budget : ℤ) (body : Text) (chunks : List Text) : Type 0 where
  pub parts : List (List Text)
  pub lines_kept : flatten parts ≡ split_lines body
  pub sectioned : All IsSection parts × LaterHeaded parts
  pub groups : List (List Text)
  pub sections_kept : flatten groups ≡ map join_lines parts
  pub filled : All NonEmpty groups
  pub sized : All (IsSized budget) groups
  pub greedy : IsGreedy budget groups
  pub whole : join_lines (map join_lines groups) ≡ body
  pub written : chunks ≡ map (piece header) (unit_cuts budget (map join_lines groups))

IsWritten→IsChunking :
    {header : Text} {budget : ℤ} {groups : List (List Text)} {out : List Text} (body : Text)
    → IsWritten header budget groups (sections body) out
    → IsGreedy budget groups
    → IsChunking header budget body out
unfolding sections
IsWritten→IsChunking {groups = groups} body w greedy = record {
  parts = line_sections body;
  lines_kept = line_sections-flatten body;
  sectioned = line_sections-IsSection body;
  groups = groups;
  sections_kept = w.same;
  filled = w.filled;
  sized = w.sized;
  greedy = greedy;
  whole = join_lines-flatten groups w.filled ∙ ap join_lines w.same ∙ join_lines-sections body;
  written = w.written;
}

-- For every title, body and limit the lines of the body fall into sections, of which each but the
-- first begins with a heading and none has another heading; the sections are taken in order into
-- groups, of which each is within the budget when joined or a single section, and with the section
-- behind it would be above the budget; the joined groups, joined by line feeds, are the body; and
-- the chunks are the cuts of the joined groups behind the header line.
pub heading_chunks-IsChunking :
    (title body : Text) (max_chars : ℕ)
    → IsChunking
        (pack_header title max_chars)
        (pack_budget title max_chars)
        body
        (heading_chunks title body max_chars)
unfolding heading_chunks
heading_chunks-IsChunking title body max_chars =
    let header = pack_header title max_chars in
    let budget = pack_budget title max_chars in
    let start : Packing = record { out = []; current = []; current_len = 0 } in
    let packed = pack_loop header budget start (sections body) in
    let p =
      pack_loop-IsPacked header budget [] start (sections body) (start-IsPacked header budget) in
    IsWritten→IsChunking body (flush-IsWritten header budget (sections body) packed p)
      (Opens-closed budget p.groups packed.current p.opens)
