-- ===== src/Ingest/Examples.antt =====
-- Small bodies cut into chunks, and the theorems at concrete notes.
use ohmyboring.Prelude.{
  ◌≤◌, ◌≡◌, refl, [], ◌∷◌, arith, All, length, Text, codes, split_lines, join_lines,
}
use ohmyboring.Prelude.Int.{pos}
use ohmyboring.Ingest.Chunk.{
  fixed_chunks, sections, line_sections, heading_chunks, pack_header, pack_budget,
}
use ohmyboring.Ingest.Chunk.Fixed.{rejoin, rejoin-fixed_chunks, fixed_chunks-le_size}
use ohmyboring.Ingest.Chunk.Sections.{
  IsSection, LaterHeaded, line_sections-IsSection, join_lines-sections,
}
use ohmyboring.Ingest.Chunk.Pack.{IsChunking, heading_chunks-IsChunking}
use ohmyboring.Ingest.Chunk.Limit.{heading_chunks-le_limit}

abbrev letters : Text
letters = codes "abcdefgh"

cut_letters : fixed_chunks letters (pos 4) 1 ≡ codes "abcd" ∷ codes "defg" ∷ codes "gh" ∷ []
unfolding fixed_chunks
cut_letters = refl

rejoin-fixed_chunks_example : rejoin 1 (fixed_chunks letters (pos 4) 1) ≡ letters
rejoin-fixed_chunks_example = rejoin-fixed_chunks letters (pos 4) 1

fixed_chunks-le_size_example : All (λ c. length c ≤ 4) (fixed_chunks letters (pos 4) 1)
fixed_chunks-le_size_example = fixed_chunks-le_size letters 4 1 (omega arith)

abbrev note : Text
note = codes "intro\n## A\ntext\n## B\nmore"

cut_note : sections note ≡ codes "intro" ∷ codes "## A\ntext" ∷ codes "## B\nmore" ∷ []
unfolding sections split_lines join_lines
cut_note = refl

chunked_note : heading_chunks (codes "T") note 30 ≡ codes "# T\nintro\n## A\ntext\n## B\nmore" ∷ []
unfolding heading_chunks split_lines join_lines
chunked_note = refl

line_sections-IsSection_example :
    All IsSection (line_sections note) × LaterHeaded (line_sections note)
line_sections-IsSection_example = line_sections-IsSection note

join_lines-sections_example : join_lines (sections note) ≡ note
join_lines-sections_example = join_lines-sections note

heading_chunks-IsChunking_example :
    IsChunking
      (pack_header (codes "T") 12)
      (pack_budget (codes "T") 12)
      note
      (heading_chunks (codes "T") note 12)
heading_chunks-IsChunking_example = heading_chunks-IsChunking (codes "T") note 12

heading_chunks-le_limit_example : All (λ c. length c ≤ 1500) (heading_chunks (codes "T") note 1500)
heading_chunks-le_limit_example = heading_chunks-le_limit (codes "T") note 1500 (omega arith)
