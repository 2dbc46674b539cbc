-- ===== src/Ingest/Chunk/Limit.antt =====
-- `_pack` of src/ohmyboring/ingest/chunk.py: the header leaves room for the body, and no chunk is
-- longer than the limit.
use mathlib.Core.Path.{subst}
use ohmyboring.Prelude.{
  join_lines, map, ℕ, ◌+◌, ◌-◌, ◌/◌, ◌≤◌, ◌<◌, ◌≡◌, sym, inl, inr, List, [], ◌∷◌, ◌++◌, arith, All,
  All-append, All-map, All-weaken, Text, Bool-cases, if◌then◌else◌, is_empty, newline, length,
  length-append, length-take, take, codes,
}
use ohmyboring.Prelude.Int.{pos, leb_ℤ, sub_ℕ}
use ohmyboring.Ingest.Chunk.{
  piece, pack_header, pack_budget, heading_chunks, untitled, cut_header, default_overlap,
  fixed_chunks,
}
use ohmyboring.Ingest.Chunk.Fixed.{fixed_chunks-le_size}
use ohmyboring.Ingest.Chunk.Groups.{unit_cuts}
use ohmyboring.Ingest.Chunk.Pack.{heading_chunks-IsChunking}

cut_header-length :
    (header : Text) (max_chars : ℕ)
    → 3 ≤ max_chars
    → length (cut_header header max_chars) + 1 + max_chars / 2 ≤ max_chars
unfolding cut_header
cut_header-length header max_chars h =
    let room = max_chars - max_chars / 2 in
    let e₁ : sub_ℕ room 1 ≡ pos (room - 1) = ground arith in
    let e₂ : sub_ℕ room 2 ≡ pos (room - 2) = ground arith in
    rw (e₁, e₂)
      (elim (Bool-cases (leb_ℤ (pos (length header)) (pos (room - 1)))) [
        | inl fits ↦ rw fits (ground arith)
        | inr long ↦ rw long (
            omega (
              arith,
              length-append (take (room - 2) header) (codes "…"),
              length-take (room - 2) header,
            ))
      ])

-- The header leaves at least half of the limit to the body.
pack_budget-half :
    (title : Text) (max_chars : ℕ)
    → 3 ≤ max_chars
    → (b : ℕ) × (pack_budget title max_chars ≡ pos b)
      × (max_chars / 2 ≤ b)
      × (length (pack_header title max_chars) + 1 + b ≡ max_chars)
unfolding pack_budget pack_header
pack_budget-half title max_chars h =
    let bound =
      cut_header-length (if is_empty title then untitled else codes "# " ++ title) max_chars h in
    (max_chars - (length (pack_header title max_chars) + 1), ground arith, omega arith, omega arith)

unit_cuts-le :
    (b : ℕ) (units : List Text)
    → default_overlap < b
    → All (λ c. length c ≤ b) (unit_cuts (pos b) units)
unfolding unit_cuts
unit_cuts-le b [] h = tt
unit_cuts-le b (u ∷ units) h =
    All-append (λ c. length c ≤ b) (fixed_chunks u (pos b) default_overlap)
      (unit_cuts (pos b) units) (fixed_chunks-le_size u b default_overlap h)
      (unit_cuts-le b units h)

piece-length :
    (header : Text) (b limit : ℕ) (cut : Text)
    → length header + 1 + b ≡ limit
    → length cut ≤ b
    → length (piece header cut) ≤ limit
unfolding piece
piece-length header b limit cut e h = omega (arith, length-append header (newline ∷ cut))

-- When half of the limit is more than the overlap, no chunk is longer than the limit, however long
-- the title is.
pub heading_chunks-le_limit :
    (title body : Text) (max_chars : ℕ)
    → default_overlap < max_chars / 2
    → All (λ c. length c ≤ max_chars) (heading_chunks title body max_chars)
heading_chunks-le_limit title body max_chars h =
    let chunking = heading_chunks-IsChunking title body max_chars in
    let units = map join_lines chunking.groups in
    let (b, is_pos, half, adds_up) = pack_budget-half title max_chars (omega arith) in
    subst (All (λ c. length c ≤ max_chars)) (sym chunking.written) (
      All-map (λ c. length c ≤ max_chars) (piece (pack_header title max_chars))
        (unit_cuts (pack_budget title max_chars) units)
        (All-weaken (λ c. piece-length (pack_header title max_chars) b max_chars c adds_up)
          (unit_cuts (pack_budget title max_chars) units)
          (subst (λ z. All (λ c. length c ≤ b) (unit_cuts z units)) (sym is_pos)
            (unit_cuts-le b units (omega arith)))))
