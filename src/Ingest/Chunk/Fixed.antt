-- ===== src/Ingest/Chunk/Fixed.antt =====
-- `fixed_chunks` of src/ohmyboring/ingest/chunk.py: nothing of the body is lost, and the size holds.
use ohmyboring.Prelude.{
  ℕ, zero, suc, ◌+◌, ◌-◌, ◌≤◌, ◌<◌, min, ◌≡◌, ap, ◌∙◌, inl, inr, ◌⊎◌, List, [], ◌∷◌, ◌++◌, map,
  flatten, append-nil, arith, length, length-drop, take, drop, take_all, drop-drop, drop-take,
  take-append-drop, All, Text, length-slice,
}
use native.Mathlib.Decide.{dec_le}
use mathlib.Core.Path.{ap₂}
use ohmyboring.Prelude.Int.{ℤ, pos, negsuc}
use ohmyboring.Ingest.Chunk.{chunk_loop, fixed_chunks}

-- Each chunk but the first without its overlap, joined: the inverse of cutting.
pub rejoin : ℕ → List Text → Text
rejoin overlap [] = []
rejoin overlap (c ∷ cs) = c ++ flatten (map (drop overlap) cs)

module _ (size step fuel start : ℕ) (chars : Text) where
  -- The round that reaches the end takes what is left, and is the last.
  chunk_loop_last :
      start < length chars
      → length chars ≤ start + size
      → chunk_loop (suc fuel) size step chars start ≡ drop start chars ∷ []
  unfolding chunk_loop
  chunk_loop_last inside last = ground (
    arith,
    take_all (min (start + size) (length chars) - start) (drop start chars),
    length-drop start chars,
  )

  chunk_loop_more :
      start + size < length chars
      → chunk_loop (suc fuel) size step chars start
        ≡ take size (drop start chars) ∷ chunk_loop fuel size step chars (start + step)
  unfolding chunk_loop
  chunk_loop_more more =
      let whole : min (start + size) (length chars) - start ≡ size = omega arith in
      rw whole (ground arith)

module _ (size overlap : ℕ) (smaller : overlap < size) (chars : Text) where
  -- The part of a window behind its overlap, and what the next window starts with.
  rejoined :
      (start : ℕ)
      → take (size - overlap) (drop overlap (drop start chars))
          ++ drop (start + (size - overlap) + overlap) chars
        ≡ drop (start + overlap) chars
  rejoined start =
      let e : start + (size - overlap) + overlap ≡ start + overlap + (size - overlap) =
        omega arith in
      rw (e, ← drop-drop (size - overlap) (start + overlap) chars, drop-drop overlap start chars)
        (take-append-drop (size - overlap) (drop (start + overlap) chars))

  chunk_loop-tail :
      (fuel start : ℕ)
      → start + overlap < length chars
      → length chars ≤ start + fuel
      → flatten (map (drop overlap) (chunk_loop fuel size (size - overlap) chars start))
        ≡ drop (start + overlap) chars
  unfolding flatten
  chunk_loop-tail zero start inside enough = absurd (omega arith)
  chunk_loop-tail (suc fuel) start inside enough = elim (dec_le (length chars) (start + size)) [
    | yes last ↦
        rw (chunk_loop_last size (size - overlap) fuel start chars (omega arith) last)
          (append-nil _ ∙ drop-drop overlap start chars)
    | no more ↦ rw (chunk_loop_more size (size - overlap) fuel start chars (omega arith)) (
        ap₂ (λ x y. x ++ y) (drop-take overlap size (drop start chars))
          (chunk_loop-tail fuel (start + (size - overlap)) (omega arith) (omega arith))
        ∙ rejoined start)
  ]

-- Which branch `fixed_chunks` takes.
pub fixed_chunks_whole :
    (body : Text) (size overlap : ℕ)
    → (size ≤ overlap) ⊎ (length body ≤ size)
    → fixed_chunks body (pos size) overlap ≡ body ∷ []
unfolding fixed_chunks
fixed_chunks_whole body size overlap h = ground arith

fixed_chunks_cut :
    (body : Text) (size overlap : ℕ)
    → overlap < size
    → size < length body
    → fixed_chunks body (pos size) overlap ≡ chunk_loop (length body) size (size - overlap) body 0
unfolding fixed_chunks
fixed_chunks_cut body size overlap smaller long = ground arith

rejoin_cut :
    (body : Text) (size overlap fuel : ℕ)
    → overlap < size
    → size < length body
    → length body ≤ suc fuel
    → rejoin overlap (chunk_loop (suc fuel) size (size - overlap) body 0) ≡ body
unfolding rejoin
rejoin_cut body size overlap fuel smaller long enough =
    let e : 0 + (size - overlap) + overlap ≡ size = omega arith in
    rw (chunk_loop_more size (size - overlap) fuel 0 body (omega arith)) (
      ap (λ r. take size body ++ r)
        (chunk_loop-tail size overlap smaller body fuel (0 + (size - overlap)) (omega arith)
            (omega arith)
          ∙ ap (λ n. drop n body) e)
      ∙ take-append-drop size body)

rejoin-length :
    (body : Text) (size overlap : ℕ)
    → overlap < size
    → size < length body
    → rejoin overlap (chunk_loop (length body) size (size - overlap) body 0) ≡ body
rejoin-length [] size overlap smaller long = absurd (omega arith)
rejoin-length (c ∷ body) size overlap smaller long =
    rejoin_cut (c ∷ body) size overlap (length body) smaller long (omega arith)

rejoin_whole : (overlap : ℕ) (body : Text) → rejoin overlap (body ∷ []) ≡ body
unfolding rejoin flatten
rejoin_whole overlap body = append-nil body

-- Dropping from each later chunk the overlap it repeats gives the body back, for every size, the
-- negative ones included, and every overlap.
pub rejoin-fixed_chunks :
    (body : Text) (size : ℤ) (overlap : ℕ) → rejoin overlap (fixed_chunks body size overlap) ≡ body
rejoin-fixed_chunks body (negsuc n) overlap = unfold fixed_chunks in rejoin_whole overlap body
rejoin-fixed_chunks body (pos size) overlap = elim (dec_le size overlap) [
  | yes small ↦ rw (fixed_chunks_whole body size overlap (inl small)) (rejoin_whole overlap body)
  | no larger ↦ elim (dec_le (length body) size) [
    | yes short ↦ rw (fixed_chunks_whole body size overlap (inr short)) (rejoin_whole overlap body)
    | no long ↦
        rw (fixed_chunks_cut body size overlap (omega arith) (omega arith))
          (rejoin-length body size overlap (omega arith) (omega arith))
  ]
]

chunk_loop-le_size :
    (size step : ℕ) (chars : Text) (fuel start : ℕ)
    → All (λ c. length c ≤ size) (chunk_loop fuel size step chars start)
unfolding chunk_loop
chunk_loop-le_size size step chars zero start = tt
chunk_loop-le_size size step chars (suc fuel) start = ground (
  arith,
  chunk_loop-le_size size step chars fuel (start + step),
  length-slice start (min (start + size) (length chars)) chars,
)

-- When the size is above the overlap, no chunk is longer than the size.
pub fixed_chunks-le_size :
    (body : Text) (size overlap : ℕ)
    → overlap < size
    → All (λ c. length c ≤ size) (fixed_chunks body (pos size) overlap)
fixed_chunks-le_size body size overlap smaller = elim (dec_le (length body) size) [
  | yes short ↦ rw (fixed_chunks_whole body size overlap (inr short)) (short, tt)
  | no long ↦
      rw (fixed_chunks_cut body size overlap smaller (omega arith))
        (chunk_loop-le_size size (size - overlap) body (length body) 0)
]
