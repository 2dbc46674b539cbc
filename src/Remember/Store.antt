-- ===== src/Remember/Store.antt =====
-- Putting a note into the tables: `_embed_chunks`, `_ingest` and `_record_supersedes` of
-- src/ohmyboring/remember/writer.py. The SHA-256 of a text is a parameter.
pub mod Links
pub mod Refines
pub mod Failure
use ohmyboring.Prelude.{
  ℕ, zero, suc, ◌+◌, Bool, true, false, not, ◌&&◌, ◌||◌, Option, none, some, List, [], ◌∷◌, ◌++◌,
  if◌then◌else◌, any, filter, length, ◌==◌, Text, codes, is_empty, text_eq,
}
use ohmyboring.Prelude.Int.{pos}
use ohmyboring.Prelude.Decimal.{strip, show_nat}
use ohmyboring.Ingest.Chunk.{fixed_chunks}
use ohmyboring.Result.{Either, ok, err}
use ohmyboring.Remember.Note.{CharTable, FrontMatter, RememberNote}
use ohmyboring.Remember.Graph.{Slot, has_slot, doc_node_id}
use ohmyboring.Remember.Tables.{
  Db, ChunkRow, upsert_chunk, prune_chunks, get_doc_sha, set_updated_at, upsert_edge,
}
use ohmyboring.Remember.Claims.{partial_seal, retired_read}
use ohmyboring.Remember.Action.{Action, pure, give_up, ◌>>=◌, ◌>>◌, execute}
use ohmyboring.Remember.Projection.{
  Embedding, Stats, no_stats, GraphJob, embed_text, checked_vector, write_document, extract_graph,
}

-- A note with its file: the path, what is read from it, and its time.
pub record StoredFile : Type 0 where
  pub path : Text
  pub content : Text
  pub mtime : ℕ

abbrev chunk_id : Text → ℕ → Text
chunk_id path idx = path ++ b'#' ∷ show_nat idx

abbrev pub chunk_row : FrontMatter → Text → ℕ → Text → ChunkRow
chunk_row front path idx content = record {
  id = chunk_id path idx;
  source_path = path;
  content = content;
  origin = front.origin;
  project = front.project;
  kind = front.kind;
  chunk_idx = idx;
}

module _ (deps : Embedding) where
  -- Each chunk with the dimension of its vector.
  unfoldable pub embed_chunks : List Text → Action (List (Text × ℕ))
  embed_chunks [] = pure []
  embed_chunks (piece ∷ pieces) = do
    dim ← embed_text deps piece
    rest ← embed_chunks pieces
    pure ((piece, dim) ∷ rest)

  unfoldable pub write_chunks : FrontMatter → Text → ℕ → List (Text × ℕ) → Action (Unit {0})
  write_chunks front path idx [] = pure tt
  write_chunks front path idx ((content, dim) ∷ chunks) = do
    checked_vector deps dim
    execute (upsert_chunk (chunk_row front path idx content))
    write_chunks front path (suc idx) chunks

abbrev pub pieces_of : Text → List Text
pieces_of body = fixed_chunks body (pos 1500) 200

abbrev same_sha : Option Text → Text → Bool
same_sha none sha = false
same_sha (some prev) sha = text_eq prev sha

abbrev pub job_of : FrontMatter → Text → StoredFile → GraphJob
job_of front body file = record {
  front = front;
  body = body;
  path = file.path;
  valid_from = file.mtime;
  anchors = [];
}

module _ (table : CharTable) (deps : Embedding) (sha256 : Text → Text) where
  -- `data.replace("\x00", "")`, hashed
  abbrev pub sha_of : StoredFile → Text
  sha_of file = sha256 (filter (λ c. not (c == 0)) file.content)

  unfoldable pub ingest_new : FrontMatter → Text → StoredFile → List (Text × ℕ) → Action Stats
  ingest_new front body file embedded = do
    execute (write_document front (sha_of file) file.mtime file.path)
    write_chunks deps front file.path 0 embedded
    execute (prune_chunks file.path (length embedded))
    extract_graph table deps (job_of front body file) (record no_stats { chunks = length embedded })

  unfoldable pub ingest : RememberNote → StoredFile → Action Stats
  ingest note file db =
      let front = note.front in
      let body = strip note.body in
      let pieces = pieces_of body in
      if same_sha (get_doc_sha file.path db) (sha_of file)
      then extract_graph table deps (job_of front body file) no_stats
          (set_updated_at file.path file.mtime db)
      else if not (any (λ piece. not (is_empty (strip piece))) pieces)
      then (ok (record no_stats { skipped = true }), db)
      else (embed_chunks deps pieces >>= ingest_new front body file) db

-- What `_record_supersedes` returns.
pub record Linked : Type 0 where
  pub linked : ℕ
  pub unknown : ℕ
  pub unknown_paths : List Text
  pub retired : List Slot

abbrev pub nothing_linked : Linked
nothing_linked = record { linked = 0; unknown = 0; unknown_paths = []; retired = [] }

abbrev not_found : Text → Linked → Linked
not_found path l = record l {
  unknown = suc l.unknown;
  unknown_paths = l.unknown_paths ++ path ∷ [];
}

-- The keys of the dictionary, in the order of their first use.
unfoldable pub add_slots : List Slot → List Slot → List Slot
add_slots known [] = known
add_slots known (slot ∷ slots) =
    add_slots (if has_slot slot known then known else known ++ slot ∷ []) slots

abbrev pub is_document : Text → Db → Bool
is_document path db = elim (get_doc_sha path db) [ none ↦ false | some sha ↦ true ]

-- The edge and the closing of the old note's claims. `now` is the clock of the database.
unfoldable pub link : ℕ → Text → Text → Option Text → Db → Db
link now new old judge db = partial_seal now new old (
    upsert_edge (record { src = doc_node_id new; kind = codes "supersedes"; dst = doc_node_id old })
      judge db)

unfoldable pub record_supersede : ℕ → Text → Option Text → Text → Linked → Db → Linked × Db
record_supersede now new judge old l db =
    let after = link now new old judge db in
    let done = record l {
      linked = suc l.linked;
      retired = add_slots l.retired (retired_read new old after);
    } in
    if text_eq old new
    then (not_found old l, db)
    else if not (is_document new db)
    then (not_found new l, db)
    else if not (is_document old db)
    then (not_found old l, db)
    else (done, after)

unfoldable pub record_loop : ℕ → Text → Option Text → List Text → Linked → Db → Linked × Db
record_loop now new judge [] l db = (l, db)
record_loop now new judge (old ∷ targets) l db =
    let (l', db') = record_supersede now new judge old l db in
    record_loop now new judge targets l' db'

unfoldable pub record_supersedes : ℕ → Text → List Text → Option Text → Db → Linked × Db
record_supersedes now new targets judge db = record_loop now new judge targets nothing_linked db
