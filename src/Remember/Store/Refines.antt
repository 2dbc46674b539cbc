-- ===== src/Remember/Store/Refines.antt =====
-- What `_ingest` of src/ohmyboring/remember/writer.py makes of a note with a new path.
use ohmyboring.Prelude.{
  ℕ, suc, true, false, not, ◌&&◌, ◌||◌, none, some, List, [], ◌∷◌, ◌++◌, ◌≡◌, refl, sym, ap, ◌∙◌,
  inl, inr, if◌then◌else◌, any, map, length, Text, codes, is_empty, text_eq, text_eq_refl,
  text_eq_sym, text_eq→eq, Bool-cases, All,
}
use ohmyboring.Prelude.Decimal.{strip}
use ohmyboring.Result.{ok}
use ohmyboring.Remember.Note.{CharTable, FrontMatter, RememberNote}
use ohmyboring.Remember.Graph.{Edge, expected_edges, doc_node_id, is_project}
use ohmyboring.Remember.Tables.{
  Db, DocumentRow, get_doc_sha, find_sha, upsert, upsert_document, upsert_chunk, prune_chunks,
  delete_edges,
}
use ohmyboring.Remember.Tables.Edges.{has_edge}
use ohmyboring.Remember.Action.{bind-runs}
use ohmyboring.Remember.Projection.{
  Embedding, Stats, no_stats, edge_to, node_of, embed_text, checked_vector, document_row,
  write_document,
}
use ohmyboring.Remember.Projection.Adds.{has}
use ohmyboring.Remember.Projection.Documents.{
  documents-write_tags, documents-when, documents-node_edge,
}
use ohmyboring.Remember.Projection.Refines.{IsOwnClaim, embed_text-runs, checked_vector-runs}
use ohmyboring.Remember.Projection.Whole.{is_rewritten, extract_graph-Refines}
use ohmyboring.Remember.Store.Links.{is_document-same}
use ohmyboring.Remember.Store.{
  StoredFile, embed_chunks, write_chunks, pieces_of, job_of, sha_of, chunk_row, ingest_new, ingest,
  is_document,
}

find_sha-upsert :
    (row : DocumentRow) (docs : List DocumentRow)
    → find_sha row.source_path
        (upsert (λ d. text_eq d.source_path row.source_path) (λ d. row) row docs)
      ≡ some row.sha
unfolding find_sha upsert
find_sha-upsert row [] = rw (text_eq_refl row.source_path) refl
find_sha-upsert row (d ∷ docs) = elim (Bool-cases (text_eq d.source_path row.source_path)) [
  | inl same ↦ rw same (rw (text_eq_refl row.source_path) refl)
  | inr other ↦ rw other (rw other (find_sha-upsert row docs))
]

get_doc_sha-documents :
    (path : Text) (docs : List DocumentRow) (db : Db)
    → db.documents ≡ docs
    → get_doc_sha path db ≡ find_sha path docs
unfolding get_doc_sha
get_doc_sha-documents path docs db same = ap (find_sha path) same

is_document-sha :
    (path sha : Text) (db : Db) → get_doc_sha path db ≡ some sha → is_document path db ≡ true
is_document-sha path sha db found = rw (found, is_document) refl

find_sha-other :
    (old : Text) (row : DocumentRow) (docs : List DocumentRow)
    → text_eq old row.source_path ≡ false
    → find_sha old (upsert (λ d. text_eq d.source_path row.source_path) (λ d. row) row docs)
      ≡ find_sha old docs
unfolding find_sha upsert
find_sha-other old row [] other = rw (text_eq_sym row.source_path old ∙ other) refl
find_sha-other old row (d ∷ docs) other =
    elim (Bool-cases (text_eq d.source_path row.source_path)) [
      | inl same ↦
          let apart : text_eq row.source_path old ≡ false =
            text_eq_sym row.source_path old ∙ other in
          let before : text_eq d.source_path old ≡ false =
            ap (λ p. text_eq p old) (text_eq→eq d.source_path row.source_path same) ∙ apart in
          rw same (rw (apart, before) refl)
      | inr differs ↦ rw differs (
          ap (λ sha. if text_eq d.source_path old then some d.sha else sha)
            (find_sha-other old row docs other))
    ]

is_document-of_sha :
    (path : Text) (d db : Db)
    → get_doc_sha path d ≡ get_doc_sha path db
    → is_document path d ≡ is_document path db
is_document-of_sha path d db same = rw (same, is_document) refl

documents-write_document :
    (front : FrontMatter) (sha : Text) (mtime : ℕ) (path : Text) (db : Db)
    → (write_document front sha mtime path db).documents
      ≡ (upsert_document (document_row front sha mtime path) db).documents
unfolding write_document delete_edges
documents-write_document front sha mtime path db =
    let project = codes "project:" ++ front.project in
    let stored = upsert_document (document_row front sha mtime path) db in
    let write_project = λ (db : Db).
      edge_to (doc_node_id path) (codes "in_project") project
        (node_of project (codes "project") front.project none db) in
    documents-write_tags (doc_node_id path) front.tags _
    ∙ documents-when (is_project front.project) write_project stored (
        documents-node_edge (doc_node_id path) (codes "in_project") project project
          (codes "project") front.project none stored)

is_document-other :
    (old : Text) (front : FrontMatter) (sha : Text) (mtime : ℕ) (path : Text) (db : Db)
    → text_eq old path ≡ false
    → is_document old (write_document front sha mtime path db) ≡ is_document old db
unfolding upsert_document
is_document-other old front sha mtime path db other =
    let row = document_row front sha mtime path in
    is_document-of_sha old (write_document front sha mtime path db) db (
      get_doc_sha-documents old (upsert_document row db).documents _
        (documents-write_document front sha mtime path db)
      ∙ find_sha-other old row db.documents other
      ∙ sym (get_doc_sha-documents old db.documents db refl))

pub is_document-write_document :
    (front : FrontMatter) (sha : Text) (mtime : ℕ) (path : Text) (db : Db)
    → is_document path (write_document front sha mtime path db) ≡ true
unfolding upsert_document
is_document-write_document front sha mtime path db =
    let row = document_row front sha mtime path in
    is_document-sha path sha (write_document front sha mtime path db) (
      get_doc_sha-documents path (upsert_document row db).documents _
        (documents-write_document front sha mtime path db)
      ∙ find_sha-upsert row db.documents)

module _ (deps : Embedding) (dim : ℕ) (embeds : (t : Text) → deps.embed t ≡ ok dim) where
  abbrev pub with_dim : Text → Text × ℕ
  with_dim piece = (piece, dim)

  pub embed_chunks-runs :
      (pieces : List Text) (db : Db) → embed_chunks deps pieces db ≡ (ok (map with_dim pieces), db)
  unfolding embed_chunks
  embed_chunks-runs [] db = refl
  embed_chunks-runs (piece ∷ pieces) db =
      bind-runs (embed_text deps piece) _ db dim db (embed_text-runs deps dim embeds piece db)
      ∙ bind-runs (embed_chunks deps pieces) _ db (map with_dim pieces) db
          (embed_chunks-runs pieces db)

module _ (deps : Embedding) (embeds : (t : Text) → deps.embed t ≡ ok deps.embed_dim) where
  write_chunks-runs :
      (front : FrontMatter) (path : Text) (idx : ℕ) (pieces : List Text) (db : Db)
      → (d : Db) × (write_chunks deps front path idx
            (map (with_dim deps deps.embed_dim embeds) pieces)
            db
          ≡ (ok tt, d))
        × (d.edges ≡ db.edges)
        × (d.documents ≡ db.documents)
  unfolding write_chunks upsert_chunk
  write_chunks-runs front path idx [] db = (db, refl, refl, refl)
  write_chunks-runs front path idx (piece ∷ pieces) db =
      let after = upsert_chunk (chunk_row front path idx piece) db in
      let (d, ran, edges, docs) = write_chunks-runs front path (suc idx) pieces after in
      (
        d,
        bind-runs (checked_vector deps deps.embed_dim) _ db tt db (checked_vector-runs deps db)
            ∙ ran,
        edges,
        docs,
      )

  module _ (table : CharTable) (sha256 : Text → Text) (note : RememberNote)
      (file : StoredFile) where
    -- A note with a new path and a body that is not blank is put into the tables without a failure,
    -- when the vectors have the dimension asked for and each claim is said by nobody or by the
    -- owner. Then its path is a document, every other path is one exactly when it was, and an edge
    -- stands exactly when graph.py expects it of the note without targets, or when it stood before
    -- and is not a tagged, uses, about or claims edge of the note.
    pub ingest-Refines :
        (db : Db)
        → get_doc_sha file.path db ≡ none
        → any (λ piece. not (is_empty (strip piece))) (pieces_of (strip note.body)) ≡ true
        → All IsOwnClaim note.front.claims
        → (stats : Stats) × (d : Db) × (ingest table deps sha256 note file db ≡ (ok stats, d))
          × (is_document file.path d ≡ true)
          × ((old : Text) → text_eq old file.path ≡ false → is_document old d ≡ is_document old db)
          × ((e : Edge)
              → has e d
                ≡ has_edge e (expected_edges table note.front file.path [])
                  || (has e db && not (is_rewritten file.path e)))
    unfolding ingest ingest_new prune_chunks
    ingest-Refines db new full own =
        let body = strip note.body in
        let pieces = pieces_of body in
        let embedded = map (with_dim deps deps.embed_dim embeds) pieces in
        let sha = sha_of table deps sha256 file in
        let written = write_document note.front sha file.mtime file.path db in
        let (chunked, wrote, edges, docs) =
          write_chunks-runs note.front file.path 0 pieces written in
        let pruned = prune_chunks file.path (length embedded) chunked in
        let (stats, d, ran, kept, has_all) =
          extract_graph-Refines table deps embeds (job_of note.front body file) sha file.mtime
            (record no_stats { chunks = length embedded }) db pruned edges own in
        let ran_new : ingest_new table deps sha256 note.front body file embedded db
            ≡ (ok stats, d) =
          bind-runs (write_chunks deps note.front file.path 0 embedded) _ written tt chunked wrote
          ∙ ran in
        (
          stats,
          d,
          rw (new, full)
              (bind-runs (embed_chunks deps pieces)
                  (ingest_new table deps sha256 note.front body file) db embedded db
                  (embed_chunks-runs deps deps.embed_dim embeds pieces db)
                ∙ ran_new),
          is_document-same file.path d written (kept ∙ docs)
              ∙ is_document-write_document note.front sha file.mtime file.path db,
          λ old other.
              is_document-same old d written (kept ∙ docs)
              ∙ is_document-other old note.front sha file.mtime file.path db other,
          has_all,
        )
