-- ===== src/Remember/Store/Failure.antt =====
-- What `_ingest` of src/ohmyboring/remember/writer.py leaves when the vectors have a wrong dimension.
use ohmyboring.Prelude.{
  ℕ, true, false, not, none, List, [], ◌∷◌, ◌≡◌, refl, ap, ◌∙◌, any, map, ◌==◌, Text, is_empty,
  NonEmpty,
}
use ohmyboring.Prelude.Decimal.{strip}
use ohmyboring.Result.{ok, err}
use ohmyboring.Remember.Note.{CharTable, FrontMatter, RememberNote}
use ohmyboring.Remember.Tables.{Db, get_doc_sha}
use ohmyboring.Remember.Action.{bind-runs, bind-fails}
use ohmyboring.Remember.Projection.{Embedding, dim_error, checked_vector, write_document}
use ohmyboring.Remember.Store.{
  StoredFile, embed_chunks, write_chunks, pieces_of, sha_of, ingest_new, ingest, is_document,
}
use ohmyboring.Remember.Store.Refines.{with_dim, embed_chunks-runs, is_document-write_document}

module _ (deps : Embedding) (dim : ℕ) (embeds : (t : Text) → deps.embed t ≡ ok dim)
    (bad : (dim == deps.embed_dim) ≡ false) where
  checked_vector-fails :
      (db : Db) → checked_vector deps dim db ≡ (err (dim_error dim deps.embed_dim), db)
  unfolding checked_vector
  checked_vector-fails db = rw bad refl

  write_chunks-fails :
      (front : FrontMatter) (path : Text) (idx : ℕ) (pieces : List Text) (db : Db)
      → NonEmpty pieces
      → write_chunks deps front path idx (map (with_dim deps dim embeds) pieces) db
        ≡ (err (dim_error dim deps.embed_dim), db)
  unfolding write_chunks
  write_chunks-fails front path idx [] db some_piece = absurd some_piece
  write_chunks-fails front path idx (piece ∷ pieces) db some_piece =
      bind-fails (checked_vector deps dim) _ db _ db (checked_vector-fails db)

  -- Where the path is new, the body is not blank and every vector has the same wrong dimension, the
  -- call fails with the error of the dimension, and yet the tables hold what _upsert_document
  -- writes: the path is a document with the hash of the file.
  pub ingest-bad_dim :
      (table : CharTable) (sha256 : Text → Text) (note : RememberNote) (file : StoredFile) (db : Db)
      → get_doc_sha file.path db ≡ none
      → any (λ piece. not (is_empty (strip piece))) (pieces_of (strip note.body)) ≡ true
      → (ingest table deps sha256 note file db ≡ (
        err (dim_error dim deps.embed_dim),
        write_document note.front (sha_of table deps sha256 file) file.mtime file.path db,
      ))
        × (is_document file.path (ingest table deps sha256 note file db).1 ≡ true)
  unfolding ingest ingest_new
  ingest-bad_dim table sha256 note file db new full =
      let body = strip note.body in
      let pieces = pieces_of body in
      let embedded = map (with_dim deps dim embeds) pieces in
      let written =
        write_document note.front (sha_of table deps sha256 file) file.mtime file.path db in
      let failed_new : ingest_new table deps sha256 note.front body file embedded db
          ≡ (err (dim_error dim deps.embed_dim), written) =
        bind-fails (write_chunks deps note.front file.path 0 embedded) _ written _ written
          (write_chunks-fails note.front file.path 0 pieces written (some_piece pieces full)) in
      let failed =
        bind-runs (embed_chunks deps pieces) (ingest_new table deps sha256 note.front body file) db
          embedded db (embed_chunks-runs deps dim embeds pieces db)
        ∙ failed_new in
      (
        rw (new, full) failed,
        rw (new, full)
            (ap (λ r. is_document file.path r.1) failed
              ∙ is_document-write_document note.front _ file.mtime file.path db),
      )
    where
      some_piece :
          (pieces : List Text)
          → any (λ piece. not (is_empty (strip piece))) pieces ≡ true
          → NonEmpty pieces
      some_piece [] h = absurd cc
      some_piece (piece ∷ pieces) h = tt
