-- ===== src/Remember/WriteExamples.antt =====
-- Tests and concrete cases for the writer of src/ohmyboring/remember.
use ohmyboring.Prelude.{
  ℕ, true, false, not, ◌&&◌, ◌||◌, none, some, [], ◌∷◌, ◌≡◌, refl, any, map, filter, Text, codes,
  is_empty, text_eq,
}
use ohmyboring.Prelude.Decimal.{strip, lstrip, is_space}
use ohmyboring.Result.{ok, err}
use ohmyboring.Ingest.Chunk.{fixed_chunks}
use ohmyboring.Remember.Note.{Claim, RememberNote}
use ohmyboring.Remember.Graph.{Edge, expected_edges, doc_node_id, fan}
use ohmyboring.Remember.Graph.Seals.{expected_seal_states, compare_seals}
use ohmyboring.Remember.Tables.{Db, StoredClaim, get_doc_sha, find_sha}
use ohmyboring.Remember.Tables.Edges.{has_edge}
use ohmyboring.Remember.Claims.{partial_seal, slots_of}
use ohmyboring.Remember.Claims.Partial.{seal_row, partial_seal-Refines}
use ohmyboring.Remember.Projection.{Embedding, Stats, dim_error, write_document}
use ohmyboring.Remember.Projection.Adds.{has}
use ohmyboring.Remember.Projection.Whole.{is_rewritten}
use ohmyboring.Remember.Store.{
  StoredFile, ingest, is_document, pieces_of, record_supersedes, sha_of,
}
use ohmyboring.Remember.Store.Links.{is_linked, record_supersedes-edges}
use ohmyboring.Remember.Store.Refines.{ingest-Refines}
use ohmyboring.Remember.Store.Failure.{ingest-bad_dim}
use ohmyboring.Remember.Examples.{ascii}

abbrev pub three : Embedding
three = record { embed = λ t. ok 3; embed_dim = 3 }

abbrev next_step : Claim
next_step = record {
  subject = codes "build";
  predicate = codes "next";
  value = codes "run it";
  kind = codes "next";
  confidence = [];
  said_by = some (codes "owner");
}

abbrev pub step_note : RememberNote
step_note = record {
  front = record {
    title = codes "Step";
    kind = codes "note";
    origin = codes "personal";
    project = codes "omb";
    date = [];
    tags = codes "go" ∷ [];
    tools = codes "Git" ∷ [];
    concepts = [];
    claims = next_step ∷ [];
    sources = [];
    omb_session_id = none;
    author = codes "inferred";
    omb_session_since = none;
  };
  body = codes "text";
}

abbrev pub old_path : Text
old_path = codes "/vault/wiki/wiki-0001.md"

abbrev pub new_path : Text
new_path = codes "/vault/wiki/wiki-0002.md"

abbrev old_claim : Text → ℕ → StoredClaim
old_claim path time = record {
  subject = codes "build";
  predicate = codes "next";
  value = codes "wait";
  source_path = path;
  valid_from = time;
  kind = codes "next";
  confidence = codes "unknown";
  anchor = none;
  said_by = none;
  superseded_at = none;
}

abbrev pub tables : Db
tables = record {
  documents =
      record {
        source_path = old_path;
        origin = codes "personal";
        project = codes "omb";
        kind = codes "note";
        title = codes "Old";
        tags = [];
        sha = codes "x";
        updated_at = 1;
        author = codes "unknown";
      }
      ∷ [];
  nodes = [];
  edges = [];
  chunks = [];
  claims = old_claim old_path 1 ∷ old_claim new_path 2 ∷ [];
}

abbrev note_file : StoredFile
note_file = record { path = new_path; content = codes "file"; mtime = 5 }

abbrev pub same_text : Text → Text
same_text t = t

pub embeds_three : (t : Text) → three.embed t ≡ ok 3
embeds_three t = refl

pub path_is_new : get_doc_sha new_path tables ≡ none
unfolding get_doc_sha find_sha
path_is_new = refl

pub body_is_full :
    any (λ piece. not (is_empty (strip piece))) (pieces_of (strip (codes "text"))) ≡ true
unfolding fixed_chunks strip lstrip is_space
body_is_full = refl

ingest-Refines_example :
    (stats : Stats) × (d : Db) × (ingest ascii three same_text step_note note_file tables
      ≡ (ok stats, d))
    × (is_document new_path d ≡ true)
    × ((old : Text) → text_eq old new_path ≡ false → is_document old d ≡ is_document old tables)
    × ((e : Edge)
        → has e d
          ≡ has_edge e (expected_edges ascii step_note.front new_path [])
            || (has e tables && not (is_rewritten new_path e)))
ingest-Refines_example =
    ingest-Refines three embeds_three ascii same_text step_note note_file tables path_is_new
      body_is_full (refl, tt)

abbrev five : Embedding
five = record { embed = λ t. ok 5; embed_dim = 3 }

embeds_five : (t : Text) → five.embed t ≡ ok 5
embeds_five t = refl

ingest-bad_dim_example :
    (ingest ascii five same_text step_note note_file tables ≡ (
      err (dim_error 5 3),
      write_document step_note.front (sha_of ascii five same_text note_file) 5 new_path tables,
    ))
    × (is_document new_path (ingest ascii five same_text step_note note_file tables).1 ≡ true)
ingest-bad_dim_example =
    ingest-bad_dim five 5 embeds_five refl ascii same_text step_note note_file tables path_is_new
      body_is_full

pub old_is_document : is_document old_path tables ≡ true
unfolding get_doc_sha find_sha
old_is_document = refl

abbrev new_edge : Edge
new_edge = record {
  src = doc_node_id old_path;
  kind = codes "supersedes";
  dst = doc_node_id new_path;
}

record_supersedes-edges_example :
    has new_edge (record_supersedes 9 old_path (new_path ∷ []) none tables).1
    ≡ has_edge new_edge (
        fan
          (doc_node_id old_path)
          (codes "supersedes")
          (codes "doc:")
          (filter (is_linked old_path tables) (new_path ∷ [])))
      || has new_edge tables
record_supersedes-edges_example =
    record_supersedes-edges 9 old_path none (new_path ∷ []) tables old_is_document new_edge

partial_seal-Refines_example :
    compare_seals
      (expected_seal_states
        (map seal_row (partial_seal 9 new_path old_path tables).claims)
        new_path
        (slots_of new_path tables)
        (old_path ∷ []))
      new_path
    ≡ record { checked = 2; engine_only = 0; python_only = 0; engine_only_on_new_note = 0 }
unfolding partial_seal expected_seal_states
partial_seal-Refines_example =
    partial_seal-Refines 9 new_path old_path tables refl (refl, (refl, tt))
