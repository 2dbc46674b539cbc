-- ===== src/Remember/Tables.antt =====
-- The tables that src/ohmyboring/remember/writer.py writes, and its SQL statements as functions on
-- them. The embedding column is left out. Keys are those of data/schema/baseline.sql: the path of a
-- document, the id of a node or a chunk, (src, dst, kind) of an edge, and (subject, predicate,
-- valid_from) of a claim. `ORDER BY` is left out.
pub mod Edges
use ohmyboring.Prelude.{
  ℕ, max, Bool, true, false, not, ◌&&◌, ◌||◌, Option, none, some, List, [], ◌∷◌, ◌++◌,
  if◌then◌else◌, ltb, leb, ◌==◌, any, filter, drop, map, Text, codes, text_eq,
}
use ohmyboring.Remember.Tokens.{is_member}
use ohmyboring.Remember.Graph.{Edge, Slot, slot_eq, has_slot}

pub record DocumentRow : Type 0 where
  pub source_path : Text
  pub origin : Text
  pub project : Text
  pub kind : Text
  pub title : Text
  pub tags : List Text
  pub sha : Text
  pub updated_at : ℕ
  pub author : Text

pub record NodeRow : Type 0 where
  pub id : Text
  pub kind : Text
  pub label : Text
  pub outcome : Option Text

pub record EdgeRow : Type 0 where
  pub edge : Edge
  pub judge : Option Text

pub record ChunkRow : Type 0 where
  pub id : Text
  pub source_path : Text
  pub content : Text
  pub origin : Text
  pub project : Text
  pub kind : Text
  pub chunk_idx : ℕ

pub record StoredClaim : Type 0 where
  pub subject : Text
  pub predicate : Text
  pub value : Text
  pub source_path : Text
  pub valid_from : ℕ
  pub kind : Text
  pub confidence : Text
  pub anchor : Option Text
  pub said_by : Option Text
  pub superseded_at : Option ℕ

pub record Db : Type 0 where
  pub documents : List DocumentRow
  pub nodes : List NodeRow
  pub edges : List EdgeRow
  pub chunks : List ChunkRow
  pub claims : List StoredClaim

abbrev pub edge_eq : Edge → Edge → Bool
edge_eq e f = text_eq e.src f.src && (text_eq e.dst f.dst && text_eq e.kind f.kind)

abbrev pub has_row : Edge → List EdgeRow → Bool
has_row e rows = any (λ r. edge_eq e r.edge) rows

-- `INSERT … ON CONFLICT (key) DO UPDATE`: the row of the key is changed where it stands.
module _ {A : Type 0} where
  unfoldable pub upsert : (A → Bool) → (A → A) → A → List A → List A
  upsert same change row [] = row ∷ []
  upsert same change row (old ∷ rows) =
      let rest = upsert same change row rows in if same old then change old ∷ rows else old ∷ rest

unfoldable pub upsert_document : DocumentRow → Db → Db
upsert_document row db = record db {
  documents = upsert (λ d. text_eq d.source_path row.source_path) (λ d. row) row db.documents;
}

unfoldable pub upsert_node : NodeRow → Db → Db
upsert_node row db = record db {
  nodes =
      upsert (λ n. text_eq n.id row.id) (λ n. record n { label = row.label; outcome = row.outcome })
        row db.nodes;
}

-- `ON CONFLICT DO NOTHING`
unfoldable pub upsert_edge : Edge → Option Text → Db → Db
upsert_edge edge judge db = record db {
  edges =
      (if has_row edge db.edges
        then db.edges
        else db.edges ++ record { edge = edge; judge = judge } ∷ []);
}

abbrev pub is_edge_of : Text → List Text → EdgeRow → Bool
is_edge_of doc kinds r = text_eq r.edge.src doc && is_member r.edge.kind kinds

unfoldable pub delete_edges : Text → List Text → Db → Db
delete_edges doc kinds db = record db {
  edges = filter (λ r. not (is_edge_of doc kinds r)) db.edges;
}

unfoldable pub upsert_chunk : ChunkRow → Db → Db
upsert_chunk row db = record db {
  chunks =
      upsert (λ c. text_eq c.id row.id) (λ c. record row { id = c.id; source_path = c.source_path })
        row db.chunks;
}

unfoldable pub prune_chunks : Text → ℕ → Db → Db
prune_chunks path from_idx db = record db {
  chunks = filter (λ c. not (text_eq c.source_path path && leb from_idx c.chunk_idx)) db.chunks;
}

unfoldable pub find_sha : Text → List DocumentRow → Option Text
find_sha path [] = none
find_sha path (d ∷ ds) = if text_eq d.source_path path then some d.sha else find_sha path ds

unfoldable pub get_doc_sha : Text → Db → Option Text
get_doc_sha path db = find_sha path db.documents

abbrev pub all_doc_paths : Db → List Text
all_doc_paths db = map (λ d. d.source_path) db.documents

unfoldable pub set_updated_at : Text → ℕ → Db → Db
set_updated_at path at db = record db {
  documents =
      map (λ d. if text_eq d.source_path path then record d { updated_at = at } else d)
        db.documents;
}

abbrev pub is_owner_doc : Text → Db → Bool
is_owner_doc path db =
    any (λ d. text_eq d.source_path path && text_eq d.author (codes "owner")) db.documents

unfoldable pub owner_authored : List Text → Db → List Text
owner_authored paths db =
    map (λ d. d.source_path)
      (filter (λ d. is_member d.source_path paths && text_eq d.author (codes "owner")) db.documents)
