-- ===== src/Remember/Projection.antt =====
-- The graph of a stored note: `_upsert_document` to `_extract_graph` of
-- src/ohmyboring/remember/writer.py. Of an embedding only its dimension is kept, and an SQL statement
-- does not give_up.
pub mod Adds
pub mod ClaimEdges
pub mod Documents
pub mod Refines
pub mod Whole
use ohmyboring.Prelude.{
  ℕ, zero, suc, ◌+◌, Bool, true, false, not, ◌&&◌, ◌||◌, Option, none, some, List, [], ◌∷◌, ◌++◌,
  if◌then◌else◌, ◌==◌, take, Text, codes, is_empty, text_eq,
}
use ohmyboring.Prelude.Decimal.{strip, show_nat}
use ohmyboring.Result.{Either, ok, err}
use ohmyboring.Remember.Note.{CharTable, Claim, FrontMatter}
use ohmyboring.Remember.Tokens.{is_member}
use ohmyboring.Remember.Graph.{
  Edge, Slot, project_cap, owner_speaker_node, has_han, slugify, claim_written, claim_kind,
  is_project, doc_node_id, claim_id_of, typed_id_of,
}
use ohmyboring.Remember.Tables.{
  Db, DocumentRow, NodeRow, StoredClaim, upsert_document, upsert_node, upsert_edge, delete_edges,
}
use ohmyboring.Remember.Claims.{
  claim_unchanged, upsert_claim_row, mirror_said_by, fact_seal, fact_unseal, item_seal, item_unseal,
}
use ohmyboring.Remember.Anchors.{Anchor, to_db_string, from_note_body, anchor_for_claim}
use ohmyboring.Remember.Action.{Action, pure, give_up, ◌>>=◌, ◌>>◌, execute}

pub record Stats : Type 0 where
  pub chunks : ℕ
  pub tools : ℕ
  pub concepts : ℕ
  pub claims : ℕ
  pub claims_unchanged : ℕ
  pub edges : ℕ
  pub skipped : Bool

abbrev pub no_stats : Stats
no_stats = record {
  chunks = 0;
  tools = 0;
  concepts = 0;
  claims = 0;
  claims_unchanged = 0;
  edges = 0;
  skipped = false;
}

abbrev pub edge_to : Text → Text → Text → Db → Db
edge_to src kind dst db = upsert_edge (record { src = src; kind = kind; dst = dst }) none db

abbrev pub node_of : Text → Text → Text → Option Text → Db → Db
node_of id kind label outcome db =
    upsert_node (record { id = id; kind = kind; label = label; outcome = outcome }) db

abbrev pub when : Bool → (Db → Db) → Db → Db
when test f db = if test then f db else db

unfoldable pub write_tags : Text → List Text → Db → Db
write_tags doc [] db = db
write_tags doc (tag ∷ tags) db = write_tags doc tags (
    edge_to doc (codes "tagged") (codes "topic:" ++ tag)
      (node_of (codes "topic:" ++ tag) (codes "topic") tag none db))

abbrev pub document_row : FrontMatter → Text → ℕ → Text → DocumentRow
document_row front sha mtime path = record {
  source_path = path;
  origin = front.origin;
  project = front.project;
  kind = front.kind;
  title = front.title;
  tags = front.tags;
  sha = sha;
  updated_at = mtime;
  author = front.author;
}

unfoldable pub write_document : FrontMatter → Text → ℕ → Text → Db → Db
write_document front sha mtime path db =
    let doc = doc_node_id path in
    let project = codes "project:" ++ front.project in
    let stored = upsert_document (document_row front sha mtime path) db in
    let in_project =
      when (is_project front.project)
        (λ db.
          edge_to doc (codes "in_project") project
            (node_of project (codes "project") front.project none db))
        stored in
    write_tags doc front.tags (delete_edges doc (codes "tagged" ∷ []) in_project)

abbrev pub confidence_of : Text → Text
confidence_of raw = if is_empty (strip raw) then codes "unknown" else strip raw

-- What the writer asks of the embedding model: the dimension of a text's vector, or why there is none.
pub record Embedding : Type 0 where
  pub embed : Text → Either ℕ Text
  pub embed_dim : ℕ

unfoldable pub dim_error : ℕ → ℕ → Text
dim_error got expected =
    codes "embedding dim mismatch: got "
    ++ (show_nat got
        ++ (codes ", expected "
            ++ (show_nat expected
                ++ (codes ". boring.json embed_model must output "
                    ++ (show_nat expected
                        ++ codes
                            "-dim vectors (embed_dim), or change embed_dim + `make reset`.")))))

module _ (deps : Embedding) where
  unfoldable pub embed_text : Text → Action ℕ
  embed_text text = elim (deps.embed text) [ ok dim ↦ pure dim | err reason ↦ give_up reason ]

  unfoldable pub checked_vector : ℕ → Action (Unit {0})
  checked_vector dim =
      if dim == deps.embed_dim then pure tt else give_up (dim_error dim deps.embed_dim)

abbrev pub add_edges : Stats → ℕ → Stats
add_edges stats n = record stats { edges = stats.edges + n }

unfoldable pub seal_slot : Text → Slot → Text → Db → Db
seal_slot kind slot path db =
    if text_eq kind (codes "fact")
    then fact_unseal slot (fact_seal slot db)
    else item_unseal slot path (item_seal slot path db)

abbrev anchor_text : Option Anchor → Option Text
anchor_text none = none
anchor_text (some anchor) = some (to_db_string anchor)

abbrev claim_text : StoredClaim → Text
claim_text row = row.subject ++ b' ' ∷ (row.predicate ++ b' ' ∷ row.value)

module _ (deps : Embedding) where
  -- The row of a claim that is new or has changed.
  unfoldable pub store_claim : StoredClaim → Stats → Action Stats
  unfolding seal_slot
  store_claim row stats = do
    dim ← embed_text deps (claim_text row)
    checked_vector deps dim
    execute (upsert_claim_row row)
    execute (seal_slot row.kind (row.subject, row.predicate) row.source_path)
    pure (record stats { claims = suc stats.claims })

  unfoldable pub keep_or_store : StoredClaim → Stats → Action Stats
  keep_or_store row stats db =
      if claim_unchanged row db
      then (ok (record stats { claims_unchanged = suc stats.claims_unchanged }), db)
      else store_claim row stats db

abbrev pub semantic_edge_kinds : List Text
semantic_edge_kinds = codes "uses" ∷ codes "about" ∷ codes "claims" ∷ []

-- A claim with its note: the front matter, the path, the time and the anchors of the body.
pub record GraphJob : Type 0 where
  pub front : FrontMatter
  pub body : Text
  pub path : Text
  pub valid_from : ℕ
  pub anchors : List Anchor

abbrev pub said_edges : Text → Text → Option Text → Db → Db
said_edges doc claim_id none db = db
said_edges doc claim_id (some speaker) db = edge_to owner_speaker_node (codes "said") claim_id (
    edge_to owner_speaker_node (codes "said") doc
      (node_of owner_speaker_node (codes "person") (codes "owner") none db))

abbrev pub one_if : Bool → ℕ
one_if true = 1
one_if false = 0

abbrev pub said_count : Option Text → ℕ
said_count none = 0
said_count (some speaker) = 2

module _ (table : CharTable) where
  -- The loop of `_write_slugs`: how many are written, and the tables.
  unfoldable pub slug_writes : Text → Text → Text → List Text → List Text → Db → ℕ × Db
  slug_writes doc kind node_kind seen [] db = (0, db)
  slug_writes doc kind node_kind seen (raw ∷ items) db =
      let item = strip raw in
      let slug = slugify table item in
      let skipped = slug_writes doc kind node_kind seen items db in
      let id = node_kind ++ b':' ∷ slug in
      let (written, after) =
        slug_writes doc kind node_kind (slug ∷ seen) items
          (edge_to doc kind id (node_of id node_kind item none db)) in
      if is_empty item || has_han item
      then skipped
      else if is_empty slug || is_member slug seen
      then skipped
      else (suc written, after)

  unfoldable pub write_slugs : Text → Text → Text → List Text → Db → ℕ × Db
  write_slugs doc kind node_kind items db =
      slug_writes doc kind node_kind [] (take project_cap items) db

  unfoldable pub upsert_claim_node : Text → Text → Slot → Claim → Db → ℕ × Db
  upsert_claim_node project path (subject, predicate) claim db =
      let kind = claim_kind table claim.kind claim.value in
      let slot : Slot = (subject, predicate) in
      let claim_id = claim_id_of slot in
      let typed_id = typed_id_of kind slot in
      let doc = doc_node_id path in
      let is_typed = not (text_eq kind (codes "fact")) in
      let named =
        node_of claim_id (codes "claim") (predicate ++ (codes ": " ++ claim.value)) (some kind)
          db in
      let typed =
        when is_typed
          (λ db. edge_to claim_id (codes "is_a") typed_id (
            node_of typed_id kind (subject ++ (codes " — " ++ claim.value))
              (some (confidence_of claim.confidence)) db))
          named in
      let claimed = edge_to doc (codes "claims") claim_id typed in
      let placed =
        when (is_project project)
          (edge_to claim_id (codes "claim_of_project") (codes "project:" ++ project)) claimed in
      (
        1 + one_if is_typed + one_if (is_project project) + said_count claim.said_by,
        said_edges doc claim_id claim.said_by placed,
      )

  unfoldable pub row_of : GraphJob → Slot → Claim → StoredClaim
  row_of job (subject, predicate) claim =
      let value = strip claim.value in
      record {
        subject = subject;
        predicate = predicate;
        value = value;
        source_path = job.path;
        valid_from = job.valid_from;
        kind = claim_kind table claim.kind value;
        confidence = confidence_of claim.confidence;
        anchor = anchor_text (anchor_for_claim table job.anchors subject value);
        said_by = none;
        superseded_at = none;
      }

  abbrev pub note_anchors : Text → Text → List Anchor
  note_anchors project body = if is_empty project then [] else from_note_body table project body

  module _ (deps : Embedding) where
    unfoldable pub add_claim_node : GraphJob → Slot → Claim → Stats → Action Stats
    add_claim_node job slot claim stats db =
        let (written, after) = upsert_claim_node job.front.project job.path slot claim db in
        (ok (add_edges stats written), after)

    unfoldable pub upsert_claim_at : GraphJob → Claim → Option Slot → Stats → Action Stats
    upsert_claim_at job claim none stats = pure stats
    upsert_claim_at job claim (some slot) stats = do
      stored ← keep_or_store deps (row_of job slot claim) stats
      execute (mirror_said_by slot job.path claim.said_by)
      add_claim_node job slot claim stored

    unfoldable pub upsert_claim : GraphJob → Claim → Stats → Action Stats
    upsert_claim job claim stats = upsert_claim_at job claim (claim_written table claim) stats

    unfoldable pub upsert_claims : GraphJob → List Claim → Stats → Action Stats
    upsert_claims job [] stats = pure stats
    upsert_claims job (claim ∷ claims) stats =
        upsert_claim job claim stats >>= λ after. upsert_claims job claims after

    unfoldable pub extract_graph : GraphJob → Stats → Action Stats
    extract_graph job stats db =
        let doc = doc_node_id job.path in
        let (tools, with_tools) =
          write_slugs doc (codes "uses") (codes "tool") job.front.tools
            (delete_edges doc semantic_edge_kinds db) in
        let (concepts, with_concepts) =
          write_slugs doc (codes "about") (codes "concept") job.front.concepts with_tools in
        upsert_claims (record job { anchors = note_anchors job.front.project job.body })
          job.front.claims
          (record stats {
            tools = stats.tools + tools;
            concepts = stats.concepts + concepts;
            edges = stats.edges + tools + concepts;
          })
          with_concepts
