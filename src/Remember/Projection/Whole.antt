-- ===== src/Remember/Projection/Whole.antt =====
-- What `_upsert_document` and then `_extract_graph` of src/ohmyboring/remember/writer.py make of the
-- edges.
use ohmyboring.Prelude.{
  ℕ, ◌+◌, Bool, true, false, not, ◌&&◌, ◌||◌, none, List, [], ◌∷◌, ◌++◌, ◌≡◌, refl, sym, ap, ◌∙◌,
  inl, inr, arith, any, Text, codes, text_eq, Bool-cases, All,
}
use ohmyboring.Result.{ok}
use ohmyboring.Remember.Note.{CharTable, FrontMatter}
use ohmyboring.Remember.Tokens.{is_member}
use ohmyboring.Remember.Graph.{
  Edge, fan, edges_if, is_project, capped_slugs, claims_edges, expected_edges, doc_node_id,
}
use ohmyboring.Remember.Tables.{Db, has_row, edge_eq, upsert_document, delete_edges}
use ohmyboring.Remember.Tables.Edges.{has_edge, any-append, has_row-delete_edges, edge_eq-parts}
use ohmyboring.Remember.Projection.{
  Embedding, Stats, edge_to, node_of, GraphJob, write_document, write_slugs, extract_graph,
  semantic_edge_kinds, note_anchors,
}
use ohmyboring.Remember.Projection.Adds.{
  has, has-write_tags, has-write_slugs, has-when, has-node_edge,
}
use ohmyboring.Remember.Projection.Documents.{documents-write_slugs}
use ohmyboring.Remember.Projection.Refines.{IsOwnClaim, upsert_claims-runs}

abbrev rewritten_kinds : List Text
rewritten_kinds = codes "tagged" ∷ semantic_edge_kinds

-- The kinds of edge that a note's projection writes again from nothing.
abbrev pub is_rewritten : Text → Edge → Bool
is_rewritten path e = text_eq e.src (doc_node_id path) && is_member e.kind rewritten_kinds

abbrev pub project_edge : FrontMatter → Text → List Edge
project_edge front path =
    record {
      src = doc_node_id path;
      kind = codes "in_project";
      dst = codes "project:" ++ front.project;
    }
    ∷ []

abbrev pub tagged : FrontMatter → Text → List Edge
tagged front path = fan (doc_node_id path) (codes "tagged") (codes "topic:") front.tags

module _ (e : Edge) where
  fan-kind :
      (doc kind prefix : Text) (ts : List Text)
      → has_edge e (fan doc kind prefix ts) ≡ true
      → e.kind ≡ kind
  fan-kind doc kind prefix [] h = ground (arith, h)
  fan-kind doc kind prefix (t ∷ ts) h =
      elim (Bool-cases (edge_eq e (record { src = doc; kind = kind; dst = prefix ++ t }))) [
        | inl same ↦ (edge_eq-parts e _ same).2
        | inr other ↦ fan-kind doc kind prefix ts (ground (arith, h, other))
      ]

  module _ (front : FrontMatter) (path : Text) where
    abbrev of_note : List Text → Bool
    of_note kinds = text_eq e.src (doc_node_id path) && is_member e.kind kinds

    has-write_document :
        (sha : Text) (mtime : ℕ) (db : Db)
        → has e (write_document front sha mtime path db)
          ≡ has_edge e (tagged front path)
            || ((has_edge e (edges_if (is_project front.project) (project_edge front path))
                  || has e db)
                && not (of_note (codes "tagged" ∷ [])))
    unfolding write_document upsert_document
    has-write_document sha mtime db =
        let project = codes "project:" ++ front.project in
        let write_project = λ (db : Db).
          edge_to (doc_node_id path) (codes "in_project") project
            (node_of project (codes "project") front.project none db) in
        has-write_tags e (doc_node_id path) front.tags _
        ∙ ap (λ b. has_edge e (tagged front path) || b)
            (has_row-delete_edges e (doc_node_id path) (codes "tagged" ∷ []) _
              ∙ ap (λ b. b && not (of_note (codes "tagged" ∷ [])))
                  (has-when e (is_project front.project) write_project _ _ (
                    has-node_edge e (doc_node_id path) (codes "in_project") project project
                      (codes "project") front.project none _)))

    tagged_kept :
        has_edge e (tagged front path) ≡ true → is_member e.kind semantic_edge_kinds ≡ false
    tagged_kept h =
        ap (λ k. is_member k semantic_edge_kinds)
          (fan-kind (doc_node_id path) (codes "tagged") (codes "topic:") front.tags h)

    project_kept :
        has_edge e (edges_if (is_project front.project) (project_edge front path)) ≡ true
        → is_member e.kind rewritten_kinds ≡ false
    project_kept h = elim (Bool-cases (is_project front.project)) [
      | inl placed ↦
          let same : edge_eq e (record {
            src = doc_node_id path;
            kind = codes "in_project";
            dst = codes "project:" ++ front.project;
          })
              ≡ true =
            ground (arith, h, placed) in
          ap (λ k. is_member k rewritten_kinds) (edge_eq-parts e _ same).2
      | inr not_placed ↦ absurd (ground (arith, h, not_placed))
    ]

    -- The edges after the statements, as a Boolean of the edges before.
    settled :
        (before claims concepts tools : Bool)
        → claims
            || (concepts
                || (tools
                    || ((has_edge e (tagged front path)
                          || ((has_edge e
                                  (edges_if (is_project front.project) (project_edge front path))
                                || before)
                              && not (of_note (codes "tagged" ∷ []))))
                        && not (of_note semantic_edge_kinds))))
          ≡ (has_edge e (edges_if (is_project front.project) (project_edge front path))
              || (has_edge e (tagged front path) || (tools || (concepts || (claims || false)))))
            || (before && not (is_rewritten path e))
    settled before claims concepts tools =
        let t = tagged_kept in let p = project_kept in ground (arith, t, p)

module _ (table : CharTable) (deps : Embedding)
    (embeds : (t : Text) → deps.embed t ≡ ok deps.embed_dim) (job : GraphJob) where
  abbrev pub doc : Text
  doc = doc_node_id job.path

  abbrev pub tool_edges : List Edge
  tool_edges = fan doc (codes "uses") (codes "tool:") (capped_slugs table job.front.tools)

  abbrev pub concept_edges : List Edge
  concept_edges = fan doc (codes "about") (codes "concept:") (capped_slugs table job.front.concepts)

  abbrev pub stated_edges : List Edge
  stated_edges = claims_edges table doc job.front.project job.front.claims

  documents-delete_edges :
      (db : Db) → (delete_edges doc semantic_edge_kinds db).documents ≡ db.documents
  unfolding delete_edges
  documents-delete_edges db = refl

  abbrev pub replaced : List Text → List Edge
  replaced supersedes = fan doc (codes "supersedes") (codes "doc:") supersedes

  pub has-expected_edges :
      (e : Edge) (supersedes : List Text)
      → has_edge e (expected_edges table job.front job.path supersedes)
        ≡ has_edge e (edges_if (is_project job.front.project) (project_edge job.front job.path))
          || (has_edge e (tagged job.front job.path)
              || (has_edge e tool_edges
                  || (has_edge e concept_edges
                      || (has_edge e stated_edges || has_edge e (replaced supersedes)))))
  unfolding expected_edges
  has-expected_edges e supersedes =
      let p = edge_eq e in
      let placed = edges_if (is_project job.front.project) (project_edge job.front job.path) in
      let topics = tagged job.front job.path in
      any-append p placed
        (topics ++ (tool_edges ++ (concept_edges ++ (stated_edges ++ replaced supersedes))))
      ∙ ap (λ b. any p placed || b)
          (any-append p topics
              (tool_edges ++ (concept_edges ++ (stated_edges ++ replaced supersedes)))
            ∙ ap (λ b. any p topics || b)
                (any-append p tool_edges (concept_edges ++ (stated_edges ++ replaced supersedes))
                  ∙ ap (λ b. any p tool_edges || b)
                      (any-append p concept_edges (stated_edges ++ replaced supersedes)
                        ∙ ap (λ b. any p concept_edges || b)
                            (any-append p stated_edges (replaced supersedes)))))

  -- The run on tables with the edges that `_upsert_document` leaves.
  pub extract_graph-Refines :
      (sha : Text) (mtime : ℕ) (stats : Stats) (db start : Db)
      → start.edges ≡ (write_document job.front sha mtime job.path db).edges
      → All IsOwnClaim job.front.claims
      → (after : Stats) × (d : Db) × (extract_graph table deps job stats start ≡ (ok after, d))
        × (d.documents ≡ start.documents)
        × ((e : Edge)
            → has e d
              ≡ has_edge e (expected_edges table job.front job.path [])
                || (has e db && not (is_rewritten job.path e)))
  unfolding extract_graph
  extract_graph-Refines sha mtime stats db start same own =
      let front = job.front in
      let cleared = delete_edges doc semantic_edge_kinds start in
      let (tools, with_tools) =
        write_slugs table doc (codes "uses") (codes "tool") front.tools cleared in
      let (concepts, with_concepts) =
        write_slugs table doc (codes "about") (codes "concept") front.concepts with_tools in
      let (after, d, ran, docs, edges) =
        upsert_claims-runs deps embeds table
          (record job { anchors = note_anchors table front.project job.body }) front.claims
          (record stats {
            tools = stats.tools + tools;
            concepts = stats.concepts + concepts;
            edges = stats.edges + tools + concepts;
          })
          with_concepts own in
      (
        after,
        d,
        ran,
        docs
            ∙ documents-write_slugs table doc (codes "about") (codes "concept") front.concepts
                with_tools
            ∙ documents-write_slugs table doc (codes "uses") (codes "tool") front.tools cleared
            ∙ documents-delete_edges start,
        λ e.
            let by_claims = edges e in
            let by_concepts =
              has-write_slugs e doc (codes "about") (codes "concept:") table (codes "concept")
                (λ slug. refl) front.concepts with_tools in
            let by_tools =
              has-write_slugs e doc (codes "uses") (codes "tool:") table (codes "tool")
                (λ slug. refl) front.tools cleared in
            let by_clearing = has_row-delete_edges e doc semantic_edge_kinds start in
            let by_document =
              ap (has_row e) same ∙ has-write_document e front job.path sha mtime db in
            by_claims
            ∙ ap (λ b. has_edge e stated_edges || b)
                (by_concepts
                  ∙ ap (λ b. has_edge e concept_edges || b)
                      (by_tools
                        ∙ ap (λ b. has_edge e tool_edges || b)
                            (by_clearing
                              ∙ ap
                                  (λ b.
                                    b
                                    && not
                                        (text_eq e.src doc && is_member e.kind semantic_edge_kinds))
                                  by_document)))
            ∙ settled e front job.path (has e db) (has_edge e stated_edges)
                (has_edge e concept_edges) (has_edge e tool_edges)
            ∙ ap (λ b. b || (has e db && not (is_rewritten job.path e)))
                (sym (has-expected_edges e [])),
      )

  -- The edges to the notes that are superseded stand beside the others.
  pub has-expected_supersedes :
      (e : Edge) (supersedes : List Text)
      → has_edge e (expected_edges table job.front job.path supersedes)
        ≡ has_edge e (replaced supersedes)
          || has_edge e (expected_edges table job.front job.path [])
  has-expected_supersedes e supersedes =
      let all_edges = has-expected_edges e supersedes in
      let without = has-expected_edges e [] in ground (arith, all_edges, without)
