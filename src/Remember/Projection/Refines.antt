-- ===== src/Remember/Projection/Refines.antt =====
-- The edges that a note leaves in the tables are those of src/ohmyboring/remember/graph.py: the run of
-- `_upsert_claims` and `_extract_graph` in src/ohmyboring/remember/writer.py.
use ohmyboring.Prelude.{
  ℕ, suc, true, ◌||◌, Option, none, some, List, [], ◌∷◌, ◌++◌, ◌≡◌, refl, ap, ◌∙◌, inl, inr, arith,
  ◌==◌, Text, codes, text_eq, Bool-cases, All,
}
use ohmyboring.Result.{ok}
use ohmyboring.Remember.Note.{CharTable, Claim}
use ohmyboring.Remember.Graph.{
  Edge, Slot, slot_edges, claim_edges, claims_edges, claim_written, is_owner_said, edges_of_slot,
  doc_node_id,
}
use ohmyboring.Remember.Tables.{Db, StoredClaim, has_row, edge_eq}
use ohmyboring.Remember.Tables.Edges.{has_edge, any-append}
use ohmyboring.Remember.Claims.{
  claim_unchanged, upsert_claim_row, mirror_said_by, fact_seal, fact_unseal, item_seal, item_unseal,
}
use ohmyboring.Remember.Projection.{
  Embedding, Stats, GraphJob, store_claim, keep_or_store, seal_slot, row_of, upsert_claim_at,
  upsert_claim, upsert_claims, embed_text, checked_vector, add_claim_node, add_edges,
  upsert_claim_node,
}
use ohmyboring.Remember.Action.{Action, bind-runs}
use ohmyboring.Remember.Projection.Documents.{documents-seal_slot, documents-upsert_claim_node}
use ohmyboring.Remember.Projection.Adds.{has}
use ohmyboring.Remember.Projection.ClaimEdges.{is_none, has-upsert_claim_node}

abbrev pub IsOwnClaim : Claim → Type 0
IsOwnClaim claim = is_none claim.said_by || is_owner_said claim.said_by ≡ true

edges-seal_slot :
    (kind : Text) (slot : Slot) (path : Text) (db : Db)
    → (seal_slot kind slot path db).edges ≡ db.edges
unfolding seal_slot fact_seal fact_unseal item_seal item_unseal
edges-seal_slot kind slot path db = elim (Bool-cases (text_eq kind (codes "fact"))) [
  | inl fact ↦ rw fact refl
  | inr item ↦ rw item refl
]

edges-upsert_claim_row : (row : StoredClaim) (db : Db) → (upsert_claim_row row db).edges ≡ db.edges
unfolding upsert_claim_row
edges-upsert_claim_row row db = refl

documents-upsert_claim_row :
    (row : StoredClaim) (db : Db) → (upsert_claim_row row db).documents ≡ db.documents
unfolding upsert_claim_row
documents-upsert_claim_row row db = refl

documents-mirror_said_by :
    (slot : Slot) (path : Text) (said_by : Option Text) (db : Db)
    → (mirror_said_by slot path said_by db).documents ≡ db.documents
unfolding mirror_said_by
documents-mirror_said_by slot path said_by db = refl

edges-mirror_said_by :
    (slot : Slot) (path : Text) (said_by : Option Text) (db : Db)
    → (mirror_said_by slot path said_by db).edges ≡ db.edges
unfolding mirror_said_by
edges-mirror_said_by slot path said_by db = refl

module _ (deps : Embedding) where
  pub embed_text-runs :
      (dim : ℕ)
      → ((t : Text) → deps.embed t ≡ ok dim)
      → (text : Text) (db : Db) → embed_text deps text db ≡ (ok dim, db)
  unfolding embed_text
  embed_text-runs dim embeds text db = rw (embeds text, embed_text) refl

  pub checked_vector-runs : (db : Db) → checked_vector deps deps.embed_dim db ≡ (ok tt, db)
  unfolding checked_vector
  checked_vector-runs db =
      let same : (deps.embed_dim == deps.embed_dim) ≡ true = ground arith in rw same refl

module _ (deps : Embedding) (embeds : (t : Text) → deps.embed t ≡ ok deps.embed_dim) where
  store_claim-runs :
      (row : StoredClaim) (stats : Stats) (db : Db)
      → store_claim deps row stats db ≡ (
        ok (record stats { claims = suc stats.claims }),
        seal_slot row.kind (row.subject, row.predicate) row.source_path (upsert_claim_row row db),
      )
  unfolding store_claim
  store_claim-runs row stats db =
      let text = row.subject ++ b' ' ∷ (row.predicate ++ b' ' ∷ row.value) in
      bind-runs (embed_text deps text) _ db deps.embed_dim db
        (embed_text-runs deps deps.embed_dim embeds text db)
      ∙ bind-runs (checked_vector deps deps.embed_dim) _ db tt db (checked_vector-runs deps db)

  -- The claim's row is stored or kept, and no edge is touched.
  keep_or_store-runs :
      (row : StoredClaim) (stats : Stats) (db : Db)
      → (after : Stats) × (d : Db) × (keep_or_store deps row stats db ≡ (ok after, d))
        × (d.edges ≡ db.edges)
        × (d.documents ≡ db.documents)
  unfolding keep_or_store
  keep_or_store-runs row stats db = elim (Bool-cases (claim_unchanged row db)) [
    | inl same ↦ (
      record stats { claims_unchanged = suc stats.claims_unchanged },
      db,
      rw same refl,
      refl,
      refl,
    )
    | inr changed ↦ (
      record stats { claims = suc stats.claims },
      seal_slot row.kind (row.subject, row.predicate) row.source_path (upsert_claim_row row db),
      rw changed (store_claim-runs row stats db),
      edges-seal_slot row.kind (row.subject, row.predicate) row.source_path
            (upsert_claim_row row db)
          ∙ edges-upsert_claim_row row db,
      documents-seal_slot row.kind (row.subject, row.predicate) row.source_path
            (upsert_claim_row row db)
          ∙ documents-upsert_claim_row row db,
    )
  ]

  module _ (table : CharTable) (job : GraphJob) where
    -- The run does not fail, and adds these edges.
    abbrev pub Adds : Action Stats → Db → List Edge → Type 0
    Adds run db edges =
        (after : Stats) × (d : Db) × (run db ≡ (ok after, d))
        × (d.documents ≡ db.documents)
        × ((e : Edge) → has e d ≡ has_edge e edges || has e db)

    upsert_claim_at-runs :
        (claim : Claim) (slot : Option Slot) (stats : Stats) (db : Db)
        → IsOwnClaim claim
        → Adds
            (upsert_claim_at table deps job claim slot stats)
            db
            (edges_of_slot table claim (doc_node_id job.path) job.front.project slot)
    unfolding upsert_claim_at add_claim_node
    upsert_claim_at-runs claim none stats db own = (stats, db, refl, refl, λ e. refl)
    upsert_claim_at-runs claim (some slot) stats db own =
        let (after, d, ran, edges, docs) =
          keep_or_store-runs (row_of table job slot claim) stats db in
        let mirrored = mirror_said_by slot job.path claim.said_by d in
        let (written, d') =
          upsert_claim_node table job.front.project job.path slot claim mirrored in
        (
          add_edges after written,
          d',
          bind-runs (keep_or_store deps (row_of table job slot claim) stats) _ db after d ran,
          documents-upsert_claim_node table job.front.project job.path slot claim mirrored
              ∙ documents-mirror_said_by slot job.path claim.said_by d
              ∙ docs,
          λ e.
              has-upsert_claim_node e table job.front.project job.path slot claim mirrored own
              ∙ ap
                  (λ rows.
                    has_edge e
                      (slot_edges table claim (doc_node_id job.path) job.front.project slot)
                    || has_row e rows)
                  (edges-mirror_said_by slot job.path claim.said_by d ∙ edges),
        )

    pub upsert_claims-runs :
        (claims : List Claim) (stats : Stats) (db : Db)
        → All IsOwnClaim claims
        → Adds
            (upsert_claims table deps job claims stats)
            db
            (claims_edges table (doc_node_id job.path) job.front.project claims)
    unfolding upsert_claims upsert_claim claims_edges claim_edges
    upsert_claims-runs [] stats db own = (stats, db, refl, refl, λ e. refl)
    upsert_claims-runs (claim ∷ claims) stats db (own, owns) =
        let (mid, d, ran, docs, edges) =
          upsert_claim_at-runs claim (claim_written table claim) stats db own in
        let (after, d', runs, later, rest) = upsert_claims-runs claims mid d owns in
        (
          after,
          d',
          bind-runs (upsert_claim table deps job claim stats)
                (λ after. upsert_claims table deps job claims after) db mid d ran
              ∙ runs,
          later ∙ docs,
          λ e.
              rest e
              ∙ ground (
                arith,
                edges e,
                any-append (edge_eq e)
                    (claim_edges table claim (doc_node_id job.path) job.front.project)
                    (claims_edges table (doc_node_id job.path) job.front.project claims),
              ),
        )
