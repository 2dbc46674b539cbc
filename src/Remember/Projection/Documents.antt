-- ===== src/Remember/Projection/Documents.antt =====
-- The parts of the projection in src/ohmyboring/remember/writer.py that leave the documents alone.
use ohmyboring.Prelude.{
  Bool, true, false, not, ◌||◌, Option, none, some, List, [], ◌∷◌, ◌++◌, ◌≡◌, refl, ◌∙◌, inl, inr,
  Text, codes, is_empty, text_eq, Bool-cases, take,
}
use ohmyboring.Prelude.Decimal.{strip}
use ohmyboring.Remember.Note.{CharTable, Claim}
use ohmyboring.Remember.Tokens.{is_member}
use ohmyboring.Remember.Graph.{
  Slot, has_han, slugify, project_cap, claim_kind, is_project, claim_id_of, typed_id_of,
  doc_node_id,
}
use ohmyboring.Remember.Tables.{Db, upsert_node, upsert_edge}
use ohmyboring.Remember.Claims.{fact_seal, fact_unseal, item_seal, item_unseal}
use ohmyboring.Remember.Projection.{
  edge_to, node_of, when, slug_writes, write_slugs, write_tags, said_edges, upsert_claim_node,
  seal_slot, confidence_of,
}

pub documents-node_edge :
    (src kind dst id node_kind label : Text) (outcome : Option Text) (db : Db)
    → (edge_to src kind dst (node_of id node_kind label outcome db)).documents ≡ db.documents
unfolding upsert_edge upsert_node
documents-node_edge src kind dst id node_kind label outcome db = refl

documents-edge_to :
    (src kind dst : Text) (db : Db) → (edge_to src kind dst db).documents ≡ db.documents
unfolding upsert_edge
documents-edge_to src kind dst db = refl

pub documents-when :
    (test : Bool) (f : Db → Db) (db : Db)
    → (f db).documents ≡ db.documents
    → (when test f db).documents ≡ db.documents
documents-when true f db h = h
documents-when false f db h = refl

pub documents-seal_slot :
    (kind : Text) (slot : Slot) (path : Text) (db : Db)
    → (seal_slot kind slot path db).documents ≡ db.documents
unfolding seal_slot fact_seal fact_unseal item_seal item_unseal
documents-seal_slot kind slot path db = elim (Bool-cases (text_eq kind (codes "fact"))) [
  | inl fact ↦ rw fact refl
  | inr item ↦ rw item refl
]

documents-said_edges :
    (doc claim_id : Text) (said_by : Option Text) (db : Db)
    → (said_edges doc claim_id said_by db).documents ≡ db.documents
unfolding upsert_edge upsert_node
documents-said_edges doc claim_id none db = refl
documents-said_edges doc claim_id (some speaker) db = refl

pub documents-write_tags :
    (doc : Text) (tags : List Text) (db : Db) → (write_tags doc tags db).documents ≡ db.documents
unfolding write_tags
documents-write_tags doc [] db = refl
documents-write_tags doc (tag ∷ tags) db =
    documents-write_tags doc tags _
    ∙ documents-node_edge doc (codes "tagged") (codes "topic:" ++ tag) (codes "topic:" ++ tag)
        (codes "topic") tag none db

module _ (table : CharTable) where
  documents-slug_writes :
      (doc kind node_kind : Text) (items seen : List Text) (db : Db)
      → (slug_writes table doc kind node_kind seen items db).1.documents ≡ db.documents
  unfolding slug_writes
  documents-slug_writes doc kind node_kind [] seen db = refl
  documents-slug_writes doc kind node_kind (raw ∷ items) seen db =
      let item = strip raw in
      let slug = slugify table item in
      let id = node_kind ++ b':' ∷ slug in
      let after = edge_to doc kind id (node_of id node_kind item none db) in
      let skip = documents-slug_writes doc kind node_kind items seen db in
      let add =
        documents-slug_writes doc kind node_kind items (slug ∷ seen) after
        ∙ documents-node_edge doc kind id id node_kind item none db in
      elim (Bool-cases (is_empty item || has_han item)) [
        | inl skips ↦ rw skips skip
        | inr goes ↦ rw goes (elim (Bool-cases (is_empty slug || is_member slug seen)) [
          | inl skips ↦ rw skips skip
          | inr fresh ↦ rw fresh add
        ])
      ]

  pub documents-write_slugs :
      (doc kind node_kind : Text) (items : List Text) (db : Db)
      → (write_slugs table doc kind node_kind items db).1.documents ≡ db.documents
  unfolding write_slugs
  documents-write_slugs doc kind node_kind items db =
      documents-slug_writes doc kind node_kind (take project_cap items) [] db

  pub documents-upsert_claim_node :
      (project path : Text) (slot : Slot) (claim : Claim) (db : Db)
      → (upsert_claim_node table project path slot claim db).1.documents ≡ db.documents
  unfolding upsert_claim_node upsert_node
  documents-upsert_claim_node project path (subject, predicate) claim db =
      let kind = claim_kind table claim.kind claim.value in
      let slot : Slot = (subject, predicate) in
      let claim_id = claim_id_of slot in
      let typed_id = typed_id_of kind slot in
      let doc = doc_node_id path in
      let is_typed = not (text_eq kind (codes "fact")) in
      let label = subject ++ (codes " — " ++ claim.value) in
      let confidence = some (confidence_of claim.confidence) in
      let named =
        node_of claim_id (codes "claim") (predicate ++ (codes ": " ++ claim.value)) (some kind)
          db in
      let write_typed = λ (db : Db).
        edge_to claim_id (codes "is_a") typed_id (node_of typed_id kind label confidence db) in
      let claimed = edge_to doc (codes "claims") claim_id (when is_typed write_typed named) in
      let write_project =
        edge_to claim_id (codes "claim_of_project") (codes "project:" ++ project) in
      let placed = when (is_project project) write_project claimed in
      documents-said_edges doc claim_id claim.said_by placed
      ∙ documents-when (is_project project) write_project claimed (
          documents-edge_to claim_id (codes "claim_of_project") (codes "project:" ++ project)
            claimed)
      ∙ documents-edge_to doc (codes "claims") claim_id (when is_typed write_typed named)
      ∙ documents-when is_typed write_typed named (
          documents-node_edge claim_id (codes "is_a") typed_id typed_id kind label confidence named)
