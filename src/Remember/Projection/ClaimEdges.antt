-- ===== src/Remember/Projection/ClaimEdges.antt =====
-- Which edges `_upsert_claim_node` of src/ohmyboring/remember/writer.py adds.
use ohmyboring.Prelude.{
  Bool, true, false, not, ◌||◌, Option, none, some, List, [], ◌∷◌, ◌++◌, ◌≡◌, refl, ap, ◌∙◌, arith,
  Text, codes, text_eq,
}
use ohmyboring.Remember.Note.{CharTable, Claim}
use ohmyboring.Remember.Graph.{
  Edge, Slot, slot_edges, claim_kind, is_project, doc_node_id, is_owner_said, owner_speaker_node,
  claim_id_of, edges_if, typed_id_of,
}
use ohmyboring.Remember.Tables.{Db, edge_eq}
use ohmyboring.Remember.Tables.Edges.{has_edge, any-append, has_row-upsert_node}
use ohmyboring.Remember.Projection.{
  upsert_claim_node, said_edges, confidence_of, edge_to, node_of, when,
}
use ohmyboring.Remember.Projection.Adds.{has, has-when, has-edge_to, has-node_edge}

abbrev pub is_none : Option Text → Bool
is_none none = true
is_none (some t) = false

abbrev said_of : Text → Edge
said_of dst = record { src = owner_speaker_node; kind = codes "said"; dst = dst }

abbrev said_pair : Text → Text → List Edge
said_pair doc claim_id = said_of doc ∷ said_of claim_id ∷ []

module _ (e : Edge) where
  swapped_pair : (x y z : Bool) → x || (y || z) ≡ (y || (x || false)) || z
  swapped_pair x y z = ground arith

  gathered :
      (result said placed project claimed claims typed is_a named db edges rest : Bool)
      → result ≡ said || placed
      → placed ≡ project || claimed
      → claimed ≡ claims || typed
      → typed ≡ is_a || named
      → named ≡ db
      → edges ≡ is_a || rest
      → rest ≡ project || said
      → result ≡ (claims || edges) || db
  gathered x1 x2 x3 x4 x5 x6 x7 x8 x9 y1 y2 y3 a b c d f g h = ground (arith, a, b, c, d, f, g, h)

  has-said_edges :
      (doc claim_id : Text) (said_by : Option Text) (db : Db)
      → is_none said_by || is_owner_said said_by ≡ true
      → has e (said_edges doc claim_id said_by db)
        ≡ has_edge e (edges_if (is_owner_said said_by) (said_pair doc claim_id)) || has e db
  has-said_edges doc claim_id none db owner = refl
  has-said_edges doc claim_id (some speaker) db owner = rw owner (
      has-edge_to e owner_speaker_node (codes "said") claim_id _
      ∙ ap (λ b. edge_eq e (said_of claim_id) || b)
          (has-node_edge e owner_speaker_node (codes "said") doc owner_speaker_node (codes "person")
            (codes "owner") none db)
      ∙ swapped_pair (edge_eq e (said_of claim_id)) (edge_eq e (said_of doc)) (has e db))

  module _ (table : CharTable) (project path : Text) where
    pub has-upsert_claim_node :
        (slot : Slot) (claim : Claim) (db : Db)
        → is_none claim.said_by || is_owner_said claim.said_by ≡ true
        → has e (upsert_claim_node table project path slot claim db).1
          ≡ has_edge e (slot_edges table claim (doc_node_id path) project slot) || has e db
    unfolding upsert_claim_node slot_edges
    has-upsert_claim_node (subject, predicate) claim db owner =
        let kind = claim_kind table claim.kind claim.value in
        let slot : Slot = (subject, predicate) in
        let claim_id = claim_id_of slot in
        let typed_id = typed_id_of kind slot in
        let doc = doc_node_id path in
        let is_typed = not (text_eq kind (codes "fact")) in
        let project_id = codes "project:" ++ project in
        let named =
          node_of claim_id (codes "claim") (predicate ++ (codes ": " ++ claim.value)) (some kind)
            db in
        let write_typed = λ (db : Db). edge_to claim_id (codes "is_a") typed_id (
          node_of typed_id kind (subject ++ (codes " — " ++ claim.value))
            (some (confidence_of claim.confidence)) db) in
        let claimed = edge_to doc (codes "claims") claim_id (when is_typed write_typed named) in
        let write_project = edge_to claim_id (codes "claim_of_project") project_id in
        let placed = when (is_project project) write_project claimed in
        let is_a : List Edge =
          record { src = claim_id; kind = codes "is_a"; dst = typed_id } ∷ [] in
        let in_project : List Edge =
          record { src = claim_id; kind = codes "claim_of_project"; dst = project_id } ∷ [] in
        let said = edges_if (is_owner_said claim.said_by) (said_pair doc claim_id) in
        let all_said = has-said_edges doc claim_id claim.said_by placed owner in
        let all_placed =
          has-when e (is_project project) write_project _ claimed
            (has-edge_to e claim_id (codes "claim_of_project") project_id claimed) in
        let all_claimed =
          has-edge_to e doc (codes "claims") claim_id (when is_typed write_typed named) in
        let all_typed = has-when e is_typed write_typed _ named (
          has-node_edge e claim_id (codes "is_a") typed_id typed_id kind _
            (some (confidence_of claim.confidence)) named) in
        let all_named : has e named ≡ has e db = has_row-upsert_node e _ db in
        let split =
          any-append (edge_eq e) (edges_if is_typed is_a)
            (edges_if (is_project project) in_project ++ said) in
        let split_rest = any-append (edge_eq e) (edges_if (is_project project) in_project) said in
        gathered _ (has_edge e said) _ (has_edge e (edges_if (is_project project) in_project)) _
          (edge_eq e (record { src = doc; kind = codes "claims"; dst = claim_id })) _
          (has_edge e (edges_if is_typed is_a)) _ _ _ _ all_said all_placed all_claimed all_typed
          all_named split split_rest
