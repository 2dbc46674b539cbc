-- ===== src/Remember/Store/Links.antt =====
-- Which edges `_record_supersedes` of src/ohmyboring/remember/writer.py adds.
use ohmyboring.Prelude.{
  ℕ, Bool, true, false, not, ◌&&◌, ◌||◌, Option, List, [], ◌∷◌, ◌≡◌, refl, ap, ◌∙◌, inl, inr, arith,
  if◌then◌else◌, filter, Text, codes, text_eq, Bool-cases,
}
use ohmyboring.Remember.Graph.{Edge, fan, doc_node_id}
use ohmyboring.Remember.Tables.{Db, edge_eq, get_doc_sha, upsert_edge}
use ohmyboring.Remember.Tables.Edges.{has_edge, has_row-upsert_edge}
use ohmyboring.Remember.Claims.{partial_seal}
use ohmyboring.Remember.Projection.Adds.{has}
use ohmyboring.Remember.Store.{
  Linked, nothing_linked, is_document, link, record_supersede, record_loop, record_supersedes,
}

documents-link :
    (now : ℕ) (new old : Text) (judge : Option Text) (db : Db)
    → (link now new old judge db).documents ≡ db.documents
unfolding link partial_seal upsert_edge
documents-link now new old judge db = refl

pub is_document-same :
    (path : Text) (d db : Db)
    → d.documents ≡ db.documents
    → is_document path d ≡ is_document path db
unfolding get_doc_sha
is_document-same path d db same = rw same refl

-- Whether a target is linked: another note than the new one, and in the tables.
abbrev pub is_linked : Text → Db → Text → Bool
is_linked new db old = not (text_eq old new) && is_document old db

module _ (now : ℕ) (new : Text) (judge : Option Text) where
  abbrev superseded_edge : Text → Edge
  superseded_edge old = record {
    src = doc_node_id new;
    kind = codes "supersedes";
    dst = doc_node_id old;
  }

  has-link :
      (e : Edge) (old : Text) (db : Db)
      → has e (link now new old judge db) ≡ edge_eq e (superseded_edge old) || has e db
  unfolding link partial_seal
  has-link e old db = has_row-upsert_edge e (superseded_edge old) judge db

  -- What one target does to the documents and to the edges.
  record_supersede-step :
      (old : Text) (l : Linked) (db : Db)
      → is_document new db ≡ true
      → ((record_supersede now new judge old l db).1.documents ≡ db.documents)
        × ((e : Edge)
            → has e (record_supersede now new judge old l db).1 ≡ (
                if is_linked new db old
                then edge_eq e (superseded_edge old) || has e db
                else has e db))
  unfolding record_supersede
  record_supersede-step old l db known = elim (Bool-cases (text_eq old new)) [
    | inl same ↦ rw same (refl, λ e. refl)
    | inr differs ↦
        rw (differs, known)
          (elim (Bool-cases (is_document old db)) [
            | inl there ↦ rw there (documents-link now new old judge db, λ e. has-link e old db)
            | inr absent ↦ rw absent (refl, λ e. refl)
          ])
  ]

  -- `known` says which paths the tables have throughout.
  record_loop-edges :
      (known : Text → Bool) (targets : List Text) (l : Linked) (db : Db)
      → ((path : Text) → is_document path db ≡ known path)
      → known new ≡ true
      → (e : Edge)
      → has e (record_loop now new judge targets l db).1
        ≡ has_edge e (
            fan
              (doc_node_id new)
              (codes "supersedes")
              (codes "doc:")
              (filter (λ old. not (text_eq old new) && known old) targets))
          || has e db
  unfolding record_loop
  record_loop-edges known [] l db knows here e = refl
  record_loop-edges known (old ∷ targets) l db knows here e =
      let after = record_supersede now new judge old l db in
      let (same, step) = record_supersede-step old l db (knows new ∙ here) in
      let rest =
        record_loop-edges known targets after.0 after.1
          (λ path. is_document-same path after.1 db same ∙ knows path) here e in
      let stepped = step e in
      let seen = knows old in
      elim (Bool-cases (not (text_eq old new) && known old)) [
        | inl linked ↦
            let on : is_linked new db old ≡ true =
              ap (λ b. not (text_eq old new) && b) seen ∙ linked in
            rw linked (rest ∙ ground (arith, stepped, on))
        | inr skipped ↦
            let off : is_linked new db old ≡ false =
              ap (λ b. not (text_eq old new) && b) seen ∙ skipped in
            rw skipped (rest ∙ ground (arith, stepped, off))
      ]

  -- Where the new note is in the tables, recording its targets adds the edges that graph.py expects
  -- to those targets that are in the tables and are not the new note, and no other edge.
  pub record_supersedes-edges :
      (targets : List Text) (db : Db)
      → is_document new db ≡ true
      → (e : Edge)
      → has e (record_supersedes now new targets judge db).1
        ≡ has_edge e (
            fan
              (doc_node_id new)
              (codes "supersedes")
              (codes "doc:")
              (filter (is_linked new db) targets))
          || has e db
  unfolding record_supersedes
  record_supersedes-edges targets db here e =
      record_loop-edges (λ path. is_document path db) targets nothing_linked db (λ path. refl) here
        e
