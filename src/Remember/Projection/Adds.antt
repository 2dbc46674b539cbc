-- ===== src/Remember/Projection/Adds.antt =====
-- Which edges the parts of the projection in src/ohmyboring/remember/writer.py add.
use ohmyboring.Prelude.{
  Bool, true, false, not, ◌&&◌, ◌||◌, Option, none, List, [], ◌∷◌, ◌++◌, ◌≡◌, refl, sym, ap, ◌∙◌,
  inl, inr, arith, Text, codes, is_empty, text_eq, Bool-cases, take,
}
use ohmyboring.Prelude.Decimal.{strip}
use ohmyboring.Remember.Note.{CharTable}
use ohmyboring.Remember.Tokens.{is_member}
use ohmyboring.Remember.Graph.{
  Edge, fan, has_han, slugify, slug_loop, capped_slugs, project_cap, edges_if,
}
use ohmyboring.Remember.Tables.{Db, has_row, edge_eq}
use ohmyboring.Remember.Tables.Edges.{
  has_edge, any-append, has_row-upsert_edge, has_row-upsert_node,
}
use ohmyboring.Remember.Projection.{write_tags, slug_writes, write_slugs, edge_to, node_of, when}

abbrev pub has : Edge → Db → Bool
has e db = has_row e db.edges

module _ (e : Edge) where
  pub has-edge_to :
      (src kind dst : Text) (db : Db)
      → has e (edge_to src kind dst db)
        ≡ edge_eq e (record { src = src; kind = kind; dst = dst }) || has e db
  has-edge_to src kind dst db = has_row-upsert_edge e _ none db

  pub has-node_edge :
      (src kind dst id node_kind label : Text) (outcome : Option Text) (db : Db)
      → has e (edge_to src kind dst (node_of id node_kind label outcome db))
        ≡ edge_eq e (record { src = src; kind = kind; dst = dst }) || has e db
  has-node_edge src kind dst id node_kind label outcome db =
      has-edge_to src kind dst (node_of id node_kind label outcome db)
      ∙ ap (λ b. edge_eq e (record { src = src; kind = kind; dst = dst }) || b)
          (has_row-upsert_node e _ db)

  or_last : (x y : Bool) → x || y ≡ y || (x || false)
  or_last x y = ground arith

  pub has-when :
      (test : Bool) (f : Db → Db) (edge : Edge) (db : Db)
      → has e (f db) ≡ edge_eq e edge || has e db
      → has e (when test f db) ≡ has_edge e (edges_if test (edge ∷ [])) || has e db
  has-when true f edge db h = ground (arith, h)
  has-when false f edge db h = refl

  -- What the first of several steps adds may be counted with the rest.
  joined :
      (edge db mid after out longer loop : Bool)
      → mid ≡ edge || db
      → longer ≡ edge || out
      → (mid ≡ true → after ≡ true)
      → (longer ≡ true → loop ≡ true)
      → after || longer ≡ mid || loop
      → after || out ≡ db || loop
  joined edge db mid after out longer loop step snoc kept looped rest = elim (Bool-cases edge) [
    | inl added ↦
        let a = kept (step ∙ rw added refl) in
        let l = looped (snoc ∙ rw added refl) in ground (arith, a, l)
    | inr other ↦ ground (arith, other, step, snoc, rest)
  ]

  swap : (x y z : Bool) → x || (y || z) ≡ (y || x) || z
  swap x y z = ground arith

  pub has-write_tags :
      (doc : Text) (tags : List Text) (db : Db)
      → has e (write_tags doc tags db)
        ≡ has_edge e (fan doc (codes "tagged") (codes "topic:") tags) || has e db
  unfolding write_tags
  has-write_tags doc [] db = refl
  has-write_tags doc (tag ∷ tags) db =
      has-write_tags doc tags _
      ∙ ap (λ b. has_edge e (fan doc (codes "tagged") (codes "topic:") tags) || b)
          (has-node_edge doc (codes "tagged") (codes "topic:" ++ tag) (codes "topic:" ++ tag)
            (codes "topic") tag none db)
      ∙ swap (has_edge e (fan doc (codes "tagged") (codes "topic:") tags))
          (edge_eq e (record { src = doc; kind = codes "tagged"; dst = codes "topic:" ++ tag }))
          (has e db)

  module _ (doc kind prefix : Text) where
    abbrev fanned : List Text → Bool
    fanned slugs = has_edge e (fan doc kind prefix slugs)

    abbrev is_edge_to : Text → Bool
    is_edge_to slug = edge_eq e (record { src = doc; kind = kind; dst = prefix ++ slug })

    fanned-snoc :
        (slugs : List Text) (t : Text) → fanned (slugs ++ t ∷ []) ≡ is_edge_to t || fanned slugs
    fanned-snoc [] t = refl
    fanned-snoc (s ∷ slugs) t = ground (arith, fanned-snoc slugs t)

    module _ (table : CharTable) (node_kind : Text)
        (named : (slug : Text) → node_kind ++ b':' ∷ slug ≡ prefix ++ slug) where
      has-slug_edge :
          (slug label : Text) (db : Db)
          → has e (
              edge_to doc kind
                (node_kind ++ b':' ∷ slug)
                (node_of (node_kind ++ b':' ∷ slug) node_kind label none db))
            ≡ is_edge_to slug || has e db
      has-slug_edge slug label db =
          has-node_edge doc kind (node_kind ++ b':' ∷ slug) (node_kind ++ b':' ∷ slug) node_kind
            label none db
          ∙ ap (λ id. edge_eq e (record { src = doc; kind = kind; dst = id }) || has e db)
              (named slug)

      has-slug_writes_keeps :
          (items seen : List Text) (db : Db)
          → has e db ≡ true
          → has e (slug_writes table doc kind node_kind seen items db).1 ≡ true
      unfolding slug_writes
      has-slug_writes_keeps [] seen db known = known
      has-slug_writes_keeps (raw ∷ items) seen db known =
          let item = strip raw in
          let slug = slugify table item in
          let id = node_kind ++ b':' ∷ slug in
          let after = edge_to doc kind id (node_of id node_kind item none db) in
          let skip = has-slug_writes_keeps items seen db known in
          let add =
            has-slug_writes_keeps items (slug ∷ seen) after
              (has-slug_edge slug item db ∙ ground (arith, known)) in
          elim (Bool-cases (is_empty item || has_han item)) [
            | inl skips ↦ rw skips skip
            | inr goes ↦ rw goes (elim (Bool-cases (is_empty slug || is_member slug seen)) [
              | inl skips ↦ rw skips skip
              | inr fresh ↦ rw fresh add
            ])
          ]

      fanned-slug_loop_keeps :
          (items out : List Text) → fanned out ≡ true → fanned (slug_loop table out items) ≡ true
      unfolding slug_loop
      fanned-slug_loop_keeps [] out known = known
      fanned-slug_loop_keeps (raw ∷ items) out known =
          let item = strip raw in
          let slug = slugify table item in
          let skip = fanned-slug_loop_keeps items out known in
          let add =
            fanned-slug_loop_keeps items (out ++ slug ∷ [])
              (fanned-snoc out slug ∙ ground (arith, known)) in
          elim (Bool-cases (is_empty item || has_han item)) [
            | inl skips ↦ rw skips skip
            | inr goes ↦
                rw goes (elim (Bool-cases (not (is_empty slug) && not (is_member slug out))) [
                  | inl fresh ↦ rw fresh add
                  | inr skips ↦ rw skips skip
                ])
          ]

      -- `seen` of the writer and `out` of the checker have the same members.
      has-slug_writes :
          (items seen out : List Text) (db : Db)
          → ((x : Text) → is_member x seen ≡ is_member x out)
          → has e (slug_writes table doc kind node_kind seen items db).1 || fanned out
            ≡ has e db || fanned (slug_loop table out items)
      unfolding slug_writes slug_loop
      has-slug_writes [] seen out db same = refl
      has-slug_writes (raw ∷ items) seen out db same =
          let item = strip raw in
          let slug = slugify table item in
          let id = node_kind ++ b':' ∷ slug in
          let after = edge_to doc kind id (node_of id node_kind item none db) in
          let skip = has-slug_writes items seen out db same in
          let step = has-slug_edge slug item db in
          let snoc = fanned-snoc out slug in
          let kept = has-slug_writes_keeps items (slug ∷ seen) after in
          let looped = fanned-slug_loop_keeps items (out ++ slug ∷ []) in
          let add = has-slug_writes items (slug ∷ seen) (out ++ slug ∷ []) after (λ x.
            ap (λ b. text_eq x slug || b) (same x)
            ∙ or_last (text_eq x slug) (is_member x out)
            ∙ sym (any-append (text_eq x) out (slug ∷ []))) in
          elim (Bool-cases (is_empty item || has_han item)) [
            | inl skips ↦ rw skips skip
            | inr goes ↦ rw goes (elim (Bool-cases (is_empty slug)) [
              | inl bare ↦ rw bare skip
              | inr some_slug ↦ rw some_slug (elim (Bool-cases (is_member slug out)) [
                | inl known ↦ rw known (rw (same slug ∙ known) skip)
                | inr fresh ↦ rw fresh (
                    rw (same slug ∙ fresh) (
                      joined (is_edge_to slug) (has e db) (has e after) _ (fanned out)
                        (fanned (out ++ slug ∷ [])) _ step snoc kept looped add))
              ])
            ])
          ]

      pub has-write_slugs :
          (items : List Text) (db : Db)
          → has e (write_slugs table doc kind node_kind items db).1
            ≡ fanned (capped_slugs table items) || has e db
      unfolding write_slugs capped_slugs
      has-write_slugs items db =
          ground (arith, has-slug_writes (take project_cap items) [] [] db (λ x. refl))
