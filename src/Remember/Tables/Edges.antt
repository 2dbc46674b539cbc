-- ===== src/Remember/Tables/Edges.antt =====
-- Which edges are there after a statement of src/ohmyboring/remember/writer.py.
use mathlib.Core.Path.{ap₂}
use ohmyboring.Prelude.{
  Bool, true, false, not, ◌&&◌, ◌||◌, Option, List, [], ◌∷◌, ◌++◌, ◌≡◌, refl, sym, ap, ◌∙◌, inl,
  inr, arith, any, filter, Text, text_eq, text_eq→eq, text_eq_refl, Bool-cases,
}
use ohmyboring.Remember.Tokens.{is_member}
use ohmyboring.Remember.Graph.{Edge}
use ohmyboring.Remember.Tables.{
  Db, EdgeRow, NodeRow, edge_eq, has_row, upsert_edge, upsert_node, delete_edges, is_edge_of,
}

abbrev pub has_edge : Edge → List Edge → Bool
has_edge e edges = any (edge_eq e) edges

pub any-append {ℓ} :
    {A : Type ℓ} (p : A → Bool) (xs ys : List A) → any p (xs ++ ys) ≡ any p xs || any p ys
any-append p [] ys = refl
any-append p (x ∷ xs) ys = ground (arith, any-append p xs ys)

pub edge_eq-parts :
    (e f : Edge) → edge_eq e f ≡ true → (e.src ≡ f.src) × (e.dst ≡ f.dst) × (e.kind ≡ f.kind)
edge_eq-parts e f h = (
  text_eq→eq e.src f.src (ground (arith, h)),
  text_eq→eq e.dst f.dst (ground (arith, h)),
  text_eq→eq e.kind f.kind (ground (arith, h)),
)

edge_eq→eq : (e f : Edge) → edge_eq e f ≡ true → e ≡ f
edge_eq→eq e f h = let (s, d, k) = edge_eq-parts e f h in ground (arith, s, d, k)

pub edge_eq_refl : (e : Edge) → edge_eq e e ≡ true
edge_eq_refl e = ground (arith, text_eq_refl e.src, text_eq_refl e.dst, text_eq_refl e.kind)

or_last : (x y : Bool) → x || (y || false) ≡ y || x
or_last x y = ground arith

module _ (e : Edge) where
  pub has_row-upsert_edge :
      (f : Edge) (judge : Option Text) (db : Db)
      → has_row e (upsert_edge f judge db).edges ≡ edge_eq e f || has_row e db.edges
  unfolding upsert_edge
  has_row-upsert_edge f judge db = elim (Bool-cases (has_row f db.edges)) [
    | inl known ↦ rw known (elim (Bool-cases (edge_eq e f)) [
      | inl same ↦ rw same (ap (λ x. has_row x db.edges) (edge_eq→eq e f same) ∙ known)
      | inr other ↦ rw other refl
    ])
    | inr fresh ↦ rw fresh (
        any-append (λ r. edge_eq e r.edge) db.edges (record { edge = f; judge = judge } ∷ [])
        ∙ or_last (has_row e db.edges) (edge_eq e f))
  ]

  pub has_row-upsert_node :
      (row : NodeRow) (db : Db) → has_row e (upsert_node row db).edges ≡ has_row e db.edges
  unfolding upsert_node
  has_row-upsert_node row db = refl

  module _ (doc : Text) (kinds : List Text) where
    deleted_rows :
        (rows : List EdgeRow)
        → has_row e (filter (λ r. not (is_edge_of doc kinds r)) rows)
          ≡ has_row e rows && not (text_eq e.src doc && is_member e.kind kinds)
    deleted_rows [] = refl
    deleted_rows (r ∷ rows) = elim (Bool-cases (edge_eq e r.edge)) [
      | inl same ↦
          let (s, d, k) = edge_eq-parts e r.edge same in
          let agree : is_edge_of doc kinds r ≡ (text_eq e.src doc && is_member e.kind kinds) =
            ap₂ (λ x y. text_eq x doc && is_member y kinds) (sym s) (sym k) in
          ground (arith, same, agree, deleted_rows rows)
      | inr other ↦ ground (arith, other, deleted_rows rows)
    ]

    pub has_row-delete_edges :
        (db : Db)
        → has_row e (delete_edges doc kinds db).edges
          ≡ has_row e db.edges && not (text_eq e.src doc && is_member e.kind kinds)
    unfolding delete_edges
    has_row-delete_edges db = deleted_rows db.edges
