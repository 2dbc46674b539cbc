-- ===== src/Search/Related/Once.antt =====
-- No note stands twice beside the hits of an answer: `attach_related` of
-- src/ohmyboring/search/rank.py.
use mathlib.Core.Option.{some-injective}
use ohmyboring.Prelude.{
  ℕ, ◌+◌, ◌≤◌, Bool, true, false, some, List, [], ◌∷◌, ◌++◌, ◌≡◌, ◌⊎◌, refl, ap, ◌∙◌, inl, inr,
  arith, length, Text, text_eq, text_eq→eq, Bool-cases,
}
use ohmyboring.Remember.Tokens.{is_member}
use ohmyboring.Search.Related.{
  Related, RelatedMap, new_notes, extend_at, attach_loop, attach_related,
}

abbrev pub one_if : Bool → ℕ
one_if true = 1
one_if false = 0

module _ (t : Text) where
  abbrev pub times : List Related → ℕ
  times [] = 0
  times (note ∷ notes) = one_if (text_eq t note.source_path) + times notes

  abbrev pub times_in : RelatedMap → ℕ
  times_in [] = 0
  times_in ((key, notes) ∷ out) = times notes + times_in out

  times-append : (xs ys : List Related) → times (xs ++ ys) ≡ times xs + times ys
  times-append [] ys = omega arith
  times-append (x ∷ xs) ys = omega (arith, times-append xs ys)

  fresh :
      (path : Text) (seen : List Text) (later after : ℕ)
      → (text_eq t path ≡ true) ⊎ (text_eq t path ≡ false)
      → is_member path seen ≡ false
      → one_if (is_member t (path ∷ seen)) + later ≡ after
      → one_if (is_member t seen) + (one_if (text_eq t path) + later) ≡ after
  fresh path seen later after (inl same) e h =
      let absent : is_member t seen ≡ false =
        ap (λ x. is_member x seen) (text_eq→eq t path same) ∙ e in
      ground (arith, same, absent, h)
  fresh path seen later after (inr other) e h = ground (arith, other, h)

  new_notes-times :
      (n : ℕ) (seen : List Text) (docs : List (Text × Text))
      → one_if (is_member t seen) + times (new_notes n seen docs).0
        ≡ one_if (is_member t (new_notes n seen docs).1)
  unfolding new_notes
  new_notes-times n seen [] = omega arith
  new_notes-times n seen ((path, content) ∷ docs) = elim (Bool-cases (is_member path seen)) [
    | inl e ↦ rw e (new_notes-times n seen docs)
    | inr e ↦ rw e (
        fresh path seen (times (new_notes n (path ∷ seen) docs).0) _ (Bool-cases (text_eq t path)) e
          (new_notes-times n (path ∷ seen) docs))
  ]

  extend_at-times :
      (chunk_id : Text) (notes : List Related) (out : RelatedMap)
      → times_in (extend_at chunk_id notes out) ≡ times notes + times_in out
  unfolding extend_at
  extend_at-times chunk_id notes [] = omega arith
  extend_at-times chunk_id notes ((key, old) ∷ out) =
      ground (arith, times-append old notes, extend_at-times chunk_id notes out)

  one_if-le : (b : Bool) → one_if b ≤ 1
  one_if-le true = omega arith
  one_if-le false = omega arith

  attach_loop-times :
      (n known : ℕ) (seen : List Text) (out final : RelatedMap) (heads : List (Text × Text))
      (lists : List (List (Text × Text)))
      → known + times_in out ≤ one_if (is_member t seen)
      → attach_loop n seen out heads lists ≡ some final
      → known + times_in final ≤ 1
  unfolding attach_loop
  attach_loop-times n known seen out final [] [] h e =
      let same : times_in out ≡ times_in final = ap times_in (some-injective out final e) in
      omega (arith, h, same, one_if-le (is_member t seen))
  attach_loop-times n known seen out final [] (docs ∷ lists) h e = cc
  attach_loop-times n known seen out final (head ∷ heads) [] h e = cc
  attach_loop-times n known seen out final (head ∷ heads) (docs ∷ lists) h e =
      let r = new_notes n seen docs in
      attach_loop-times n known r.1 (extend_at head.0 r.0 out) final heads lists
        (omega (arith, h, new_notes-times n seen docs, extend_at-times head.0 r.0 out)) e

attach_loop-some :
    (n : ℕ) (seen : List Text) (out : RelatedMap) (heads : List (Text × Text))
    (lists : List (List (Text × Text)))
    → length heads ≡ length lists
    → (final : RelatedMap) × (attach_loop n seen out heads lists ≡ some final)
unfolding attach_loop
attach_loop-some n seen out [] [] h = (out, refl)
attach_loop-some n seen out [] (docs ∷ lists) h = absurd (omega arith)
attach_loop-some n seen out (head ∷ heads) [] h = absurd (omega arith)
attach_loop-some n seen out (head ∷ heads) (docs ∷ lists) h =
    let r = new_notes n seen docs in
    attach_loop-some n r.1 (extend_at head.0 r.0 out) heads lists (omega arith)

-- When there is one list of documents for each first hit, the notes beside the hits always come, no
-- note stands twice among them, whatever the hit, and none is one of the documents of the hits
-- themselves.
pub attach_related_once :
    (heads : List (Text × Text)) (pool_paths : List Text) (lists : List (List (Text × Text)))
    (snippet_chars : ℕ)
    → length heads ≡ length lists
    → (out : RelatedMap) × (attach_related heads pool_paths lists snippet_chars ≡ some out)
      × ((t : Text) → one_if (is_member t pool_paths) + times_in t out ≤ 1)
unfolding attach_related
attach_related_once heads pool_paths lists snippet_chars h =
    let (out, e) = attach_loop-some snippet_chars pool_paths [] heads lists h in
    (
      out,
      e,
      λ t.
          attach_loop-times t snippet_chars (one_if (is_member t pool_paths)) pool_paths [] out
            heads lists (omega arith) e,
    )
