-- ===== src/Remember/Tokens/Symmetry.antt =====
-- The token sets of src/ohmyboring/remember/dedup.py have no repetitions, and the ratios between
-- two texts do not depend on their order.
use mathlib.Core.Path.{ap₂}
use ohmyboring.Prelude.{
  is_empty, ℕ, ◌+◌, Bool, true, false, not, ◌||◌, List, [], ◌∷◌, ◌++◌, ◌≡◌, refl, sym, ap, ◌∙◌, inl,
  inr, arith, filter, length, length-append, Text, text_eq, text_eq→eq, text_eq_sym, Bool-cases,
  if◌then◌else◌, ltb, flatten, min,
}
use ohmyboring.Remember.Note.{CharTable}
use ohmyboring.Remember.Tokens.{
  is_member, add, add_token, intersection, union, token_loop, token_set, token_jaccard_at_least,
  token_overlap_min_at_least, ratio_at_least,
}

abbrev pub IsDistinct : List Text → Type 0
IsDistinct [] = Unit
IsDistinct (t ∷ ts) = (is_member t ts ≡ false) × IsDistinct ts

add-IsDistinct : (t : Text) (set : List Text) → IsDistinct set → IsDistinct (add t set)
unfolding add
add-IsDistinct t set h = elim (Bool-cases (is_member t set)) [
  | inl e ↦ rw e h
  | inr e ↦ rw e (e, h)
]

add_token-IsDistinct : (buf out : List Text) → IsDistinct out → IsDistinct (add_token buf out)
add_token-IsDistinct buf out h = elim (Bool-cases (ltb 1 (length buf))) [
  | inl e ↦ rw e (add-IsDistinct (flatten buf) out h)
  | inr e ↦ rw e h
]

abbrev one_if : Bool → ℕ
one_if true = 1
one_if false = 0

member_once :
    (t : Text) (set : List Text)
    → IsDistinct set
    → length (filter (text_eq t) set) ≡ one_if (is_member t set)
member_once t [] h = refl
member_once t (u ∷ us) h = elim (Bool-cases (text_eq t u)) [
  | inl e ↦
      let gone : is_member t us ≡ false = ap (λ x. is_member x us) (text_eq→eq t u e) ∙ h.0 in
      ground (arith, e, gone, member_once t us h.1)
  | inr e ↦ rw e (member_once t us h.1)
]

member_either :
    (t : Text) (ts set : List Text)
    → is_member t ts ≡ false
    → length (filter (λ u. is_member u (t ∷ ts)) set)
      ≡ length (filter (text_eq t) set) + length (filter (λ u. is_member u ts) set)
member_either t ts [] h = omega arith
member_either t ts (u ∷ us) h = elim (Bool-cases (text_eq t u)) [
  | inl e ↦
      let back : text_eq u t ≡ true = text_eq_sym u t ∙ e in
      let gone : is_member u ts ≡ false = ap (λ x. is_member x ts) (sym (text_eq→eq t u e)) ∙ h in
      ground (arith, e, back, gone, member_either t ts us h)
  | inr e ↦
      let back : text_eq u t ≡ false = text_eq_sym u t ∙ e in
      ground (arith, e, back, member_either t ts us h)
]

none_in : (b : List Text) → length (intersection b []) ≡ 0
none_in [] = refl
none_in (t ∷ ts) = none_in ts

length-intersection :
    (a b : List Text)
    → IsDistinct a
    → IsDistinct b
    → length (intersection a b) ≡ length (intersection b a)
length-intersection [] b ha hb = sym (none_in b)
length-intersection (t ∷ ts) b ha hb =
    ground (arith, length-intersection ts b ha.1 hb, member_either t ts b ha.0, member_once t b hb)

length-filter-not :
    {A : Type 0} (p : A → Bool) (xs : List A)
    → length (filter p xs) + length (filter (λ x. not (p x)) xs) ≡ length xs
length-filter-not p [] = omega arith
length-filter-not p (x ∷ xs) = ground (arith, length-filter-not p xs)

length-union :
    (a b : List Text) → IsDistinct a → IsDistinct b → length (union a b) ≡ length (union b a)
length-union a b ha hb = omega (
  arith,
  length-append a (filter (λ t. not (is_member t a)) b),
  length-append b (filter (λ t. not (is_member t b)) a),
  length-filter-not (λ t. is_member t a) b,
  length-filter-not (λ t. is_member t b) a,
  length-intersection a b ha hb,
)

swap_guard :
    (x y : Bool) {p q : Bool}
    → p ≡ q
    → (if x || y then false else p) ≡ (if y || x then false else q)
swap_guard true true e = refl
swap_guard true false e = refl
swap_guard false true e = refl
swap_guard false false e = e

module _ (table : CharTable) where
  token_loop-IsDistinct :
      (out buf : List Text) (text : Text)
      → IsDistinct out
      → IsDistinct (token_loop table out buf text)
  unfolding token_loop
  token_loop-IsDistinct out buf [] h = add_token-IsDistinct buf out h
  token_loop-IsDistinct out buf (c ∷ s) h = elim (Bool-cases (table.is_alnum c)) [
    | inl e ↦ rw e (token_loop-IsDistinct out (buf ++ table.lower (c ∷ []) ∷ []) s h)
    | inr e ↦ rw e (token_loop-IsDistinct (add_token buf out) [] s (add_token-IsDistinct buf out h))
  ]

  pub token_set-IsDistinct : (text : Text) → IsDistinct (token_set table text)
  unfolding token_set
  token_set-IsDistinct text = token_loop-IsDistinct [] [] text tt

  module _ (a b : Text) (minimum : ℕ × ℕ) where
    sets_agree :
        (length (intersection (token_set table a) (token_set table b))
          ≡ length (intersection (token_set table b) (token_set table a)))
        × (length (union (token_set table a) (token_set table b))
            ≡ length (union (token_set table b) (token_set table a)))
    sets_agree =
        let ha = token_set-IsDistinct a in
        let hb = token_set-IsDistinct b in
        (
          length-intersection (token_set table a) (token_set table b) ha hb,
          length-union (token_set table a) (token_set table b) ha hb,
        )

    -- Whether the token sets of two texts overlap enough, by the union and by the smaller set, does
    -- not depend on the order of the texts.
    pub token_ratios-symmetric :
        (token_jaccard_at_least table a b minimum ≡ token_jaccard_at_least table b a minimum)
        × (token_overlap_min_at_least table a b minimum
            ≡ token_overlap_min_at_least table b a minimum)
    unfolding token_jaccard_at_least token_overlap_min_at_least
    token_ratios-symmetric =
        let (inter, uni) = sets_agree in
        let na = length (token_set table a) in
        let nb = length (token_set table b) in
        let least : min na nb ≡ min nb na = omega arith in
        (
          swap_guard (is_empty (token_set table a)) (is_empty (token_set table b))
              (ap₂ (λ n d. ratio_at_least n d minimum) inter uni),
          swap_guard (is_empty (token_set table a)) (is_empty (token_set table b))
              (ap₂ (λ n d. ratio_at_least n d minimum) inter least),
        )
