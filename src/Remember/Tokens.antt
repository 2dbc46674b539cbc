-- ===== src/Remember/Tokens.antt =====
-- The token sets of src/ohmyboring/remember/dedup.py and the ratios between them. A Python set is a
-- list without repetitions.
pub mod Symmetry
use ohmyboring.Prelude.{
  ℕ, ◌*◌, min, Bool, false, not, ◌||◌, List, [], ◌∷◌, ◌++◌, if◌then◌else◌, ltb, leb, ◌==◌, length,
  filter, any, flatten, Text, text_eq, is_empty,
}
use ohmyboring.Remember.Note.{CharTable}

abbrev pub is_member : Text → List Text → Bool
is_member t set = any (text_eq t) set

unfoldable pub add : Text → List Text → List Text
add t set = if is_member t set then set else t ∷ set

abbrev pub intersection : List Text → List Text → List Text
intersection a b = filter (λ t. is_member t b) a

abbrev pub union : List Text → List Text → List Text
union a b = a ++ filter (λ t. not (is_member t a)) b

-- One character is dropped. `buf` holds the lower-case form of each character of the run.
abbrev pub add_token : List Text → List Text → List Text
add_token buf out = if ltb 1 (length buf) then add (flatten buf) out else out

unfoldable pub ratio_at_least : ℕ → ℕ → ℕ × ℕ → Bool
ratio_at_least numerator denominator minimum =
    if denominator == 0 then false else leb (denominator * minimum.0) (numerator * minimum.1)

module _ (table : CharTable) where
  unfoldable pub token_loop : List Text → List Text → Text → List Text
  token_loop out buf [] = add_token buf out
  token_loop out buf (c ∷ s) =
      let longer = token_loop out (buf ++ table.lower (c ∷ []) ∷ []) s in
      let next = token_loop (add_token buf out) [] s in if table.is_alnum c then longer else next

  unfoldable pub token_set : Text → List Text
  token_set text = token_loop [] [] text

  unfoldable pub token_jaccard_at_least : Text → Text → ℕ × ℕ → Bool
  token_jaccard_at_least a b minimum =
      let sa = token_set a in
      let sb = token_set b in
      if is_empty sa || is_empty sb
      then false
      else ratio_at_least (length (intersection sa sb)) (length (union sa sb)) minimum

  unfoldable pub token_overlap_min_at_least : Text → Text → ℕ × ℕ → Bool
  token_overlap_min_at_least a b minimum =
      let sa = token_set a in
      let sb = token_set b in
      if is_empty sa || is_empty sb
      then false
      else ratio_at_least (length (intersection sa sb)) (min (length sa) (length sb)) minimum
