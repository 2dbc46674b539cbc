-- ===== src/Prelude/Texts.antt =====
-- Texts as lists of code points, and the parts of Python's `str` that the program uses.
use Prim.Native.Char.{code}
use Prim.Native.String.{String}
use Prim.Native.Nat.{ℕ, suc, ◌-◌}
use mathlib.Core.Path.{◌≡◌, refl, sym, ap, ◌∙◌}
use mathlib.Core.Bool.{Bool, true, false, ◌&&◌, ◌||◌}
use mathlib.Core.Logic.{inl, inr}
use mathlib.Core.List.{List, [], ◌∷◌, ◌++◌, append_assoc, append-nil, map, flatten}
use native.Mathlib.Omega.{arith}
use ohmyboring.Prelude.Tests.{◌==◌, ltb, if◌then◌else◌, ==_iff, Bool-cases}
use ohmyboring.Prelude.Lists.{length, take, All}
use ohmyboring.Prelude.Int.{ℤ, pos, negsuc}

abbrev pub Text : Type 0
Text = List ℕ

-- The code points of a literal. `String` has its own `[]` and `∷`.
abbrev pub codes : String → Text
codes String.[] = []
codes (String.◌∷◌ c s) = code c ∷ codes s

abbrev pub newline : ℕ
newline = 10

abbrev pub is_empty {ℓ} : {A : Type ℓ} → List A → Bool
is_empty [] = true
is_empty (x ∷ xs) = false

abbrev pub starts_with : Text → Text → Bool
starts_with [] s = true
starts_with (p ∷ ps) [] = false
starts_with (p ∷ ps) (c ∷ s) = p == c && starts_with ps s

-- `s[:stop]`, where a negative stop counts from the end.
abbrev pub slice_to : ℤ → Text → Text
slice_to (pos n) s = take n s
slice_to (negsuc n) s = take (length s - suc n) s

abbrev cons_line : ℕ → List Text → List Text
cons_line c [] = (c ∷ []) ∷ []
cons_line c (l ∷ ls) = (c ∷ l) ∷ ls

-- `s.split("\n")`
unfoldable pub split_lines : Text → List Text
split_lines [] = [] ∷ []
split_lines (c ∷ s) =
    let rest = split_lines s in if c == newline then [] ∷ rest else cons_line c rest

-- `"\n".join(lines)`
unfoldable pub join_lines : List Text → Text
join_lines [] = []
join_lines (l ∷ []) = l
join_lines (l ∷ m ∷ ls) = l ++ newline ∷ join_lines (m ∷ ls)

abbrev pub NonEmpty {ℓ} : {A : Type ℓ} → List A → Type 0
NonEmpty [] = ⊥
NonEmpty (x ∷ xs) = Unit

pub is_empty-true {ℓ} : {A : Type ℓ} (xs : List A) → is_empty xs ≡ true → xs ≡ []
is_empty-true [] h = refl
is_empty-true (x ∷ xs) h = cc

pub is_empty-false {ℓ} : {A : Type ℓ} (xs : List A) → is_empty xs ≡ false → NonEmpty xs
is_empty-false [] h = cc
is_empty-false (x ∷ xs) h = tt

cons_line-join :
    (c : ℕ) (ls : List Text) → NonEmpty ls → join_lines (cons_line c ls) ≡ c ∷ join_lines ls
unfolding join_lines
cons_line-join c [] h = absurd h
cons_line-join c (l ∷ []) h = refl
cons_line-join c (l ∷ m ∷ ls) h = refl

pub split_lines-NonEmpty : (s : Text) → NonEmpty (split_lines s)
unfolding split_lines
split_lines-NonEmpty [] = tt
split_lines-NonEmpty (c ∷ s) = go (c == newline) (split_lines s)
  where
    go : (b : Bool) (r : List Text) → NonEmpty (if b then [] ∷ r else cons_line c r)
    go true r = tt
    go false [] = tt
    go false (l ∷ ls) = tt

join_lines-empty_cons :
    (ls : List Text) → NonEmpty ls → join_lines ([] ∷ ls) ≡ newline ∷ join_lines ls
unfolding join_lines
join_lines-empty_cons [] h = absurd h
join_lines-empty_cons (l ∷ ls) h = refl

-- Splitting at line feeds and joining again is the identity.
pub join_lines-split_lines : (s : Text) → join_lines (split_lines s) ≡ s
unfolding split_lines
join_lines-split_lines [] = unfold join_lines in refl
join_lines-split_lines (c ∷ s) = elim (Bool-cases (c == newline)) [
  | inl e ↦
      let same : newline ≡ c = omega (arith, (==_iff c newline).0 e) in
      rw e (
        join_lines-empty_cons (split_lines s) (split_lines-NonEmpty s)
        ∙ ap (λ r. newline ∷ r) (join_lines-split_lines s)
        ∙ ap (λ x. x ∷ s) same)
  | inr e ↦ rw e (
      cons_line-join c (split_lines s) (split_lines-NonEmpty s)
      ∙ ap (λ r. c ∷ r) (join_lines-split_lines s))
]

cons_line-append :
    (c : ℕ) (ls ms : List Text) → NonEmpty ls → cons_line c (ls ++ ms) ≡ cons_line c ls ++ ms
cons_line-append c [] ms h = absurd h
cons_line-append c (l ∷ ls) ms h = refl

pub split_lines-newline :
    (s t : Text) → split_lines (s ++ newline ∷ t) ≡ split_lines s ++ split_lines t
unfolding split_lines
split_lines-newline [] t = refl
split_lines-newline (c ∷ s) t = elim (Bool-cases (c == newline)) [
  | inl e ↦ rw e (ap (λ r. [] ∷ r) (split_lines-newline s t))
  | inr e ↦ rw e (
      ap (cons_line c) (split_lines-newline s t)
      ∙ cons_line-append c (split_lines s) (split_lines t) (split_lines-NonEmpty s))
]

-- A line feed at the end begins an empty line.
pub split_lines-ended : (s : Text) → split_lines (s ++ newline ∷ []) ≡ split_lines s ++ [] ∷ []
split_lines-ended s = split_lines-newline s [] ∙ unfold split_lines in refl

pub join_lines-append :
    (xs ys : List Text)
    → NonEmpty xs
    → NonEmpty ys
    → join_lines (xs ++ ys) ≡ join_lines xs ++ newline ∷ join_lines ys
unfolding join_lines
join_lines-append [] ys hx hy = absurd hx
join_lines-append (x ∷ []) [] hx hy = absurd hy
join_lines-append (x ∷ []) (y ∷ ys) hx hy = refl
join_lines-append (x ∷ x' ∷ xs) ys hx hy =
    ap (λ r. x ++ newline ∷ r) (join_lines-append (x' ∷ xs) ys tt hy)
    ∙ sym (append_assoc x (newline ∷ join_lines (x' ∷ xs)) (newline ∷ join_lines ys))

flatten-NonEmpty :
    (x : List Text) (xs : List (List Text)) → NonEmpty x → NonEmpty (flatten (x ∷ xs))
unfolding flatten
flatten-NonEmpty [] xs h = absurd h
flatten-NonEmpty (l ∷ x) xs h = tt

-- Joining the joined groups is joining all lines.
pub join_lines-flatten :
    (xs : List (List Text))
    → All NonEmpty xs
    → join_lines (map join_lines xs) ≡ join_lines (flatten xs)
unfolding join_lines flatten
join_lines-flatten [] h = refl
join_lines-flatten (x ∷ []) h = ap join_lines (sym (append-nil x))
join_lines-flatten (x ∷ y ∷ xs) h =
    ap (λ r. join_lines x ++ newline ∷ r) (join_lines-flatten (y ∷ xs) h.1)
    ∙ sym (join_lines-append x (flatten (y ∷ xs)) h.0 (flatten-NonEmpty y xs h.1.0))

-- Equality of texts, and maps from texts as functions.
abbrev pub text_eq : Text → Text → Bool
text_eq [] [] = true
text_eq [] (d ∷ t) = false
text_eq (c ∷ s) [] = false
text_eq (c ∷ s) (d ∷ t) = c == d && text_eq s t

-- `a < b` of two texts.
unfoldable pub text_ltb : Text → Text → Bool
text_ltb s [] = false
text_ltb [] (d ∷ t) = true
text_ltb (c ∷ s) (d ∷ t) = ltb c d || (c == d && text_ltb s t)

pub text_ltb-asymmetric : (s t : Text) → text_ltb s t ≡ true → text_ltb t s ≡ false
unfolding text_ltb
text_ltb-asymmetric s [] h = cc
text_ltb-asymmetric [] (d ∷ t) h = refl
text_ltb-asymmetric (c ∷ s) (d ∷ t) h = ground (arith, text_ltb-asymmetric s t)

pub text_eq→eq : (s t : Text) → text_eq s t ≡ true → s ≡ t
text_eq→eq [] [] h = refl
text_eq→eq [] (d ∷ t) h = cc
text_eq→eq (c ∷ s) [] h = cc
text_eq→eq (c ∷ s) (d ∷ t) h = ground (arith, text_eq→eq s t)

pub text_eq_refl : (s : Text) → text_eq s s ≡ true
text_eq_refl [] = refl
text_eq_refl (c ∷ s) = ground (arith, text_eq_refl s)

pub text_eq_sym : (s t : Text) → text_eq s t ≡ text_eq t s
text_eq_sym [] [] = refl
text_eq_sym [] (d ∷ t) = refl
text_eq_sym (c ∷ s) [] = refl
text_eq_sym (c ∷ s) (d ∷ t) = ground (arith, text_eq_sym s t)

unfoldable pub update {ℓ} : {V : Type ℓ} → (Text → V) → Text → V → Text → V
update m k v j = if text_eq k j then v else m j

module _ {ℓ} {V : Type ℓ} (m : Text → V) (v : V) where
  pub update_same : (k : Text) → update m k v k ≡ v
  unfolding update
  update_same k = rw text_eq_refl

  pub update_other : (k j : Text) → text_eq k j ≡ false → update m k v j ≡ m j
  unfolding update
  update_other k j h = rw h
