-- ===== src/Remember/Tags/Clean.antt =====
-- A tag that `sanitize_tag` of src/ohmyboring/remember/parse.py gives is safe, and stays as it is.
use mathlib.Core.Option.{some-injective}
use mathlib.Core.Path.{subst}
use ohmyboring.Prelude.{
  ==_iff, ℕ, Bool, true, false, not, ◌&&◌, ◌||◌, Option, none, some, [], ◌∷◌, ◌≡◌, refl, sym, ap,
  ◌∙◌, inl, inr, arith, if◌then◌else◌, ◌==◌, all, Text, is_empty, is_empty-false, All, Bool-cases,
}
use ohmyboring.Prelude.Decimal.{strip, is_space, strip-solid_self}
use ohmyboring.Remember.Note.{CharTable}
use ohmyboring.Remember.Tags.{
  is_digit, is_tag_char, tag_loop, is_edge, strip_left, strip_right, checked, sanitize_tag,
}

-- Only characters of a tag, and single dashes; `prev` says that a dash stands before.
abbrev pub is_clean : Bool → Text → Bool
is_clean prev [] = true
is_clean prev (c ∷ s) = (is_tag_char c || (c == b'-' && not prev)) && is_clean (c == b'-') s

abbrev pub starts_inside : Text → Bool
starts_inside [] = true
starts_inside (c ∷ s) = not (is_edge c)

abbrev pub ends_inside : Text → Bool
ends_inside [] = true
ends_inside (c ∷ []) = not (is_edge c)
ends_inside (c ∷ d ∷ s) = ends_inside (d ∷ s)

dash_no_tag : (c : ℕ) → is_tag_char c ≡ true → (c == b'-') ≡ false
unfolding is_tag_char
dash_no_tag c h = ground arith

tag_loop-clean : (prev : Bool) (s : Text) → is_clean prev (tag_loop prev s) ≡ true
unfolding tag_loop
tag_loop-clean prev [] = refl
tag_loop-clean prev (c ∷ s) = elim (Bool-cases (is_tag_char c)) [
  | inl e ↦ rw e (ground (arith, e, dash_no_tag c e, tag_loop-clean false s))
  | inr e ↦ rw e (ground (arith, tag_loop-clean true s))
]

clean_weaken : (prev : Bool) (s : Text) → is_clean prev s ≡ true → is_clean false s ≡ true
clean_weaken prev [] h = refl
clean_weaken prev (c ∷ s) h = ground arith

strip_left-clean :
    (prev : Bool) (s : Text) → is_clean prev s ≡ true → is_clean false (strip_left s) ≡ true
unfolding strip_left
strip_left-clean prev [] h = refl
strip_left-clean prev (c ∷ s) h = elim (Bool-cases (is_edge c)) [
  | inl e ↦ rw e (strip_left-clean (c == b'-') s (ground (arith, h)))
  | inr e ↦ rw e (clean_weaken prev (c ∷ s) h)
]

strip_right-clean :
    (prev : Bool) (s : Text) → is_clean prev s ≡ true → is_clean prev (strip_right s) ≡ true
unfolding strip_right
strip_right-clean prev [] h = refl
strip_right-clean prev (c ∷ s) h =
    ground (arith, h, strip_right-clean (c == b'-') s (ground (arith, h)))

strip_left-starts : (s : Text) → starts_inside (strip_left s) ≡ true
unfolding strip_left
strip_left-starts [] = refl
strip_left-starts (c ∷ s) = ground (arith, strip_left-starts s)

strip_right-starts : (s : Text) → starts_inside s ≡ true → starts_inside (strip_right s) ≡ true
unfolding strip_right
strip_right-starts [] h = refl
strip_right-starts (c ∷ s) h = ground (arith, h)

strip_right-ends : (s : Text) → ends_inside (strip_right s) ≡ true
unfolding strip_right
strip_right-ends [] = refl
strip_right-ends (c ∷ s) = last_kept (strip_right s) (strip_right-ends s)
  where
    last_kept :
        (r : Text)
        → ends_inside r ≡ true
        → ends_inside (if is_empty r && is_edge c then [] else c ∷ r) ≡ true
    last_kept [] h = ground arith
    last_kept (d ∷ r) h = h

pub record IsTag (t : Text) : Type 0 where
  pub clean : is_clean false t ≡ true
  pub starts : starts_inside t ≡ true
  pub ends : ends_inside t ≡ true
  pub given : is_empty t ≡ false
  pub named : all is_digit t ≡ false

checked-some :
    (s t : Text) → checked s ≡ some t → (s ≡ t) × (is_empty s ≡ false) × (all is_digit s ≡ false)
unfolding checked
checked-some s t h = elim (Bool-cases (is_empty s || all is_digit s)) [
  | inl e ↦ absurd (none-is-not_some t (ap (λ b. if b then none else some s) (sym e) ∙ h))
  | inr e ↦ (
    some-injective s t (ap (λ b. if b then none else some s) (sym e) ∙ h),
    ground (arith, e),
    ground (arith, e),
  )
]
  where
    none-is-not_some : (t : Text) → Path (Option Text) none (some t) → ⊥
    none-is-not_some t h = cc

-- A tag that comes out of the cleaning is not empty and not only digits, has only ASCII letters and
-- digits, underscores, slashes and dashes, no two dashes in a row, and no dash or slash at either
-- end.
pub sanitize_tag-IsTag :
    (table : CharTable) (raw t : Text) → sanitize_tag table raw ≡ some t → IsTag t
unfolding sanitize_tag
sanitize_tag-IsTag table raw t h =
    let dashed = tag_loop false (table.lower (strip raw)) in
    let left = strip_left dashed in
    let (same, given, named) = checked-some (strip_right left) t h in
    subst IsTag same (record {
      clean =
          strip_right-clean false left
            (strip_left-clean false dashed (tag_loop-clean false (table.lower (strip raw))));
      starts = strip_right-starts left (strip_left-starts dashed);
      ends = strip_right-ends left;
      given = given;
      named = named;
    })

tag_loop_lem : (prev : Bool) (s : Text) → is_clean prev s ≡ true → tag_loop prev s ≡ s
unfolding tag_loop
tag_loop_lem prev [] h = refl
tag_loop_lem prev (c ∷ s) h = elim (Bool-cases (is_tag_char c)) [
  | inl e ↦
      rw e (ap (λ r. c ∷ r) (tag_loop_lem false s (clean_weaken (c == b'-') s (ground (arith, h)))))
  | inr e ↦
      let single : prev ≡ false = ground (arith, h, e) in
      let dash : (c == b'-') ≡ true = ground (arith, h, e) in
      let is_dash : b'-' ≡ c = omega (arith, (==_iff c b'-').0 dash) in
      let rest : is_clean true s ≡ true = ground (arith, h, dash) in
      rw (e, single)
        (ap (λ x. x ∷ tag_loop true s) is_dash ∙ ap (λ r. c ∷ r) (tag_loop_lem true s rest))
]

strip_left_lem : (s : Text) → starts_inside s ≡ true → strip_left s ≡ s
unfolding strip_left
strip_left_lem [] h = refl
strip_left_lem (c ∷ s) h = let inside : is_edge c ≡ false = ground (arith, h) in rw inside refl

strip_right_lem : (s : Text) → ends_inside s ≡ true → strip_right s ≡ s
unfolding strip_right
strip_right_lem [] h = refl
strip_right_lem (c ∷ []) h = let inside : is_edge c ≡ false = ground (arith, h) in rw inside refl
strip_right_lem (c ∷ d ∷ s) h = rw (strip_right_lem (d ∷ s) h) refl

checked_lem : (t : Text) → is_empty t ≡ false → all is_digit t ≡ false → checked t ≡ some t
unfolding checked
checked_lem t given named = rw (given, named) refl

tag_char-solid : (c : ℕ) → (is_tag_char c || c == b'-') ≡ true → is_space c ≡ false
unfolding is_tag_char is_space
tag_char-solid c h = ground arith

clean-solid : (prev : Bool) (s : Text) → is_clean prev s ≡ true → All (λ c. is_space c ≡ false) s
clean-solid prev [] h = tt
clean-solid prev (c ∷ s) h =
    (tag_char-solid c (ground (arith, h)), clean-solid (c == b'-') s (ground (arith, h)))

sanitize_tag_fixed :
    (table : CharTable) (t : Text) → IsTag t → table.lower t ≡ t → sanitize_tag table t ≡ some t
unfolding sanitize_tag
sanitize_tag_fixed table t tag lowered =
    rw
      (
        strip-solid_self t (is_empty-false t tag.given, clean-solid false t tag.clean),
        lowered,
        tag_loop_lem false t tag.clean,
        strip_left_lem t tag.starts,
        strip_right_lem t tag.ends,
      )
      (checked_lem t tag.given tag.named)

-- A tag that comes out of the cleaning stays as it is when it is cleaned again, if its lower case
-- is itself.
pub sanitize_tag_idempotent :
    (table : CharTable) (raw t : Text)
    → sanitize_tag table raw ≡ some t
    → table.lower t ≡ t
    → sanitize_tag table t ≡ some t
sanitize_tag_idempotent table raw t h =
    sanitize_tag_fixed table t (sanitize_tag-IsTag table raw t h)
