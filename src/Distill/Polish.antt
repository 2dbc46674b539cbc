-- ===== src/Distill/Polish.antt =====
-- What the judge of src/ohmyboring/distill/polish.py lets through.
use ohmyboring.Prelude.{
  ◌≤◌, ◌<◌, Bool, true, not, ◌&&◌, Option, none, some, List, [], ◌∷◌, ◌++◌, ◌≡◌, ◌⊎◌, refl, sym,
  inl, inr, arith, all, filter, length, ltb, leb, ◌==◌, Text, newline, is_empty,
}
use ohmyboring.Prelude.Decimal.{strip}
use ohmyboring.Result.{if-cases}
use ohmyboring.Remember.Tokens.{is_member}
use ohmyboring.Distill.{Model, PolishResult, polished, max_polished_chars, judge, polish_body}

module _ {Parsed : Type 0} (model : Model Parsed) where
  open model use {facts, body_signals, has_shape}

  -- A body that is rewritten: the text that was judged keeps every fact, trips fewer signals, has the
  -- shape, and is short or no longer than the original.
  abbrev pub IsRewrite : Text → Text → Type 0
  IsRewrite original body =
      (rewritten : Text) × (body ≡ strip rewritten ++ newline ∷ [])
      × (all (λ f. is_member f (facts rewritten)) (facts original) ≡ true)
      × (body_signals rewritten < body_signals original)
      × (has_shape rewritten ≡ true)
      × ((length rewritten ≤ max_polished_chars) ⊎ (length rewritten ≤ length original))

  none_missing :
      (p : Text → Bool) (xs : List Text)
      → is_empty (filter (λ x. not (p x)) xs) ≡ true
      → all p xs ≡ true
  none_missing p [] h = refl
  none_missing p (x ∷ xs) h = ground (arith, h, none_missing p xs)

  polished_inj : (a b : Text) → Path PolishResult (polished a) (polished b) → a ≡ b
  polished_inj a b h = cc

  judge-IsRewrite :
      (original : Text) (answer : Option Text) (body : Text)
      → judge model original answer ≡ polished body
      → IsRewrite original body
  unfolding judge
  judge-IsRewrite original none body h = absurd cc
  judge-IsRewrite original (some r) body h =
      let missing = filter (λ f. not (is_member f (facts r))) (facts original) in
      elim (if-cases (is_empty (strip r)) _ _ (polished body) h) [
        | inl (bare, same) ↦ absurd cc
        | inr (full, h1) ↦
            elim (if-cases (ltb max_polished_chars (length r) && ltb (length original) (length r)) _
              _ (polished body) h1) [
                | inl (long, same) ↦ absurd cc
                | inr (short, h2) ↦
                    elim (if-cases (not (is_empty missing)) _ _ (polished body) h2) [
                      | inl (lost, same) ↦ absurd cc
                      | inr (kept, h3) ↦
                          elim (if-cases (leb (body_signals original) (body_signals r)) _ _
                            (polished body) h3) [
                              | inl (worse, same) ↦ absurd cc
                              | inr (better, h4) ↦
                                  elim (if-cases (not (has_shape r)) _ _ (polished body) h4) [
                                    | inl (shapeless, same) ↦ absurd cc
                                    | inr (shaped, h5) ↦ (
                                      r,
                                      sym (polished_inj _ body h5),
                                      none_missing (λ f. is_member f (facts r)) (facts original)
                                          (ground (arith, kept)),
                                      ground (arith, better),
                                      ground (arith, shaped),
                                      ground (arith, short),
                                    )
                                  ]
                            ]
                    ]
              ]
      ]

  -- What a polish leaves of a body: the body itself, or a rewrite of it.
  pub polish_body-IsRewrite :
      (original : Text) (why : Option PolishResult) (body : Text)
      → polish_body model original why ≡ polished body
      → IsRewrite original body
  unfolding polish_body
  polish_body-IsRewrite original why body h =
      elim (if-cases (body_signals original == 0) _ _ (polished body) h) [
        | inl (readable, same) ↦ absurd cc
        | inr (unreadable, same) ↦ judge-IsRewrite original _ body same
      ]
