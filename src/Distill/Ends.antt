-- ===== src/Distill/Ends.antt =====
-- Every run of the graph in src/ohmyboring/distill/graph.py ends, and what it hands to the engine.
use ohmyboring.Prelude.{
  ℕ, zero, suc, Bool, true, Option, none, some, [], ◌∷◌, ◌≡◌, ◌⊎◌, refl, ap, inl, inr, Text,
  Bool-cases,
}
use ohmyboring.Distill.{
  Note, PolishResult, polished, lost_facts, missed_shape, no_better, no_body, too_long,
  already_readable, Model, Node, draft, skip, retry_language, prepare, verify, polish, polish_retry,
  repair_call, repair_prepare, repair_verify, repair_passed, repair_failed, give_up, remember,
  is_retryable, polish_body, with_body, State, apply, next, run, start, distill_and_remember,
  after_repair_call, prepared, repaired_by,
}
use ohmyboring.Distill.Polish.{IsRewrite, polish_body-IsRewrite}

-- `n` rounds and then as many as are left.
abbrev rounds : ℕ → ℕ → ℕ
rounds zero left = left
rounds (suc n) left = suc (rounds n left)

module _ {Parsed : Type 0} (model : Model Parsed) where
  open model use {verify_note, is_skip}

  -- A note that passed the verification, with its body or a rewrite of it.
  abbrev IsPolishedOf : Note → Note → Type 0
  IsPolishedOf v note =
      (note ≡ v) ⊎ ((body : Text) × (note ≡ record v { body = body }) × IsRewrite model v.body body)

  abbrev IsVerified : Note → Type 0
  IsVerified v = (raw : Note) × (verify_note raw ≡ (v, true))

  abbrev pub IsFit : Note → Type 0
  IsFit note = (v : Note) × IsVerified v × IsPolishedOf v note

  abbrev pub IsOutcome : State model → Type 0
  IsOutcome s = (s.remembered ≡ []) ⊎ ((note : Note) × (s.remembered ≡ note ∷ []) × IsFit note)

  abbrev Ends : Option (State model) → Type 0
  Ends r = (final : State model) × (r ≡ some final) × IsOutcome final

  step :
      (f : ℕ) (node later : Node) (s : State model)
      → next model node (apply model node s) ≡ some later
      → Ends (run model f later (apply model node s))
      → Ends (run model (suc f) node s)
  unfolding run
  step f node later s h (final, ran, outcome) = (final, rw (h, run) ran, outcome)

  stop :
      (f : ℕ) (node : Node) (s : State model)
      → next model node (apply model node s) ≡ none
      → IsOutcome (apply model node s)
      → Ends (run model (suc f) node s)
  unfolding run
  stop f node s h outcome = (apply model node s, rw (h, run) refl, outcome)

  with_body-IsPolishedOf :
      (v : Note) (why : Option PolishResult)
      → IsPolishedOf v (with_body model v (polish_body model v.body why))
  with_body-IsPolishedOf v why = result (polish_body model v.body why) refl
    where
      result :
          (r : PolishResult)
          → polish_body model v.body why ≡ r
          → IsPolishedOf v (with_body model v r)
      result (polished body) h = inr (body, refl, polish_body-IsRewrite model v.body why body h)
      result (lost_facts missing) h = inl refl
      result missed_shape h = inl refl
      result no_better h = inl refl
      result no_body h = inl refl
      result too_long h = inl refl
      result already_readable h = inl refl

  retryable_kept :
      (v : Note) (r : PolishResult) → is_retryable (some r) ≡ true → with_body model v r ≡ v
  retryable_kept v (polished body) h = absurd cc
  retryable_kept v (lost_facts missing) h = refl
  retryable_kept v missed_shape h = refl
  retryable_kept v no_better h = refl
  retryable_kept v no_body h = refl
  retryable_kept v too_long h = refl
  retryable_kept v already_readable h = refl

  from_remember :
      (f : ℕ) (s : State model) (note : Note)
      → s.note ≡ some note
      → s.remembered ≡ []
      → IsFit note
      → Ends (run model (suc f) remember s)
  unfolding apply next
  from_remember f s note h none_yet fit =
      stop f remember s refl (inr (note, rw (h, none_yet) refl, fit))

  from_polish_retry :
      (f : ℕ) (s : State model) (v : Note)
      → s.note ≡ some v
      → s.remembered ≡ []
      → IsVerified v
      → Ends (run model (rounds 2 f) polish_retry s)
  unfolding apply next
  from_polish_retry f s v h none_yet verified_so = step (suc f) polish_retry remember s refl (
      from_remember f (apply model polish_retry s)
        (with_body model v (polish_body model v.body s.polish_outcome)) (rw h refl) (rw h none_yet)
        (v, verified_so, with_body-IsPolishedOf v s.polish_outcome))

  from_polish :
      (f : ℕ) (s : State model) (v : Note)
      → s.note ≡ some v
      → s.remembered ≡ []
      → IsVerified v
      → Ends (run model (rounds 3 f) polish s)
  unfolding apply next
  from_polish f s v h none_yet verified_so =
      let r = polish_body model v.body none in
      elim (Bool-cases (is_retryable (some r))) [
        | inl again ↦ step (rounds 2 f) polish polish_retry s (rw h (rw again refl)) (
            from_polish_retry f (apply model polish s) v (rw h (ap some (retryable_kept v r again)))
              (rw h none_yet) verified_so)
        | inr done ↦ step (rounds 2 f) polish remember s (rw h (rw done refl)) (
            from_remember (suc f) (apply model polish s) (with_body model v r) (rw h refl)
              (rw h none_yet) (v, verified_so, with_body-IsPolishedOf v none))
      ]

  from_repair_passed :
      (f : ℕ) (s : State model) (v : Note)
      → s.repaired_note ≡ some v
      → s.remembered ≡ []
      → IsVerified v
      → Ends (run model (rounds 4 f) repair_passed s)
  unfolding apply next
  from_repair_passed f s v h none_yet verified_so =
      step (rounds 3 f) repair_passed polish s refl
        (from_polish f (apply model repair_passed s) v h none_yet verified_so)

  second_true : (p : Note × Bool) → p.1 ≡ true → p ≡ (p.0, true)
  second_true p h = ap (λ b. (p.0, b)) h

  from_repair_verify :
      (f : ℕ) (s : State model) (raw : Note)
      → s.repaired_note ≡ some raw
      → s.remembered ≡ []
      → Ends (run model (rounds 5 f) repair_verify s)
  unfolding apply next
  from_repair_verify f s raw h none_yet = elim (Bool-cases (verify_note raw).1) [
    | inl fine ↦ step (rounds 4 f) repair_verify repair_passed s (rw h (rw fine refl)) (
        from_repair_passed f (apply model repair_verify s) (verify_note raw).0 (rw h refl)
          (rw h none_yet) (raw, second_true (verify_note raw) fine))
    | inr bad ↦
        step (rounds 4 f) repair_verify repair_failed s (rw h (rw bad refl))
          (stop (rounds 3 f) repair_failed (apply model repair_verify s) refl (inl (rw h none_yet)))
  ]

  from_repair_prepare :
      (f : ℕ) (s : State model) → s.remembered ≡ [] → Ends (run model (rounds 6 f) repair_prepare s)
  unfolding apply next
  from_repair_prepare f s none_yet = made (prepared model s.repaired) refl
    where
      made :
          (note : Option Note)
          → prepared model s.repaired ≡ note
          → Ends (run model (rounds 6 f) repair_prepare s)
      made (some raw) h =
          step (rounds 5 f) repair_prepare repair_verify s (rw h refl)
            (from_repair_verify f (apply model repair_prepare s) raw h none_yet)
      made none h =
          step (rounds 5 f) repair_prepare give_up s (rw h refl)
            (stop (rounds 4 f) give_up (apply model repair_prepare s) refl (inl none_yet))

  from_repair_call :
      (f : ℕ) (s : State model) → s.remembered ≡ [] → Ends (run model (rounds 7 f) repair_call s)
  unfolding apply next
  from_repair_call f s none_yet = chosen (repaired_by model s.note) refl
    where
      gives_up :
          after_repair_call model (repaired_by model s.note) ≡ give_up
          → Ends (run model (rounds 7 f) repair_call s)
      gives_up h =
          step (rounds 6 f) repair_call give_up s (ap some h)
            (stop (rounds 5 f) give_up (apply model repair_call s) refl (inl none_yet))

      chosen :
          (answer : Option Parsed)
          → repaired_by model s.note ≡ answer
          → Ends (run model (rounds 7 f) repair_call s)
      chosen none h = gives_up (rw h refl)
      chosen (some answer) h = elim (Bool-cases (is_skip answer)) [
        | inl skips ↦ gives_up (rw h (rw skips refl))
        | inr goes ↦
            step (rounds 6 f) repair_call repair_prepare s (rw h (rw goes refl))
              (from_repair_prepare f (apply model repair_call s) none_yet)
      ]

  from_verify :
      (f : ℕ) (s : State model) (raw : Note)
      → s.note ≡ some raw
      → s.remembered ≡ []
      → Ends (run model (rounds 8 f) verify s)
  unfolding apply next
  from_verify f s raw h none_yet = elim (Bool-cases (verify_note raw).1) [
    | inl fine ↦ step (rounds 7 f) verify polish s (rw h (rw fine refl)) (
        from_polish (rounds 4 f) (apply model verify s) (verify_note raw).0 (rw h refl)
          (rw h none_yet) (raw, second_true (verify_note raw) fine))
    | inr bad ↦
        step (rounds 7 f) verify repair_call s (rw h (rw bad refl))
          (from_repair_call f (apply model verify s) (rw h none_yet))
  ]

  from_prepare :
      (f : ℕ) (s : State model) → s.remembered ≡ [] → Ends (run model (rounds 9 f) prepare s)
  unfolding apply next
  from_prepare f s none_yet = made (prepared model s.parsed) refl
    where
      made :
          (note : Option Note)
          → prepared model s.parsed ≡ note
          → Ends (run model (rounds 9 f) prepare s)
      made (some raw) h =
          step (rounds 8 f) prepare verify s (rw h refl)
            (from_verify f (apply model prepare s) raw h none_yet)
      made none h = stop (rounds 8 f) prepare s (rw h refl) (inl none_yet)

  from_draft :
      (f : ℕ) (s : State model) → s.remembered ≡ [] → Ends (run model (rounds 11 f) draft s)
  unfolding apply next
  from_draft f s none_yet = parsed model.draft_answer.0 refl
    where
      parsed :
          (answer : Option Parsed)
          → model.draft_answer.0 ≡ answer
          → Ends (run model (rounds 11 f) draft s)
      parsed none h = stop (rounds 10 f) draft s (rw h refl) (inl none_yet)
      parsed (some answer) h = elim (Bool-cases (is_skip answer)) [
        | inl skips ↦
            step (rounds 10 f) draft skip s (rw h (rw skips refl))
              (stop (rounds 9 f) skip (apply model draft s) refl (inl none_yet))
        | inr goes ↦ elim (Bool-cases model.draft_answer.1) [
          | inl retry ↦ step (rounds 10 f) draft retry_language s (rw h (rw goes (rw retry refl))) (
              step (rounds 9 f) retry_language prepare (apply model draft s) refl
                (from_prepare f (apply model retry_language (apply model draft s)) none_yet))
          | inr fine ↦
              step (rounds 10 f) draft prepare s (rw h (rw goes (rw fine refl)))
                (from_prepare (suc f) (apply model draft s) none_yet)
        ]
      ]

  -- Every run of the graph ends after at most eleven nodes, and hands nothing or exactly one note
  -- to the engine: one that passed the verification, at once or after its repair, with its body as
  -- it was verified or the trimmed form of a rewrite that keeps every fact of it, trips fewer
  -- signals, has the shape, and has at most 1500 characters or no more than it.
  pub distill_and_remember-Ends :
      (final : State model) × (distill_and_remember model ≡ some final) × IsOutcome final
  unfolding distill_and_remember
  distill_and_remember-Ends = from_draft 0 (start model) refl
