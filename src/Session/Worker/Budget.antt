-- ===== src/Session/Worker/Budget.antt =====
-- A session whose distillation keeps failing leaves the queue after exactly as many attempts as
-- `MARKER_RETRY_MAX_ATTEMPTS` allows, and not before.
use mathlib.Core.Path.{subst}
use ohmyboring.Prelude.{
  ℕ, suc, ◌+◌, ◌≤◌, ◌<◌, ◌≡◌, refl, sym, ap, ◌∙◌, true, false, Option, none, List, [], ◌∷◌, arith,
  All, Text, length, update_same,
}
use ohmyboring.Prelude.Int.{pos}
use ohmyboring.Session.Markers.{
  TimeText, is_done, is_dead, exists, retry_count, read_retry_count, retry_max_attempts,
  retry_marks, mark_retry,
}
use ohmyboring.Session.Markers.Retry.{
  read_retry_count-written, retry_marks_alive, retry_marks_dead, retry_max_attempts-pos,
}
use ohmyboring.Session.Queue.{QueueItem, Store, is_queued, remove}
use ohmyboring.Session.Queue.Items.{item_key}
use ohmyboring.Session.Worker.{
  Outcome, stored, refused, raised, Drain, attempt, fail, with_retry, drain_one,
}
use ohmyboring.Session.Worker.Consistent.{IsConsistent, unlink-absent}

abbrev pub Fails : ℕ × Outcome → Type 0
Fails (now, stored) = ⊥
Fails (now, refused) = Unit
Fails (now, raised error) = Unit

module _ (clock : TimeText) (env : Option Text) (item : QueueItem) where
  -- Attempts at one item, each at its time.
  pub drain_run : List (ℕ × Outcome) → Store → Store
  drain_run [] s = s
  drain_run ((now, outcome) ∷ later) s = drain_run later (drain_one clock env now outcome item s).0

  drain_one-Fails :
      (now : ℕ) (outcome : Outcome) (s : Store)
      → Fails (now, outcome)
      → is_done item.session_id s.marks ≡ false
      → drain_one clock env now outcome item s ≡ fail clock env now item (attempt outcome) s
  unfolding drain_one
  drain_one-Fails now stored s h undone = absurd h
  drain_one-Fails now refused s h undone = rw undone
  drain_one-Fails now (raised error) s h undone = rw undone

  module _ (now : ℕ) (result : Drain) (s : Store) (n : ℕ)
      (counted : retry_count item.session_id s.marks ≡ pos n) where
    with_retry-marks :
        (with_retry clock env now item result.reason s).marks (item_key item)
        ≡ retry_marks clock env now result.reason (s.marks (item_key item))
    unfolding mark_retry
    with_retry-marks =
        update_same s.marks (retry_marks clock env now result.reason (s.marks (item_key item)))
          (item_key item)

    fail_alive :
        n + 1 < retry_max_attempts env
        → is_dead item.session_id s.marks ≡ false
        → (fail clock env now item result s).0 ≡ with_retry clock env now item result.reason s
    unfolding fail
    fail_alive below alive = rw (
        ap (λ x. exists x.dead)
          (with_retry-marks
            ∙ retry_marks_alive clock env now result.reason (s.marks (item_key item)) n counted
                below)
        ∙ alive)

    fail_spent :
        retry_max_attempts env ≤ n + 1
        → (fail clock env now item result s).0
          ≡ remove item.session_id (with_retry clock env now item result.reason s)
    unfolding fail
    fail_spent spent = rw (
        ap (λ x. exists x.dead)
          (with_retry-marks
            ∙ retry_marks_dead clock env now result.reason (s.marks (item_key item)) n counted
                spent))

  -- The session waits in the queue after `n` failures in a row.
  pub record IsTrying (n : ℕ) (s : Store) : Type 0 where
    pub waiting : is_queued item.session_id s ≡ true
    pub alive : is_dead item.session_id s.marks ≡ false
    pub undone : is_done item.session_id s.marks ≡ false
    pub counted : retry_count item.session_id s.marks ≡ pos n

  module _ (now : ℕ) (outcome : Outcome) (s : Store) (n : ℕ) (fails : Fails (now, outcome))
      (t : IsTrying n s) where
    pub drain_one-IsTrying :
        n + 1 < retry_max_attempts env → IsTrying (n + 1) (drain_one clock env now outcome item s).0
    drain_one-IsTrying below =
        let marks =
          with_retry-marks now (attempt outcome) s n t.counted
          ∙ retry_marks_alive clock env now (attempt outcome).reason (s.marks (item_key item)) n
              t.counted below in
        subst (IsTrying (n + 1))
          (sym (
            ap (λ r. r.0) (drain_one-Fails now outcome s fails t.undone)
            ∙ fail_alive now (attempt outcome) s n t.counted below t.alive))
          (record {
            waiting = t.waiting;
            alive = ap (λ m. exists m.dead) marks ∙ t.alive;
            undone = ap (λ m. exists m.ts) marks;
            counted =
                ap (λ m. read_retry_count m.retry) marks
                ∙ read_retry_count-written clock now (n + 1);
          })

    drain_one_last :
        retry_max_attempts env ≤ n + 1
        → let s' = (drain_one clock env now outcome item s).0 in
          (is_dead item.session_id s'.marks ≡ true) × (is_queued item.session_id s' ≡ false)
    drain_one_last spent =
        let marks =
          with_retry-marks now (attempt outcome) s n t.counted
          ∙ retry_marks_dead clock env now (attempt outcome).reason (s.marks (item_key item)) n
              t.counted spent in
        subst
          (λ s'. (is_dead item.session_id s'.marks ≡ true) × (is_queued item.session_id s' ≡ false))
          (sym (
            ap (λ r. r.0) (drain_one-Fails now outcome s fails t.undone)
            ∙ fail_spent now (attempt outcome) s n t.counted spent))
          (unfold remove in (ap (λ m. exists m.dead) marks, unlink-absent (item_key item) s.queue))

  drain_run-IsTrying :
      (attempts : List (ℕ × Outcome)) (s : Store) (n : ℕ)
      → All Fails attempts
      → IsTrying n s
      → n + length attempts < retry_max_attempts env
      → IsTrying (n + length attempts) (drain_run attempts s)
  unfolding drain_run
  drain_run-IsTrying [] s n fails t below =
      let e : n ≡ n + 0 = omega arith in subst (λ k. IsTrying k s) e t
  drain_run-IsTrying ((now, outcome) ∷ later) s n fails t below =
      let e : n + 1 + length later ≡ n + suc (length later) = omega arith in
      subst (λ k. IsTrying k (drain_run later (drain_one clock env now outcome item s).0)) e
        (drain_run-IsTrying later (drain_one clock env now outcome item s).0 (n + 1) fails.1
          (drain_one-IsTrying now outcome s n fails.0 t (omega arith)) (omega arith))

  drain_run_last :
      (attempts : List (ℕ × Outcome)) (s : Store) (n : ℕ)
      → All Fails attempts
      → IsTrying n s
      → n < retry_max_attempts env
      → n + length attempts ≡ retry_max_attempts env
      → (is_dead item.session_id (drain_run attempts s).marks ≡ true)
        × (is_queued item.session_id (drain_run attempts s) ≡ false)
  unfolding drain_run
  drain_run_last [] s n fails t left spent = absurd (omega arith)
  drain_run_last ((now, outcome) ∷ []) s n fails t left spent =
      drain_one_last now outcome s n fails.0 t (omega arith)
  drain_run_last ((now, outcome) ∷ a ∷ later) s n fails t left spent =
      drain_run_last (a ∷ later) (drain_one clock env now outcome item s).0 (n + 1) fails.1
        (drain_one-IsTrying now outcome s n fails.0 t (omega arith)) (omega arith) (omega arith)

  module _ (attempts : List (ℕ × Outcome)) (s : Store) (c : IsConsistent s)
      (waiting : is_queued item.session_id s ≡ true)
      (no_retry : (s.marks (item_key item)).retry ≡ none) (fails : All Fails attempts) where
    start : IsTrying 0 s
    start = record {
      waiting = waiting;
      alive = (c.queued_open (item_key item) waiting).0;
      undone = (c.queued_open (item_key item) waiting).1;
      counted = ap read_retry_count no_retry ∙ (unfold read_retry_count in refl);
    }

    -- A queued session of a consistent store with no failure so far whose attempts all fail stays
    -- queued, alive and with its failures counted as long as there are fewer than the limit.
    pub drain_run_below :
        length attempts < retry_max_attempts env → IsTrying (length attempts) (drain_run attempts s)
    drain_run_below below =
        let e : 0 + length attempts ≡ length attempts = omega arith in
        subst (λ k. IsTrying k (drain_run attempts s)) e
          (drain_run-IsTrying attempts s 0 fails start (omega arith))

    -- When there are as many as the limit, it is dead and out of the queue.
    pub drain_run_spent :
        length attempts ≡ retry_max_attempts env
        → (is_dead item.session_id (drain_run attempts s).marks ≡ true)
          × (is_queued item.session_id (drain_run attempts s) ≡ false)
    drain_run_spent spent =
        drain_run_last attempts s 0 fails start (retry_max_attempts-pos clock env) (omega arith)
