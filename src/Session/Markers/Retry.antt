-- ===== src/Session/Markers/Retry.antt =====
-- `mark_retry` of agents/shared/markers.py: the count survives on disk, and the budget is exact.
use ohmyboring.Prelude.{
  ℕ, suc, ◌+◌, ◌≤◌, ◌<◌, ◌≡◌, refl, ap, ◌∙◌, true, false, Option, none, some, List, [], ◌∷◌, ◌++◌,
  arith, length, Text, newline, update, update_same, is_empty,
}
use ohmyboring.Prelude.Int.{pos}
use ohmyboring.Prelude.Decimal.{
  parse_int, show_nat, strip_solid, strip-solid_self, parse_int-show_nat, show_nat-IsSolid,
  split_lines-append, split_lines-solid,
}
use ohmyboring.Session.Markers.{
  TimeText, File, Marks, MarkDir, read_retry_count, retry_max_attempts, safe_id, exists,
  retry_count, is_dead, retry_marks, mark_retries, count_in, count_or_one,
}

append-not-empty : (s t : Text) (c : ℕ) → is_empty (s ++ c ∷ t) ≡ false
append-not-empty [] t c = refl
append-not-empty (x ∷ s) t c = refl

module _ (clock : TimeText) where
  open clock use {show_time, show_time_solid}

  abbrev pub retry_file : ℕ → ℕ → File
  retry_file now n = record { text = show_time now ++ newline ∷ show_nat n; mtime = now }

  count_in-show_nat : (n : ℕ) → count_in (some (show_nat n)) ≡ pos n
  unfolding count_in
  count_in-show_nat n =
      ap (λ s. count_or_one (parse_int s)) (strip-solid_self (show_nat n) (show_nat-IsSolid n))
      ∙ ap count_or_one (parse_int-show_nat n)

  -- A count that was written is read back.
  pub read_retry_count-written : (now n : ℕ) → read_retry_count (some (retry_file now n)) ≡ pos n
  unfolding read_retry_count
  read_retry_count-written now n =
      rw
        (
          strip_solid (show_time now) (newline ∷ []) (show_nat n) (show_time_solid now)
              (show_nat-IsSolid n),
          append-not-empty (show_time now) (show_nat n) newline,
          split_lines-append (show_time now) (show_nat n) (show_time_solid now).1,
          split_lines-solid (show_nat n) (show_nat-IsSolid n).1,
        )
        (count_in-show_nat n)

  module _ (env : Option Text) where
    -- One more failure, when the marker counts `n` of them.
    module _ (now : ℕ) (reason : Text) (m : Marks) (n : ℕ)
        (counted : read_retry_count m.retry ≡ pos n) where
      pub retry_marks_alive :
          n + 1 < retry_max_attempts env
          → retry_marks clock env now reason m
            ≡ record m { ts = none; pending = none; retry = some (retry_file now (n + 1)) }
      unfolding retry_marks
      retry_marks_alive below = rw counted (ground arith)

      pub retry_marks_dead :
          retry_max_attempts env ≤ n + 1
          → retry_marks clock env now reason m ≡ record {
            ts = none;
            pending = none;
            retry = none;
            dead = some (record {
              text = show_time now ++ newline ∷ (show_nat (n + 1) ++ newline ∷ reason);
              mtime = now;
            });
          }
      unfolding retry_marks
      retry_marks_dead spent = rw counted (ground arith)

    -- The marker files of one session after failures in a row.
    marks_after : List (ℕ × Text) → Marks → Marks
    marks_after [] m = m
    marks_after ((now, reason) ∷ later) m = marks_after later (retry_marks clock env now reason m)

    marks_after-mark_retries :
        (session_id : Text) (failures : List (ℕ × Text)) (dir : MarkDir)
        → mark_retries clock env session_id failures dir (safe_id session_id)
          ≡ marks_after failures (dir (safe_id session_id))
    unfolding marks_after mark_retries
    marks_after-mark_retries session_id [] dir = refl
    marks_after-mark_retries session_id ((now, reason) ∷ later) dir =
        let key = safe_id session_id in
        let next = update dir key (retry_marks clock env now reason (dir key)) in
        marks_after-mark_retries session_id later next
        ∙ ap (marks_after later) (update_same dir (retry_marks clock env now reason (dir key)) key)

    marks_after_alive :
        (failures : List (ℕ × Text)) (m : Marks) (n : ℕ)
        → read_retry_count m.retry ≡ pos n
        → n + length failures < retry_max_attempts env
        → (read_retry_count (marks_after failures m).retry ≡ pos (n + length failures))
          × ((marks_after failures m).dead ≡ m.dead)
    unfolding marks_after
    marks_after_alive [] m n counted below =
        let e : n ≡ n + 0 = omega arith in (counted ∙ ap pos e, refl)
    marks_after_alive ((now, reason) ∷ later) m n counted below =
        let e : n + 1 + length later ≡ n + suc (length later) = omega arith in
        let (count, dead) =
          marks_after_alive later
            (record m { ts = none; pending = none; retry = some (retry_file now (n + 1)) }) (n + 1)
            (read_retry_count-written now (n + 1)) (omega arith) in
        rw (retry_marks_alive now reason m n counted (omega arith), marks_after)
          (count ∙ ap pos e, dead)

    marks_after_spent :
        (failures : List (ℕ × Text)) (m : Marks) (n : ℕ)
        → read_retry_count m.retry ≡ pos n
        → n < retry_max_attempts env
        → n + length failures ≡ retry_max_attempts env
        → (exists (marks_after failures m).dead ≡ true)
          × ((marks_after failures m).retry ≡ none)
          × ((marks_after failures m).pending ≡ none)
          × ((marks_after failures m).ts ≡ none)
    unfolding marks_after
    marks_after_spent [] m n counted left spent = absurd (omega arith)
    marks_after_spent ((now, reason) ∷ []) m n counted left spent =
        rw (retry_marks_dead now reason m n counted (omega arith), marks_after)
          (refl, refl, refl, refl)
    marks_after_spent ((now, reason) ∷ f ∷ later) m n counted left spent =
        rw (retry_marks_alive now reason m n counted (omega arith), marks_after)
          (marks_after_spent (f ∷ later)
            (record m { ts = none; pending = none; retry = some (retry_file now (n + 1)) }) (n + 1)
            (read_retry_count-written now (n + 1)) (omega arith) (omega arith))

    pub retry_max_attempts-pos : 0 < retry_max_attempts env
    unfolding retry_max_attempts
    retry_max_attempts-pos = ground arith

    -- A session without a retry marker that fails fewer times in a row than the budget allows keeps
    -- a retry marker that counts the failures, and is as dead or alive as before.
    pub mark_retries_alive :
        (session_id : Text) (failures : List (ℕ × Text)) (dir : MarkDir)
        → (dir (safe_id session_id)).retry ≡ none
        → length failures < retry_max_attempts env
        → (retry_count session_id (mark_retries clock env session_id failures dir)
            ≡ pos (length failures))
          × (is_dead session_id (mark_retries clock env session_id failures dir)
              ≡ is_dead session_id dir)
    mark_retries_alive session_id failures dir no_retry below =
        let key = safe_id session_id in
        let (count, dead) =
          marks_after_alive failures (dir key) 0
            (ap read_retry_count no_retry ∙ unfold read_retry_count in refl) (omega arith) in
        let e : 0 + length failures ≡ length failures = omega arith in
        rw (marks_after-mark_retries session_id failures dir) (count ∙ ap pos e, ap exists dead)

    -- A session without a retry marker that has then failed exactly as often as the limit allows is
    -- dead, and it has no done, pending or retry file.
    pub mark_retries_spent :
        (session_id : Text) (failures : List (ℕ × Text)) (dir : MarkDir)
        → (dir (safe_id session_id)).retry ≡ none
        → length failures ≡ retry_max_attempts env
        → (is_dead session_id (mark_retries clock env session_id failures dir) ≡ true)
          × ((mark_retries clock env session_id failures dir (safe_id session_id)).retry ≡ none)
          × ((mark_retries clock env session_id failures dir (safe_id session_id)).pending ≡ none)
          × ((mark_retries clock env session_id failures dir (safe_id session_id)).ts ≡ none)
    mark_retries_spent session_id failures dir no_retry spent =
        let key = safe_id session_id in
        rw (marks_after-mark_retries session_id failures dir) (
          marks_after_spent failures (dir key) 0
            (ap read_retry_count no_retry ∙ unfold read_retry_count in refl) retry_max_attempts-pos
            (omega arith))
