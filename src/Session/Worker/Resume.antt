-- ===== src/Session/Worker/Resume.antt =====
-- What the drain of agents/hermes/ingest-worker.py does with one item, and from where
-- `resume_since` of agents/shared/distill_queue.py takes the session up again after it.
use ohmyboring.Prelude.{
  ℕ, ◌≡◌, refl, sym, ap, ◌∙◌, Bool, true, false, Option, none, some, [], arith, if◌then◌else◌,
  codes, Text, Bool-cases, inl, inr, update_same,
}
use ohmyboring.Prelude.Int.{pos, suc_ℤ, leb_ℤ}
use ohmyboring.Session.Markers.{
  TimeText, Marks, safe_id, is_done, is_dead, exists, dead_time, done_time, mtime_of, mark_done,
  mark_retry, done_marks, retry_marks, read_retry_count, retry_count, retry_max_attempts,
}
use ohmyboring.Session.Queue.{
  QueueItem, Store, is_queued, parse_stem, remove, resume_since, since_of,
}
use ohmyboring.Session.Queue.Items.{item_key}
use ohmyboring.Session.Worker.{
  Outcome, stored, refused, raised, ok, failed, dead, Drain, attempt, settle, succeed, fail,
  with_retry, drain_one,
}
use ohmyboring.Session.Worker.Consistent.{IsConsistent, unlink-absent, retry_marks-not-done}

-- `resume_since` of a session that is neither dead nor done, and of one that is dead.
pub resume_since_open :
    (sid : Text) (s : Store)
    → is_dead sid s.marks ≡ false
    → is_done sid s.marks ≡ false
    → resume_since sid s
      ≡ (if is_queued sid s then since_of (parse_stem (safe_id sid) s.queue) none else none)
unfolding resume_since
resume_since_open sid s alive undone = ground arith

resume_since_dead :
    (sid : Text) (s : Store) (died : ℕ)
    → dead_time sid s.marks ≡ some died
    → resume_since sid s ≡ some died
unfolding resume_since
resume_since_dead sid s died h = ground arith

resume_since_done :
    (sid : Text) (s : Store) (upto : ℕ)
    → dead_time sid s.marks ≡ none
    → is_queued sid s ≡ false
    → done_time sid s.marks ≡ some upto
    → resume_since sid s ≡ some upto
unfolding resume_since
resume_since_done sid s upto alive gone h = ground arith

-- The failure that comes now is the last that the limit allows.
abbrev pub is_last : Option Text → Text → Store → Bool
is_last env session_id s =
    leb_ℤ (pos (retry_max_attempts env)) (suc_ℤ (retry_count session_id s.marks))

-- What an attempt with `outcome` leaves behind, where `is_last_failure` tells whether a failure is
-- the last one.
module _ (now : ℕ) (item : QueueItem) (before after : Store) (result : Drain) where
  abbrev pub IsStored : Type 0
  IsStored =
      (result ≡ record { status = ok; reason = [] })
      × (is_queued item.session_id after ≡ false)
      × (is_dead item.session_id after.marks ≡ false)
      × (resume_since item.session_id after ≡ some item.enqueued_at)

  abbrev pub IsRetried : Text → Type 0
  IsRetried reason =
      (result ≡ record { status = failed; reason = reason })
      × (is_queued item.session_id after ≡ true)
      × (is_dead item.session_id after.marks ≡ false)
      × (resume_since item.session_id after ≡ resume_since item.session_id before)

  abbrev pub IsGivenUp : Text → Type 0
  IsGivenUp reason =
      (result ≡ record { status = dead; reason = reason })
      × (is_queued item.session_id after ≡ false)
      × (is_dead item.session_id after.marks ≡ true)
      × (resume_since item.session_id after ≡ some now)

  abbrev pub Failing : Bool → Text → Type 0
  Failing true reason = IsGivenUp reason
  Failing false reason = IsRetried reason

  abbrev pub Settled : Bool → Outcome → Type 0
  Settled is_last_failure stored = IsStored
  Settled is_last_failure refused = Failing is_last_failure (codes "queue distill failed")
  Settled is_last_failure (raised error) = Failing is_last_failure error

retry_marks-died :
    (clock : TimeText) (env : Option Text) (now : ℕ) (reason : Text) (m : Marks)
    → exists m.dead ≡ false
    → exists (retry_marks clock env now reason m).dead ≡ true
    → mtime_of (retry_marks clock env now reason m).dead ≡ some now
unfolding retry_marks
retry_marks-died clock env now reason m alive died = ground arith

-- A living session dies of a failure exactly when it is its last one.
retry_marks-is_last :
    (clock : TimeText) (env : Option Text) (now : ℕ) (reason : Text) (m : Marks)
    → exists m.dead ≡ false
    → exists (retry_marks clock env now reason m).dead
      ≡ leb_ℤ (pos (retry_max_attempts env)) (suc_ℤ (read_retry_count m.retry))
unfolding retry_marks
retry_marks-is_last clock env now reason m alive = ground arith

module _ (clock : TimeText) where
  module _ (env : Option Text) (now : ℕ) (item : QueueItem) (s : Store) (c : IsConsistent s)
      (queued : is_queued item.session_id s ≡ true) where
    succeed-IsStored :
        let r = succeed clock env now item (attempt stored) s in IsStored now item s r.0 r.1
    unfolding succeed mark_done remove
    succeed-IsStored =
        let m = done_marks clock now (some item.enqueued_at) (s.marks (item_key item)) in
        let same = update_same s.marks m (item_key item) in
        (
          refl,
          unlink-absent (item_key item) s.queue,
          ap (λ x. exists x.dead) same ∙ unfold done_marks in refl,
          resume_since_done item.session_id (succeed clock env now item (attempt stored) s).0
              item.enqueued_at (ap (λ x. mtime_of x.dead) same ∙ unfold done_marks in refl)
              (unlink-absent (item_key item) s.queue)
              (ap (λ x. mtime_of x.ts) same ∙ unfold done_marks in refl),
        )

    fail-Failing :
        (reason : Text)
        → let r = fail clock env now item (record { status = failed; reason = reason }) s in
          Failing now item s r.0 r.1 (is_last env item.session_id s) reason
    unfolding fail mark_retry remove
    fail-Failing reason =
        let key = item_key item in
        let m = retry_marks clock env now reason (s.marks key) in
        let result : Drain = record { status = failed; reason = reason } in
        let (alive, undone) = c.queued_open key queued in
        let same = update_same s.marks m key in
        let last : is_dead item.session_id (with_retry clock env now item reason s).marks
            ≡ is_last env item.session_id s =
          ap (λ x. exists x.dead) same
          ∙ retry_marks-is_last clock env now reason (s.marks key) alive in
        elim (Bool-cases (is_dead item.session_id (with_retry clock env now item reason s).marks)) [
          | inl e ↦
              rw (e, sym last ∙ e)
                (
                  refl,
                  unlink-absent key s.queue,
                  e,
                  resume_since_dead item.session_id
                      (remove item.session_id (with_retry clock env now item reason s)) now
                      (ap (λ x. mtime_of x.dead) same
                        ∙ retry_marks-died clock env now reason (s.marks key) alive
                            (ap (λ x. exists x.dead) (sym same) ∙ e)),
                )
          | inr e ↦
              rw (e, sym last ∙ e)
                (
                  refl,
                  queued,
                  e,
                  resume_since_open item.session_id (with_retry clock env now item reason s) e (
                        ap (λ x. exists x.ts) same
                        ∙ retry_marks-not-done clock now (s.marks key) env reason)
                      ∙ sym (resume_since_open item.session_id s alive undone),
                )
        ]

    settle-Settled :
        (outcome : Outcome)
        → let r = settle clock env now outcome item s in
          Settled now item s r.0 r.1 (is_last env item.session_id s) outcome
    unfolding settle
    settle-Settled stored = succeed-IsStored
    settle-Settled refused = fail-Failing (attempt refused).reason
    settle-Settled (raised error) = fail-Failing error

    -- For a queued session of a consistent store: an attempt that stores the note is reported ok,
    -- takes the session out of the queue and lets it resume where its text was taken. An attempt
    -- that is refused or raises is reported with its reason: as long as it is not the last one that
    -- the limit allows, as failed, the session stays queued, is not dead and resumes where it would
    -- have before; when it is the last one, as dead, the session is dead, out of the queue and
    -- resumes at this time.
    pub drain_one-Settled :
        (outcome : Outcome)
        → let r = drain_one clock env now outcome item s in
          Settled now item s r.0 r.1 (is_last env item.session_id s) outcome
    unfolding drain_one
    drain_one-Settled outcome = rw (c.queued_open (item_key item) queued).1 (settle-Settled outcome)
