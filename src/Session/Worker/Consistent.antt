-- ===== src/Session/Worker/Consistent.antt =====
-- What holds of the marker files and the queue whatever the hooks and the worker do.
use mathlib.Core.Path.{subst}
use ohmyboring.Prelude.{
  ℕ, ◌≡◌, refl, sym, ap, ◌∙◌, true, false, not, Option, none, some, List, arith, any, Text, text_eq,
  text_eq→eq, text_eq_refl, text_eq_sym, Bool-cases, inl, inr, update, update_same, update_other,
}
use ohmyboring.Session.Markers.{
  TimeText, Marks, safe_id, exists, is_dead, is_done, done_marks, pending_marks, retry_marks,
  mark_done, mark_pending, mark_retry,
}
use ohmyboring.Session.Queue.{
  QueueItem, QueueFile, Event, Store, has_stem, is_queued, put_file, unlink, remove, write_item,
  enqueue, log_event, enqueue_dead,
}
use ohmyboring.Session.Queue.Files.{
  IsDirectory, any-put_file, any-unlink, any-filter, put_file-IsDirectory, filter-IsDirectory,
}
use ohmyboring.Session.Queue.Items.{item_key}
use ohmyboring.Session.Worker.{
  Outcome, stored, refused, raised, Drain, attempt, settle, succeed, fail, with_retry, drain_one,
}

-- A done or dead session has no other marker.
pub record AreExclusive (m : Marks) : Type 0 where
  pub done_alone :
      exists m.ts ≡ true
      → (exists m.pending ≡ false) × (exists m.retry ≡ false) × (exists m.dead ≡ false)
  pub dead_alone :
      exists m.dead ≡ true
      → (exists m.ts ≡ false) × (exists m.pending ≡ false) × (exists m.retry ≡ false)

-- A session in the queue is neither done nor dead.
abbrev pub IsOpen : Marks → Type 0
IsOpen m = (exists m.dead ≡ false) × (exists m.ts ≡ false)

pub record IsConsistent (s : Store) : Type 0 where
  pub directory : IsDirectory s.queue
  pub exclusive : (k : Text) → AreExclusive (s.marks k)
  pub queued_open : (k : Text) → any (has_stem k) s.queue ≡ true → IsOpen (s.marks k)

module _ (clock : TimeText) (now : ℕ) (m : Marks) where
  done_marks-AreExclusive : (upto : Option ℕ) → AreExclusive (done_marks clock now upto m)
  unfolding done_marks
  done_marks-AreExclusive upto = record {
    done_alone = λ h. (refl, refl, refl);
    dead_alone = λ h. cc;
  }

  pending_marks-AreExclusive : AreExclusive (pending_marks clock now m)
  unfolding pending_marks
  pending_marks-AreExclusive = record { done_alone = λ h. cc; dead_alone = λ h. cc }

  pending_marks-IsOpen : IsOpen (pending_marks clock now m)
  unfolding pending_marks
  pending_marks-IsOpen = (refl, refl)

  -- A failure of an open session leaves it open, or dead with no other marker.
  retry_marks-AreExclusive :
      (env : Option Text) (reason : Text)
      → exists m.dead ≡ false
      → AreExclusive (retry_marks clock env now reason m)
  unfolding retry_marks
  retry_marks-AreExclusive env reason alive = record {
    done_alone = λ h. ground arith;
    dead_alone = λ h. ground arith;
  }

  pub retry_marks-not-done :
      (env : Option Text) (reason : Text) → exists (retry_marks clock env now reason m).ts ≡ false
  unfolding retry_marks
  retry_marks-not-done env reason = ground arith

-- Replacing the markers of one session, and the queue.
IsConsistent-set :
    (s : Store) (key : Text) (m : Marks) (queue : List QueueFile)
    → IsConsistent s
    → AreExclusive m
    → IsDirectory queue
    → ((k : Text)
        → text_eq key k ≡ false
        → any (has_stem k) queue ≡ true
        → any (has_stem k) s.queue ≡ true)
    → (any (has_stem key) queue ≡ true → IsOpen m)
    → IsConsistent (record s { marks = update s.marks key m; queue = queue })
IsConsistent-set s key m queue c excl dir others own = record {
  directory = dir;
  exclusive = λ k. elim (Bool-cases (text_eq key k)) [
    | inl e ↦
        subst (λ j. AreExclusive (update s.marks key m j)) (text_eq→eq key k e)
          (subst AreExclusive (sym (update_same s.marks m key)) excl)
    | inr e ↦ subst AreExclusive (sym (update_other s.marks m key k e)) (c.exclusive k)
  ];
  queued_open = λ k q. elim (Bool-cases (text_eq key k)) [
    | inl e ↦
        subst IsOpen
          (sym (ap (update s.marks key m) (sym (text_eq→eq key k e)) ∙ update_same s.marks m key))
          (own (ap (λ j. any (has_stem j) queue) (text_eq→eq key k e) ∙ q))
    | inr e ↦ subst IsOpen (sym (update_other s.marks m key k e)) (c.queued_open k (others k e q))
  ];
}

pub IsConsistent-log : (e : Event) (s : Store) → IsConsistent s → IsConsistent (log_event e s)
IsConsistent-log e s c = record {
  directory = c.directory;
  exclusive = c.exclusive;
  queued_open = c.queued_open;
}

unlink-only :
    (key k : Text) (queue : List QueueFile)
    → any (has_stem k) (unlink key queue) ≡ true
    → any (has_stem k) queue ≡ true
unfolding unlink
unlink-only key k queue h = any-filter (λ f. not (text_eq key f.stem)) k queue h

unlink-IsDirectory :
    (key : Text) (queue : List QueueFile) → IsDirectory queue → IsDirectory (unlink key queue)
unfolding unlink
unlink-IsDirectory key queue d = filter-IsDirectory (λ f. not (text_eq key f.stem)) queue d

pub unlink-absent :
    (key : Text) (queue : List QueueFile) → any (has_stem key) (unlink key queue) ≡ false
unlink-absent key queue = any-unlink key key queue ∙ rw text_eq_refl

-- Markers that a session has once it is out of the queue.
settled-IsConsistent :
    (s : Store) (key : Text) (m : Marks)
    → IsConsistent s
    → AreExclusive m
    → IsConsistent (record s { marks = update s.marks key m; queue = unlink key s.queue })
settled-IsConsistent s key m c excl =
    IsConsistent-set s key m (unlink key s.queue) c excl
      (unlink-IsDirectory key s.queue c.directory) (λ k _ q. unlink-only key k s.queue q)
      (λ q. cc (q, unlink-absent key s.queue))

remove-IsConsistent : (sid : Text) (s : Store) → IsConsistent s → IsConsistent (remove sid s)
unfolding remove
remove-IsConsistent sid s c = record {
  directory = unlink-IsDirectory (safe_id sid) s.queue c.directory;
  exclusive = c.exclusive;
  queued_open = λ k q. c.queued_open k (unlink-only (safe_id sid) k s.queue q);
}

put_others :
    (file : QueueFile) (k : Text) (queue : List QueueFile)
    → text_eq file.stem k ≡ false
    → any (has_stem k) (put_file file queue) ≡ true
    → any (has_stem k) queue ≡ true
put_others file k queue e q = ground (arith, any-put_file k file queue, text_eq_sym file.stem k)

module _ (clock : TimeText) where
  write_item-IsConsistent :
      (now : ℕ) (item : QueueItem) (s : Store)
      → IsConsistent s
      → IsConsistent (write_item clock now item s)
  unfolding write_item mark_pending
  write_item-IsConsistent now item s c =
      let file : QueueFile = record { stem = item_key item; item = some item } in
      IsConsistent-set s (item_key item) (pending_marks clock now (s.marks (item_key item)))
        (put_file file s.queue) c (pending_marks-AreExclusive clock now (s.marks (item_key item)))
        (put_file-IsDirectory file s.queue (λ other e. cc) c.directory)
        (λ k e q. put_others file k s.queue e q)
        (λ _. pending_marks-IsOpen clock now (s.marks (item_key item)))

  enqueue_dead-IsConsistent :
      (now : ℕ) (item : QueueItem) (since : Option ℕ) (s : Store)
      → IsConsistent s
      → IsConsistent (enqueue_dead clock now item since s).0
  unfolding enqueue_dead
  enqueue_dead-IsConsistent now item none s c = IsConsistent-log _ s c
  enqueue_dead-IsConsistent now item (some since) s c =
      write_item-IsConsistent now item _ (IsConsistent-log _ s c)

  pub enqueue-IsConsistent :
      (now : ℕ) (item : QueueItem) (s : Store)
      → IsConsistent s
      → IsConsistent (enqueue clock now item s).0
  unfolding enqueue
  enqueue-IsConsistent now item s c = elim (Bool-cases (is_dead item.session_id s.marks)) [
    | inl e ↦ rw e (enqueue_dead-IsConsistent now item item.since s c)
    | inr e ↦ rw e (write_item-IsConsistent now item s c)
  ]

  module _ (env : Option Text) (now : ℕ) (item : QueueItem) (s : Store) (c : IsConsistent s)
      (queued : is_queued item.session_id s ≡ true) where
    succeed-IsConsistent : (result : Drain) → IsConsistent (succeed clock env now item result s).0
    unfolding succeed mark_done
    succeed-IsConsistent result =
        settled-IsConsistent s (item_key item)
          (done_marks clock now (some item.enqueued_at) (s.marks (item_key item))) c
          (done_marks-AreExclusive clock now (s.marks (item_key item)) (some item.enqueued_at))

    fail-IsConsistent : (result : Drain) → IsConsistent (fail clock env now item result s).0
    unfolding fail mark_retry
    fail-IsConsistent result =
        let key = item_key item in
        let m = retry_marks clock env now result.reason (s.marks key) in
        let is_open = c.queued_open key queued in
        let excl = retry_marks-AreExclusive clock now (s.marks key) env result.reason is_open.0 in
        elim (Bool-cases
          (is_dead item.session_id (with_retry clock env now item result.reason s).marks)) [
            | inl e ↦ rw e (settled-IsConsistent s key m c excl)
            | inr e ↦ rw e (
                IsConsistent-set s key m s.queue c excl c.directory (λ k _ q. q)
                  (λ _. (
                    ap (λ x. exists x.dead) (sym (update_same s.marks m key)) ∙ e,
                    retry_marks-not-done clock now (s.marks key) env result.reason,
                  )))
          ]

    settle-IsConsistent : (outcome : Outcome) → IsConsistent (settle clock env now outcome item s).0
    unfolding settle
    settle-IsConsistent stored = succeed-IsConsistent (attempt stored)
    settle-IsConsistent refused = fail-IsConsistent (attempt refused)
    settle-IsConsistent (raised error) = fail-IsConsistent (attempt (raised error))

    pub drain_one-IsConsistent :
        (outcome : Outcome) → IsConsistent (drain_one clock env now outcome item s).0
    unfolding drain_one
    drain_one-IsConsistent outcome = elim (Bool-cases (is_done item.session_id s.marks)) [
      | inl e ↦ rw e (remove-IsConsistent item.session_id s c)
      | inr e ↦ rw e (settle-IsConsistent outcome)
    ]
