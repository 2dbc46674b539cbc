-- ===== src/Session/Worker/Offer.antt =====
-- `enqueue` of agents/shared/distill_queue.py: what becomes of an item that a hook offers.
use mathlib.Core.Path.{subst}
use ohmyboring.Prelude.{
  ℕ, ◌≡◌, refl, sym, ap, ◌∙◌, Bool, true, false, not, ◌&&◌, ◌++◌, Option, none, some, List, [], ◌∷◌,
  arith, if◌then◌else◌, codes, Text, text_eq, text_eq_refl, Bool-cases, inl, inr, update_same,
}
use ohmyboring.Prelude.Int.{pos}
use ohmyboring.Session.Markers.{
  TimeText, Marks, is_dead, exists, mark_pending, pending_marks, read_retry_count, retry_count,
}
use ohmyboring.Session.Queue.{
  QueueItem, QueueFile, Store, dead_event, is_queued, put_file, parse_stem, write_item,
  enqueue_dead, enqueue, resume_since, since_of,
}
use ohmyboring.Session.Queue.Files.{any-put_file}
use ohmyboring.Session.Queue.Items.{item_key}
use ohmyboring.Session.Worker.Consistent.{IsConsistent, AreExclusive}
use ohmyboring.Session.Worker.Resume.{resume_since_open}

parse_stem-put_file :
    (stem : Text) (item : QueueItem) (fs : List QueueFile)
    → parse_stem stem (put_file (record { stem = stem; item = some item }) fs) ≡ some item
unfolding parse_stem put_file
parse_stem-put_file stem item [] = rw text_eq_refl
parse_stem-put_file stem item (f ∷ fs) = elim (Bool-cases (text_eq stem f.stem)) [
  | inl e ↦ rw (e, text_eq_refl)
  | inr e ↦ rw (e, e) (parse_stem-put_file stem item fs)
]

module _ (clock : TimeText) where
  write_item-marks :
      (now : ℕ) (item : QueueItem) (s : Store)
      → (write_item clock now item s).marks (item_key item)
        ≡ pending_marks clock now (s.marks (item_key item))
  unfolding write_item mark_pending
  write_item-marks now item s =
      update_same s.marks (pending_marks clock now (s.marks (item_key item))) (item_key item)

  write_item-queued :
      (now : ℕ) (item : QueueItem) (s : Store)
      → is_queued item.session_id (write_item clock now item s) ≡ true
  unfolding write_item
  write_item-queued now item s =
      any-put_file (item_key item) (record { stem = item_key item; item = some item }) s.queue
      ∙ rw text_eq_refl

  write_item-resume :
      (now : ℕ) (item : QueueItem) (s : Store)
      → resume_since item.session_id (write_item clock now item s) ≡ item.since
  write_item-resume now item s =
      let after = write_item clock now item s in
      let same = write_item-marks now item s in
      resume_since_open item.session_id after
        (ap (λ x. exists x.dead) same ∙ unfold pending_marks in refl)
        (ap (λ x. exists x.ts) same ∙ unfold pending_marks in refl)
      ∙ rw (write_item-queued now item s) (
          unfold write_item in
          ap (λ i. since_of i none) (parse_stem-put_file (item_key item) item s.queue))

-- The item of a dead session that does not say where it starts.
abbrev pub is_turned_away : QueueItem → Store → Bool
is_turned_away item s =
    is_dead item.session_id s.marks && elim item.since [ none ↦ true | some since ↦ false ]

-- What `enqueue` leaves behind, by what it returns.
abbrev pub Offered : QueueItem → Store → Store → Bool → Type 0
Offered item before after true =
    (is_queued item.session_id after ≡ true)
    × (is_dead item.session_id after.marks ≡ false)
    × (resume_since item.session_id after ≡ item.since)
    × (retry_count item.session_id after.marks ≡ (
        if is_dead item.session_id before.marks
        then pos 0
        else retry_count item.session_id before.marks))
    × (after.events ≡ (
        if is_dead item.session_id before.marks
        then before.events ++ dead_event item (codes "requeued") (codes "dead_requeued_tail") ∷ []
        else before.events))
Offered item before after false =
    (after.marks ≡ before.marks)
    × (after.queue ≡ before.queue)
    × (after.events
        ≡ before.events ++ dead_event item (codes "skipped") (codes "dead_no_new_turns") ∷ [])

pending_marks-retry :
    (clock : TimeText) (now : ℕ) (m : Marks) → (pending_marks clock now m).retry ≡ m.retry
unfolding pending_marks
pending_marks-retry clock now m = refl

retry_of_dead :
    (m : Marks) → AreExclusive m → exists m.dead ≡ true → read_retry_count m.retry ≡ pos 0
unfolding read_retry_count
retry_of_dead m excl died = ground (arith, excl.dead_alone died)

module _ (clock : TimeText) (now : ℕ) (item : QueueItem) (s : Store) (c : IsConsistent s) where
  kept_count :
      retry_count item.session_id s.marks
      ≡ (if is_dead item.session_id s.marks then pos 0 else retry_count item.session_id s.marks)
  kept_count = elim (Bool-cases (is_dead item.session_id s.marks)) [
    | inl e ↦ rw e (retry_of_dead (s.marks (item_key item)) (c.exclusive (item_key item)) e)
    | inr e ↦ rw e
  ]

  -- `t` is the store with the event of a dead session logged.
  write_item-Offered :
      (t : Store)
      → t.marks ≡ s.marks
      → t.events ≡ (
          if is_dead item.session_id s.marks
          then s.events ++ dead_event item (codes "requeued") (codes "dead_requeued_tail") ∷ []
          else s.events)
      → Offered item s (write_item clock now item t) true
  write_item-Offered t same_marks logged =
      let key = item_key item in
      let same = write_item-marks clock now item t in
      (
        write_item-queued clock now item t,
        ap (λ x. exists x.dead) same ∙ unfold pending_marks in refl,
        write_item-resume clock now item t,
        ap (λ x. read_retry_count x.retry) same
            ∙ ap read_retry_count (pending_marks-retry clock now (t.marks key))
            ∙ ap (λ d. read_retry_count (d key).retry) same_marks
            ∙ kept_count,
        unfold write_item in logged,
      )

  enqueue_dead-Offered :
      (since : Option ℕ)
      → is_dead item.session_id s.marks ≡ true
      → item.since ≡ since
      → let r = enqueue_dead clock now item since s in
        (r.1 ≡ not (is_turned_away item s)) × Offered item s r.0 r.1
  unfolding enqueue_dead
  enqueue_dead-Offered none died whole = (rw (died, whole) refl, (refl, refl, refl))
  enqueue_dead-Offered (some since) died tail =
      (rw (died, tail) refl, write_item-Offered _ refl (rw died refl))

  enqueue_of_dead :
      is_dead item.session_id s.marks ≡ true
      → enqueue clock now item s ≡ enqueue_dead clock now item item.since s
  unfolding enqueue
  enqueue_of_dead e = ground arith

  enqueue_of_open :
      is_dead item.session_id s.marks ≡ false
      → enqueue clock now item s ≡ (write_item clock now item s, true)
  unfolding enqueue
  enqueue_of_open e = ground arith

  -- For a consistent store an item is taken unless its session is dead and it has no start. One
  -- that is taken is queued, its session is not dead and resumes where the item starts, and its
  -- failures are counted on, from 0 if it was dead; one that is not changes no marker and no queue
  -- file. The event log gets one line when the session was dead, which says what became of the
  -- item, and nothing otherwise.
  pub enqueue-Offered :
      let r = enqueue clock now item s in
      (r.1 ≡ not (is_turned_away item s)) × Offered item s r.0 r.1
  enqueue-Offered = elim (Bool-cases (is_dead item.session_id s.marks)) [
    | inl e ↦
        subst (λ (r : Store × Bool). (r.1 ≡ not (is_turned_away item s)) × Offered item s r.0 r.1)
          (sym (enqueue_of_dead e)) (enqueue_dead-Offered item.since e refl)
    | inr e ↦
        subst (λ (r : Store × Bool). (r.1 ≡ not (is_turned_away item s)) × Offered item s r.0 r.1)
          (sym (enqueue_of_open e)) (rw e refl, write_item-Offered s refl (rw e refl))
  ]
