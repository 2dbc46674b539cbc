-- ===== src/Session/Worker/Runs.antt =====
-- Any interleaving of hooks that enqueue and worker ticks keeps the store consistent.
use ohmyboring.Prelude.{
  ℕ, ◌≡◌, ◌∙◌, false, Option, none, some, List, [], ◌∷◌, any, All, Text, text_eq, Bool-cases, inl,
  inr, is_empty,
}
use ohmyboring.Session.Markers.{TimeText, no_marks, is_done, is_dead}
use ohmyboring.Session.Queue.{
  QueueItem, QueueFile, Store, has_stem, unlink, remove, enqueue, drain, is_readable, log_event,
}
use ohmyboring.Session.Queue.Files.{any-unlink, any-filter, filter-IsDirectory}
use ohmyboring.Session.Queue.Items.{item_key, AreApart, AllQueued, drain-IsBatch}
use ohmyboring.Session.Worker.{
  Outcome, stored, refused, raised, Drain, attempt, settle, succeed, fail, with_retry, drain_one,
  drain_event, drain_items, deferred_event, run_batch, drain_queue,
}
use ohmyboring.Session.Worker.Consistent.{
  IsConsistent, IsConsistent-log, enqueue-IsConsistent, drain_one-IsConsistent,
}

drain-IsConsistent :
    (limit : Option ℕ) (s : Store) → IsConsistent s → IsConsistent (drain limit s).0
unfolding drain
drain-IsConsistent limit s c = record {
  directory = filter-IsDirectory is_readable s.queue c.directory;
  exclusive = c.exclusive;
  queued_open = λ k q. c.queued_open k (any-filter is_readable k s.queue q);
}

All-both {ℓ κ μ ν} :
    {A : Type ℓ} {P : A → Type κ} {Q : A → Type μ} {R : A → Type ν}
    → ((x : A) → P x → Q x → R x)
    → (xs : List A) → All P xs
    → All Q xs
    → All R xs
All-both f [] p q = tt
All-both f (x ∷ xs) p q = (f x p.0 q.0, All-both f xs p.1 q.1)

module _ (clock : TimeText) (env : Option Text) (now : ℕ) where
  -- The other sessions stay queued as they were.
  module _ (item : QueueItem) (k : Text) (other : text_eq (item_key item) k ≡ false) where
    unlink_other :
        (queue : List QueueFile)
        → any (has_stem k) (unlink (item_key item) queue) ≡ any (has_stem k) queue
    unlink_other queue = any-unlink k (item_key item) queue ∙ rw other

    fail_other :
        (result : Drain) (s : Store)
        → any (has_stem k) (fail clock env now item result s).0.queue ≡ any (has_stem k) s.queue
    unfolding fail
    fail_other result s =
        elim (Bool-cases
          (is_dead item.session_id (with_retry clock env now item result.reason s).marks)) [
            | inl e ↦ rw e (unlink_other s.queue)
            | inr e ↦ rw e
          ]

    settle_other :
        (outcome : Outcome) (s : Store)
        → any (has_stem k) (settle clock env now outcome item s).0.queue ≡ any (has_stem k) s.queue
    unfolding settle succeed
    settle_other stored s = unlink_other s.queue
    settle_other refused s = fail_other (attempt refused) s
    settle_other (raised error) s = fail_other (attempt (raised error)) s

    pub drain_one_other :
        (outcome : Outcome) (s : Store)
        → any (has_stem k) (drain_one clock env now outcome item s).0.queue
          ≡ any (has_stem k) s.queue
    unfolding drain_one remove
    drain_one_other outcome s = elim (Bool-cases (is_done item.session_id s.marks)) [
      | inl e ↦ rw e (unlink_other s.queue)
      | inr e ↦ rw e (settle_other outcome s)
    ]

  drain_items-IsConsistent :
      (distill : QueueItem → Outcome) (items : List QueueItem) (s : Store)
      → IsConsistent s
      → AreApart items
      → AllQueued s.queue items
      → IsConsistent (drain_items clock env now distill items s)
  unfolding drain_items
  drain_items-IsConsistent distill [] s c apart queued = c
  drain_items-IsConsistent distill (item ∷ items) s c apart queued =
      let (after, result) = drain_one clock env now (distill item) item s in
      drain_items-IsConsistent distill items (log_event (drain_event clock env item result) after)
        (IsConsistent-log (drain_event clock env item result) after
          (drain_one-IsConsistent clock env now item s c queued.0 (distill item)))
        apart.1
        (All-both (λ j other q. drain_one_other item (item_key j) other (distill item) s ∙ q) items
          apart.0 queued.1)

  run_batch-IsConsistent :
      (unreachable : Option Text) (distill : QueueItem → Outcome) (items : List QueueItem)
      (s : Store)
      → IsConsistent s
      → AreApart items
      → AllQueued s.queue items
      → IsConsistent (run_batch clock env now unreachable distill items s)
  unfolding run_batch
  run_batch-IsConsistent (some reason) distill items s c apart queued =
      IsConsistent-log (deferred_event items reason) s c
  run_batch-IsConsistent none distill items s c apart queued =
      drain_items-IsConsistent distill items s c apart queued

  drain_queue-IsConsistent :
      (per_tick : ℕ) (unreachable : Option Text) (distill : QueueItem → Outcome) (s : Store)
      → IsConsistent s
      → IsConsistent (drain_queue clock env per_tick now unreachable distill s)
  unfolding drain_queue
  drain_queue-IsConsistent per_tick unreachable distill s c =
      let (listed, items) = drain (some per_tick) s in
      let kept = drain-IsConsistent (some per_tick) s c in
      let batch = drain-IsBatch per_tick s c.directory in
      elim (Bool-cases (is_empty items)) [
        | inl e ↦ rw e kept
        | inr e ↦ rw e (
            run_batch-IsConsistent unreachable distill items listed kept batch.apart
              (unfold drain in batch.queued))
      ]

-- A step of the system: a hook puts an item into the queue, or the worker runs one tick, whatever
-- is reachable and whatever the distillation gives.
pub data Step (clock : TimeText) (env : Option Text) (s : Store) : Store → Type 0 where
  hook : (now : ℕ) (item : QueueItem) → Step clock env s (enqueue clock now item s).0
  tick :
      (per_tick now : ℕ) (unreachable : Option Text) (distill : QueueItem → Outcome)
      → Step clock env s (drain_queue clock env per_tick now unreachable distill s)

pub data Reach (clock : TimeText) (env : Option Text) (s : Store) : Store → Type 0 where
  here : Reach clock env s s
  next : {t u : Store} → Reach clock env s t → Step clock env t u → Reach clock env s u

abbrev pub empty_store : Store
empty_store = record { marks = λ k. no_marks; queue = []; set_aside = []; events = [] }

empty_store-IsConsistent : IsConsistent empty_store
empty_store-IsConsistent = record {
  directory = tt;
  exclusive = λ k. record { done_alone = λ h. cc; dead_alone = λ h. cc };
  queued_open = λ k q. cc;
}

Step-IsConsistent :
    {clock : TimeText} {env : Option Text} {s t : Store}
    → Step clock env s t
    → IsConsistent s
    → IsConsistent t
Step-IsConsistent {clock} {env} {s} (hook now item) c = enqueue-IsConsistent clock now item s c
Step-IsConsistent {clock} {env} {s} (tick per_tick now unreachable distill) c =
    drain_queue-IsConsistent clock env now per_tick unreachable distill s c

-- After any interleaving of hooks and worker ticks from the empty store, a session in the queue is
-- neither done nor dead, a done or dead session has no other marker, and each queue file that
-- parses is the only one of its session.
pub Reach-IsConsistent :
    {clock : TimeText} {env : Option Text} {s : Store}
    → Reach clock env empty_store s
    → IsConsistent s
Reach-IsConsistent here = empty_store-IsConsistent
Reach-IsConsistent (next r st) = Step-IsConsistent st (Reach-IsConsistent r)
