-- ===== src/Session/Worker.antt =====
-- agents/hermes/ingest-worker.py: which sessions may be offered, and one tick's drain of the queue.
-- The distillation of an item, the reachability of the door and the model and the clock are
-- arguments.
pub mod Consistent
pub mod Runs
pub mod Resume
pub mod Offer
pub mod Budget
use ohmyboring.Prelude.{
  text_ltb, ℕ, zero, suc, ◌+◌, Bool, true, false, not, ◌&&◌, ◌||◌, Option, none, some, List, [],
  ◌∷◌, ◌++◌, if◌then◌else◌, ltb, Text, codes, is_empty, text_eq, map, ◌==◌,
}
use ohmyboring.Session.Markers.{
  TimeText, MarkDir, is_done, is_dead, is_pending, is_retry, mark_done, mark_retry,
}
use ohmyboring.Session.Queue.{QueueItem, Event, Store, is_queued, remove, drain, log_event}

-- What `_distill` does with an item: it stores the note, says no, or raises.
pub data Outcome : Type 0 where
  stored : Outcome
  refused : Outcome
  raised : Text → Outcome

pub data Status : Type 0 where
  ok failed dead skipped : Status

pub record Drain : Type 0 where
  pub status : Status
  pub reason : Text

abbrev pub attempt : Outcome → Drain
attempt stored = record { status = ok; reason = [] }
attempt refused = record { status = failed; reason = codes "queue distill failed" }
attempt (raised error) = record { status = failed; reason = error }

-- `_eligible` for a transcript that was last written at `mtime`; `stable_age` 0 switches its test off.
unfoldable pub eligible : ℕ → ℕ → ℕ → ℕ → Text → ℕ → Store → Bool
eligible now pending_ttl retry_ttl stable_age sid mtime s =
    if is_done sid s.marks || is_dead sid s.marks || is_queued sid s
    then false
    else if is_pending sid s.marks (some pending_ttl) now
    then false
    else if is_retry sid s.marks (some retry_ttl) now
    then false
    else not (ltb 0 stable_age && ltb now (mtime + stable_age))

module _ (clock : TimeText) (env : Option Text) where
  unfoldable pub succeed : ℕ → QueueItem → Drain → Store → Store × Drain
  unfolding remove
  succeed now item result s = (
    remove item.session_id
        (record s { marks = mark_done clock now item.session_id (some item.enqueued_at) s.marks }),
    result,
  )

  abbrev pub with_retry : ℕ → QueueItem → Text → Store → Store
  with_retry now item reason s = record s {
    marks = (mark_retry clock env now item.session_id reason s.marks).0;
  }

  unfoldable pub fail : ℕ → QueueItem → Drain → Store → Store × Drain
  unfolding remove
  fail now item result s =
      let after = with_retry now item result.reason s in
      if is_dead item.session_id after.marks
      then (remove item.session_id after, record { status = dead; reason = result.reason })
      else (after, result)

  unfoldable pub settle : ℕ → Outcome → QueueItem → Store → Store × Drain
  settle now stored item s = succeed now item (attempt stored) s
  settle now refused item s = fail now item (attempt refused) s
  settle now (raised error) item s = fail now item (attempt (raised error)) s

  unfoldable pub drain_one : ℕ → Outcome → QueueItem → Store → Store × Drain
  unfolding settle
  drain_one now outcome item s =
      if is_done item.session_id s.marks
      then (remove item.session_id s, record { status = skipped; reason = codes "already_done" })
      else settle now outcome item s

  status_text : Status → Text
  status_text ok = codes "ok"
  status_text failed = codes "failed"
  status_text dead = codes "dead"
  status_text skipped = codes "skipped"

  -- The line that `_log_queue` writes for one item.
  pub drain_event : QueueItem → Drain → Event
  unfolding status_text
  drain_event item result = record {
    component = codes "hermes-ingest-worker";
    event = codes "ingest_queue";
    status = status_text result.status;
    reason = result.reason;
    agent = item.agent;
    session_id = item.session_id;
  }

  -- The loop of `_drain_queue` over the items taken.
  unfoldable pub drain_items : ℕ → (QueueItem → Outcome) → List QueueItem → Store → Store
  drain_items now distill [] s = s
  drain_items now distill (item ∷ items) s =
      let (after, result) = drain_one now (distill item) item s in
      drain_items now distill items (log_event (drain_event item result) after)

-- `",".join(sorted({...}))` over the agents of the items.
insert_text : Text → List Text → List Text
unfolding text_ltb
insert_text t [] = t ∷ []
insert_text t (u ∷ us) =
    let rest = insert_text t us in
    if text_eq t u then u ∷ us else if text_ltb t u then t ∷ u ∷ us else u ∷ rest

sorted_set : List Text → List Text
unfolding insert_text
sorted_set [] = []
sorted_set (t ∷ ts) = insert_text t (sorted_set ts)

join_commas : List Text → Text
join_commas [] = []
join_commas (t ∷ []) = t
join_commas (t ∷ u ∷ ts) = t ++ b',' ∷ join_commas (u ∷ ts)

-- The deferred line also counts the items; that number is left out.
pub deferred_event : List QueueItem → Text → Event
unfolding sorted_set join_commas
deferred_event items reason = record {
  component = codes "hermes-ingest-worker";
  event = codes "ingest_queue";
  status = codes "deferred";
  reason = codes "unreachable: " ++ reason;
  agent = join_commas (sorted_set (map (λ i. i.agent) items));
  session_id = [];
}

-- `_drain_queue`, where `unreachable` is the reason that `_reachable` gives, if it gives one.
module _ (clock : TimeText) (env : Option Text) where
  unfoldable pub run_batch :
      ℕ → Option Text → (QueueItem → Outcome) → List QueueItem → Store → Store
  run_batch now (some reason) distill items s = log_event (deferred_event items reason) s
  run_batch now none distill items s = drain_items clock env now distill items s

  unfoldable pub drain_queue : ℕ → ℕ → Option Text → (QueueItem → Outcome) → Store → Store
  unfolding run_batch
  drain_queue per_tick now unreachable distill s =
      let (listed, items) = drain (some per_tick) s in
      if is_empty items then listed else run_batch now unreachable distill items listed
