-- ===== src/Session/Examples.antt =====
-- Small runs of the marker files, the queue and the worker, and the theorems at concrete stores.
use ohmyboring.Prelude.{
  ℕ, ◌≡◌, refl, sym, not, true, false, none, some, List, [], ◌∷◌, arith, Text, codes, update,
}
use ohmyboring.Prelude.Int.{pos}
use ohmyboring.Prelude.Decimal.{show_nat, show_nat-IsSolid, parse_int, strip}
use ohmyboring.Prelude.Sorting.{sort_by}
use ohmyboring.Session.Markers.{
  TimeText, MarkDir, no_marks, safe_id, retry_count, is_dead, retry_max_attempts, mark_retries,
  mark_retry, retry_marks, mark_pending, pending_marks, mark_done, done_marks, read_retry_count,
}
use ohmyboring.Session.Markers.Retry.{mark_retries_alive, mark_retries_spent}
use ohmyboring.Session.Queue.{
  QueueItem, Store, is_queued, enqueue, write_item, put_file, resume_since, parse_stem, drain,
  remove, unlink, readable_items, bad_stems,
}
use ohmyboring.Session.Queue.Items.{IsBatch, drain-IsBatch}
use ohmyboring.Session.Worker.{
  Outcome, refused, raised, drain_one, drain_queue, drain_items, fail, succeed, settle,
}
use ohmyboring.Session.Worker.Consistent.{IsConsistent}
use ohmyboring.Session.Worker.Runs.{here, next, hook, tick, empty_store, Reach-IsConsistent}
use ohmyboring.Session.Worker.Resume.{is_last, Settled, drain_one-Settled}
use ohmyboring.Session.Worker.Offer.{is_turned_away, Offered, enqueue-Offered}
use ohmyboring.Session.Worker.Budget.{IsTrying, drain_run, drain_run_below, drain_run_spent}

abbrev clock : TimeText
clock = record { show_time = show_nat; show_time_solid = show_nat-IsSolid }

abbrev item_at : Text → ℕ → QueueItem
item_at sid now = record {
  session_id = sid;
  agent = codes "codex";
  origin = codes "company";
  repo = codes "kb";
  text = codes "turns";
  enqueued_at = now;
  since = none;
}

abbrev first : QueueItem
first = item_at (codes "s-1") 7

abbrev second : QueueItem
second = item_at (codes "s/2") 5

abbrev queued_store : Store
queued_store = (enqueue clock 8 second (enqueue clock 7 first empty_store).0).0

-- Names that the tests below compute with.
program : Unit {0}
unfolding enqueue write_item put_file mark_pending pending_marks safe_id show_nat drain
    readable_items bad_stems update sort_by drain_queue drain_items drain_one settle fail succeed
    remove unlink mark_retry retry_marks mark_done done_marks resume_since parse_stem
    retry_max_attempts read_retry_count parse_int strip
program = tt

drain_oldest : (drain (some 1) queued_store).1 ≡ second ∷ []
unfolding program
drain_oldest = refl

safe_id-slash : safe_id (codes "s/2") ≡ codes "s2"
unfolding program
safe_id-slash = refl

two_tries : retry_max_attempts (some (codes "2")) ≡ 2
unfolding program
two_tries = refl

-- The default limit is 5, and an answer that is no number does not change it.
default_tries : retry_max_attempts (some (codes "many")) ≡ 5
unfolding program
default_tries = refl

abbrev failures : List (ℕ × Text)
failures = (1, codes "engine down") ∷ (2, codes "engine down") ∷ []

abbrev no_dir : MarkDir
no_dir = λ k. no_marks

mark_retries_spent_example :
    (is_dead (codes "a") (mark_retries clock (some (codes "2")) (codes "a") failures no_dir) ≡ true)
    × ((mark_retries clock
          (some (codes "2"))
          (codes "a")
          failures
          no_dir
          (safe_id (codes "a"))).retry
        ≡ none)
    × ((mark_retries clock
          (some (codes "2"))
          (codes "a")
          failures
          no_dir
          (safe_id (codes "a"))).pending
        ≡ none)
    × ((mark_retries clock (some (codes "2")) (codes "a") failures no_dir (safe_id (codes "a"))).ts
        ≡ none)
mark_retries_spent_example =
    mark_retries_spent clock (some (codes "2")) (codes "a") failures no_dir refl (sym two_tries)

mark_retries_alive_example :
    (retry_count (codes "a") (mark_retries clock (some (codes "many")) (codes "a") failures no_dir)
      ≡ pos 2)
    × (is_dead (codes "a") (mark_retries clock (some (codes "many")) (codes "a") failures no_dir)
        ≡ is_dead (codes "a") no_dir)
mark_retries_alive_example =
    mark_retries_alive clock (some (codes "many")) (codes "a") failures no_dir refl
      (omega (arith, default_tries))

queued_store-IsConsistent : IsConsistent queued_store
queued_store-IsConsistent =
    Reach-IsConsistent {clock = clock} {env = none}
      (next (next here (hook 7 first)) (hook 8 second))

Reach-IsConsistent_example :
    IsConsistent
      (drain_queue clock none 1 9 none (λ i. raised (codes "bad model output")) queued_store)
Reach-IsConsistent_example = Reach-IsConsistent {clock = clock} {env = none} (
    next (next (next here (hook 7 first)) (hook 8 second))
      (tick 1 9 none (λ i. raised (codes "bad model output"))))

first_waits : is_queued (codes "s-1") queued_store ≡ true
unfolding program
first_waits = refl

first_fresh : (queued_store.marks (safe_id (codes "s-1"))).retry ≡ none
unfolding program
first_fresh = refl

drain-IsBatch_example : IsBatch 1 queued_store.queue (drain (some 1) queued_store).1
drain-IsBatch_example = drain-IsBatch 1 queued_store queued_store-IsConsistent.directory

drain_one-Settled_example :
    Settled 9 first queued_store
      (drain_one clock (some (codes "1")) 9 refused first queued_store).0
      (drain_one clock (some (codes "1")) 9 refused first queued_store).1
      (is_last (some (codes "1")) (codes "s-1") queued_store)
      refused
drain_one-Settled_example =
    drain_one-Settled clock (some (codes "1")) 9 first queued_store queued_store-IsConsistent
      first_waits refused

-- With one attempt a session dies of its first failure.
first_is_last : is_last (some (codes "1")) (codes "s-1") queued_store ≡ true
unfolding program
first_is_last = refl

-- The oldest session is dead after one failure.
abbrev dead_store : Store
dead_store = drain_queue clock (some (codes "1")) 1 9 none (λ i. refused) queued_store

dead_store-IsConsistent : IsConsistent dead_store
dead_store-IsConsistent =
    Reach-IsConsistent {clock = clock} {env = some (codes "1")}
      (next (next (next here (hook 7 first)) (hook 8 second)) (tick 1 9 none (λ i. refused)))

second_turned_away : is_turned_away second dead_store ≡ true
unfolding program
second_turned_away = refl

enqueue-Offered_example :
    ((enqueue clock 10 second dead_store).1 ≡ not (is_turned_away second dead_store))
    × Offered second dead_store
        (enqueue clock 10 second dead_store).0
        (enqueue clock 10 second dead_store).1
enqueue-Offered_example = enqueue-Offered clock 10 second dead_store dead_store-IsConsistent

abbrev attempts : List (ℕ × Outcome)
attempts = (9, refused) ∷ (10, raised (codes "KeyError")) ∷ []

drain_run_spent_example :
    (is_dead (codes "s-1") (drain_run clock (some (codes "2")) first attempts queued_store).marks
      ≡ true)
    × (is_queued (codes "s-1") (drain_run clock (some (codes "2")) first attempts queued_store)
        ≡ false)
drain_run_spent_example =
    drain_run_spent clock (some (codes "2")) first attempts queued_store queued_store-IsConsistent
      first_waits first_fresh (tt, (tt, tt)) (sym two_tries)

drain_run_below_example :
    IsTrying clock
      (some (codes "many"))
      first
      2
      (drain_run clock (some (codes "many")) first attempts queued_store)
drain_run_below_example =
    drain_run_below clock (some (codes "many")) first attempts queued_store
      queued_store-IsConsistent first_waits first_fresh (tt, (tt, tt))
      (omega (arith, default_tries))
