-- ===== src/Session/Queue.antt =====
-- agents/shared/distill_queue.py: the queue directory beside the markers. A JSON file of the queue
-- is its name's stem and the item that parsing it gives, `none` if it does not parse. The list of
-- files is in the order in which the directory lists them. What the functions print is left out.
pub mod Files
pub mod Items
use ohmyboring.Prelude.{
  ℕ, Bool, true, false, not, Option, none, some, List, [], ◌∷◌, ◌++◌, if◌then◌else◌, filter, any,
  take, Text, codes, text_eq,
}
use ohmyboring.Prelude.Sorting.{sort_by}
use ohmyboring.Session.Markers.{
  TimeText, MarkDir, safe_id, is_dead, dead_time, done_time, mark_pending,
}

pub record QueueItem : Type 0 where
  pub session_id : Text
  pub agent : Text
  pub origin : Text
  pub repo : Text
  pub text : Text
  pub enqueued_at : ℕ
  pub since : Option ℕ

pub record QueueFile : Type 0 where
  pub stem : Text
  pub item : Option QueueItem

-- A line of the event log, with the fields that the queue and its worker write.
pub record Event : Type 0 where
  pub component : Text
  pub event : Text
  pub status : Text
  pub reason : Text
  pub agent : Text
  pub session_id : Text

-- `set_aside` holds the stems of the files renamed to `.bad`.
pub record Store : Type 0 where
  pub marks : MarkDir
  pub queue : List QueueFile
  pub set_aside : List Text
  pub events : List Event

abbrev pub has_stem : Text → QueueFile → Bool
has_stem stem file = text_eq stem file.stem

abbrev pub is_queued : Text → Store → Bool
is_queued session_id s = any (has_stem (safe_id session_id)) s.queue

pub dead_event : QueueItem → Text → Text → Event
dead_event item status reason = record {
  component = codes "distill-queue";
  event = codes "distill_queue_dead";
  status = status;
  reason = reason;
  agent = item.agent;
  session_id = item.session_id;
}

-- `os.replace` onto the item's path: a file of that name is replaced where it stands.
unfoldable pub put_file : QueueFile → List QueueFile → List QueueFile
put_file file [] = file ∷ []
put_file file (f ∷ fs) =
    let rest = put_file file fs in if text_eq file.stem f.stem then file ∷ fs else f ∷ rest

unfoldable pub unlink : Text → List QueueFile → List QueueFile
unlink stem files = filter (λ f. not (text_eq stem f.stem)) files

-- The item that the file of a stem holds, if there is one and it parses.
unfoldable pub parse_stem : Text → List QueueFile → Option QueueItem
parse_stem stem [] = none
parse_stem stem (f ∷ fs) =
    let rest = parse_stem stem fs in if text_eq stem f.stem then f.item else rest

unfoldable pub remove : Text → Store → Store
remove session_id s = record s { queue = unlink (safe_id session_id) s.queue }

abbrev pub log_event : Event → Store → Store
log_event e s = record s { events = s.events ++ e ∷ [] }

module _ (clock : TimeText) where
  -- The part of `enqueue` behind its test for a dead session.
  unfoldable pub write_item : ℕ → QueueItem → Store → Store
  unfolding put_file
  write_item now item s = record s {
    marks = mark_pending clock now item.session_id s.marks;
    queue = put_file (record { stem = safe_id item.session_id; item = some item }) s.queue;
  }

  -- A dead session is offered again only with a tail that starts after its death.
  unfoldable pub enqueue_dead : ℕ → QueueItem → Option ℕ → Store → Store × Bool
  enqueue_dead now item none s =
      (log_event (dead_event item (codes "skipped") (codes "dead_no_new_turns")) s, false)
  enqueue_dead now item (some since) s = (
    write_item now item
        (log_event (dead_event item (codes "requeued") (codes "dead_requeued_tail")) s),
    true,
  )

  unfoldable pub enqueue : ℕ → QueueItem → Store → Store × Bool
  enqueue now item s =
      if is_dead item.session_id s.marks
      then enqueue_dead now item item.since s
      else (write_item now item s, true)

abbrev pub since_of : Option QueueItem → Option ℕ → Option ℕ
since_of none upto = upto
since_of (some item) upto = item.since

unfoldable pub resume_since : Text → Store → Option ℕ
resume_since session_id s = elim (dead_time session_id s.marks) [
  | some died ↦ some died
  | none ↦
      if is_queued session_id s
      then since_of (parse_stem (safe_id session_id) s.queue) (done_time session_id s.marks)
      else done_time session_id s.marks
]

abbrev pub is_readable : QueueFile → Bool
is_readable f = elim f.item [ none ↦ false | some item ↦ true ]

unfoldable pub readable_items : List QueueFile → List QueueItem
readable_items [] = []
readable_items (f ∷ fs) =
    let rest = readable_items fs in elim f.item [ none ↦ rest | some item ↦ item ∷ rest ]

unfoldable pub bad_stems : List QueueFile → List Text
bad_stems [] = []
bad_stems (f ∷ fs) =
    let rest = bad_stems fs in elim f.item [ none ↦ f.stem ∷ rest | some item ↦ rest ]

abbrev pub enqueue_time : QueueItem → ℕ
enqueue_time item = item.enqueued_at

unfoldable pub drain : Option ℕ → Store → Store × List QueueItem
unfolding readable_items bad_stems
drain limit s =
    let items = sort_by enqueue_time (readable_items s.queue) in
    (
      record s { queue = filter is_readable s.queue; set_aside = s.set_aside ++ bad_stems s.queue },
      elim limit [ none ↦ items | some n ↦ take n items ],
    )
