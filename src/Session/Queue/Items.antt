-- ===== src/Session/Queue/Items.antt =====
-- `drain` of agents/shared/distill_queue.py: the items taken are queued, of different sessions, and
-- oldest first.
use mathlib.Core.List.{Perm}
use mathlib.Core.Path.{subst}
use ohmyboring.Prelude.{
  ℕ, ◌≡◌, refl, ap, ◌∙◌, Bool, true, false, ◌||◌, some, List, [], ◌∷◌, ◌++◌, arith, filter, any,
  take, All, All-weaken, Text, text_eq, text_eq_refl, text_eq_sym, Bool-cases, Option-cases, inl,
  inr, zero, suc, leb, length, min, length-take, take-append-drop, drop,
}
use ohmyboring.Prelude.Sorting.{
  insert_by, sort_by, All-sort_by, All-insert_by, IsSortedBy, sort_by-IsSortedBy, sort_by-perm,
}
use ohmyboring.Session.Markers.{safe_id}
use ohmyboring.Session.Queue.{
  QueueItem, QueueFile, Store, has_stem, readable_items, enqueue_time, drain, is_readable,
}
use ohmyboring.Session.Queue.Files.{IsDirectory, filter-IsDirectory}

abbrev pub item_key : QueueItem → Text
item_key item = safe_id item.session_id

abbrev Apart : Text → QueueItem → Type 0
Apart k i = text_eq k (item_key i) ≡ false

-- No two items are of one session.
abbrev pub AreApart : List QueueItem → Type 0
AreApart [] = Unit
AreApart (i ∷ items) = All (Apart (item_key i)) items × AreApart items

abbrev pub AllQueued : List QueueFile → List QueueItem → Type 0
AllQueued fs items = All (λ i. any (has_stem (item_key i)) fs ≡ true) items

All-take {ℓ κ} : {A : Type ℓ} (P : A → Type κ) (n : ℕ) (xs : List A) → All P xs → All P (take n xs)
All-take P zero xs h = tt
All-take P (suc n) [] h = tt
All-take P (suc n) (x ∷ xs) h = (h.0, All-take P n xs h.1)

AreApart-take : (n : ℕ) (items : List QueueItem) → AreApart items → AreApart (take n items)
AreApart-take zero items h = tt
AreApart-take (suc n) [] h = tt
AreApart-take (suc n) (i ∷ items) h =
    (All-take (Apart (item_key i)) n items h.0, AreApart-take n items h.1)

AreApart-insert_by :
    (x : QueueItem) (ys : List QueueItem)
    → All (Apart (item_key x)) ys
    → AreApart ys
    → AreApart (insert_by enqueue_time x ys)
unfolding insert_by
AreApart-insert_by x [] h hs = (tt, tt)
AreApart-insert_by x (y ∷ ys) h hs = elim (Bool-cases (leb (enqueue_time x) (enqueue_time y))) [
  | inl le ↦ rw le (h, hs)
  | inr gt ↦ rw gt (
    All-insert_by enqueue_time (Apart (item_key y)) x ys
        (text_eq_sym (item_key y) (item_key x) ∙ h.0) hs.0,
    AreApart-insert_by x ys h.1 hs.1,
  )
]

AreApart-sort_by : (items : List QueueItem) → AreApart items → AreApart (sort_by enqueue_time items)
unfolding sort_by
AreApart-sort_by [] h = tt
AreApart-sort_by (i ∷ items) h =
    AreApart-insert_by i (sort_by enqueue_time items)
      (All-sort_by enqueue_time (Apart (item_key i)) items h.0) (AreApart-sort_by items h.1)

or_false_right : (a b : Bool) → (a || b) ≡ false → b ≡ false
or_false_right a b h = ground arith

or_true_right : (a b : Bool) → b ≡ true → (a || b) ≡ true
or_true_right a b h = ground arith

absent-Apart :
    (k : Text) (fs : List QueueFile)
    → IsDirectory fs
    → any (has_stem k) fs ≡ false
    → All (Apart k) (readable_items fs)
unfolding readable_items
absent-Apart k [] d h = tt
absent-Apart k (f ∷ fs) d h =
    let rest = absent-Apart k fs d.2 (or_false_right (has_stem k f) _ h) in
    elim (Option-cases f.item) [
      | inl bad ↦ rw bad rest
      | inr (item, good) ↦ rw good (ap (text_eq k) (d.0 item good) ∙ ground arith, rest)
    ]

readable-AreApart : (fs : List QueueFile) → IsDirectory fs → AreApart (readable_items fs)
unfolding readable_items
readable-AreApart [] d = tt
readable-AreApart (f ∷ fs) d = elim (Option-cases f.item) [
  | inl bad ↦ rw bad (readable-AreApart fs d.2)
  | inr (item, good) ↦ rw good (
    absent-Apart (item_key item) fs d.2 (ap (λ t. any (has_stem t) fs) (d.0 item good) ∙ d.1),
    readable-AreApart fs d.2,
  )
]

readable-AllQueued : (fs : List QueueFile) → IsDirectory fs → AllQueued fs (readable_items fs)
unfolding readable_items
readable-AllQueued [] d = tt
readable-AllQueued (f ∷ fs) d =
    let rest =
      All-weaken (λ i h. or_true_right (has_stem (item_key i) f) (any (has_stem (item_key i)) fs) h)
        (readable_items fs) (readable-AllQueued fs d.2) in
    elim (Option-cases f.item) [
      | inl bad ↦ rw bad rest
      | inr (item, good) ↦
          let here : text_eq (item_key item) f.stem ≡ true =
            ap (λ t. text_eq t f.stem) (d.0 item good) ∙ text_eq_refl f.stem in
          rw good (ground (arith, here), rest)
    ]

readable_items-filter :
    (fs : List QueueFile) → readable_items (filter is_readable fs) ≡ readable_items fs
unfolding readable_items
readable_items-filter [] = refl
readable_items-filter (f ∷ fs) = ground (arith, readable_items-filter fs)

-- Setting the unreadable files aside leaves every item that parses in the queue.
readable-AllQueued-filter :
    (fs : List QueueFile) → IsDirectory fs → AllQueued (filter is_readable fs) (readable_items fs)
readable-AllQueued-filter fs d =
    subst (AllQueued (filter is_readable fs)) (readable_items-filter fs)
      (readable-AllQueued (filter is_readable fs) (filter-IsDirectory is_readable fs d))

sorted-AreApart :
    (fs : List QueueFile)
    → IsDirectory fs
    → AreApart (sort_by enqueue_time (readable_items fs))
      × AllQueued (filter is_readable fs) (sort_by enqueue_time (readable_items fs))
sorted-AreApart fs d = (
  AreApart-sort_by (readable_items fs) (readable-AreApart fs d),
  All-sort_by enqueue_time (λ i. any (has_stem (item_key i)) (filter is_readable fs) ≡ true)
      (readable_items fs) (readable-AllQueued-filter fs d),
)

-- What one `drain` with a limit takes from the directory `fs`: a front part of all items that
-- parse, in the order of their times.
pub record IsBatch (limit : ℕ) (fs : List QueueFile) (taken : List QueueItem) : Type 0 where
  pub later : List QueueItem
  pub all_items : Perm (taken ++ later) (readable_items fs)
  pub oldest_first : IsSortedBy enqueue_time (taken ++ later)
  pub count : length taken ≡ min limit (length (taken ++ later))
  pub apart : AreApart taken
  pub queued : AllQueued (filter is_readable fs) taken

-- The items taken are the oldest that parse, at most as many as the limit and fewer only if there
-- are no more, each is queued in what is left, and no two are of one session.
pub drain-IsBatch :
    (limit : ℕ) (s : Store) → IsDirectory s.queue → IsBatch limit s.queue (drain (some limit) s).1
unfolding drain
drain-IsBatch limit s d =
    let sorted = sort_by enqueue_time (readable_items s.queue) in
    let parts = take-append-drop limit sorted in
    record {
      later = drop limit sorted;
      all_items = rw parts (sort_by-perm enqueue_time (readable_items s.queue));
      oldest_first = rw parts (sort_by-IsSortedBy enqueue_time (readable_items s.queue));
      count = rw parts (length-take limit sorted);
      apart = AreApart-take limit sorted (sorted-AreApart s.queue d).0;
      queued =
          All-take (λ i. any (has_stem (item_key i)) (filter is_readable s.queue) ≡ true) limit
            sorted (sorted-AreApart s.queue d).1;
    }
