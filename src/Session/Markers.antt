-- ===== src/Session/Markers.antt =====
-- agents/shared/markers.py. The marker files of one session are a record, and the directory is a
-- function from file-name stems. A time is a number of clock ticks, and `now` is the clock's
-- answer; every failure of the file system itself is left out.
pub mod Retry
use ohmyboring.Prelude.{
  ℕ, zero, suc, ◌+◌, max, Bool, true, false, ◌||◌, ◌&&◌, Option, none, some, List, [], ◌∷◌, ◌++◌,
  ltb, leb, ◌==◌, if◌then◌else◌, filter, Text, codes, newline, is_empty, split_lines, update,
}
use ohmyboring.Prelude.Int.{ℤ, pos, negsuc, suc_ℤ, leb_ℤ}
use ohmyboring.Prelude.Decimal.{strip, parse_int, show_nat, IsSolid}

-- `str` of a time, which Python prints without white space.
pub record TimeText : Type 0 where
  pub show_time : ℕ → Text
  pub show_time_solid : (t : ℕ) → IsSolid (show_time t)

pub record File : Type 0 where
  pub text : Text
  pub mtime : ℕ

pub record Marks : Type 0 where
  pub ts : Option File
  pub pending : Option File
  pub retry : Option File
  pub dead : Option File

pub data Mark : Type 0 where
  ts_mark pending_mark retry_mark dead_mark : Mark

abbrev pub MarkDir : Type 0
MarkDir = Text → Marks

abbrev pub no_marks : Marks
no_marks = record { ts = none; pending = none; retry = none; dead = none }

-- `_retry_max_attempts`, from the value of its environment variable.
abbrev pub default_retry_max_attempts : ℕ
default_retry_max_attempts = 5

abbrev at_least_one : ℤ → ℕ
at_least_one (pos n) = max 1 n
at_least_one (negsuc n) = 1

unfoldable pub retry_max_attempts : Option Text → ℕ
retry_max_attempts none = default_retry_max_attempts
retry_max_attempts (some raw) =
    if is_empty raw
    then default_retry_max_attempts
    else elim (parse_int raw) [ none ↦ default_retry_max_attempts | some n ↦ at_least_one n ]

is_id_char : ℕ → Bool
is_id_char c =
    (leb b'A' c && leb c b'Z')
    || (leb b'a' c && leb c b'z')
    || (leb b'0' c && leb c b'9')
    || c == b'_'
    || c == b'-'

unfoldable pub safe_id : Text → Text
unfolding is_id_char
safe_id session_id =
    let kept = filter is_id_char session_id in if is_empty kept then codes "nosession" else kept

put : Mark → Option File → Marks → Marks
put ts_mark f m = record m { ts = f }
put pending_mark f m = record m { pending = f }
put retry_mark f m = record m { retry = f }
put dead_mark f m = record m { dead = f }

remove_all : List Mark → Marks → Marks
unfolding put
remove_all [] m = m
remove_all (k ∷ ks) m = remove_all ks (put k none m)

-- `_transition_marker`: the target is written before the others are removed.
transition_marker : Mark → List Mark → File → Marks → Marks
unfolding put remove_all
transition_marker target cleanup file m = remove_all cleanup (put target (some file) m)

second_line : List Text → Option Text
second_line (a ∷ b ∷ ls) = some b
second_line ls = none

abbrev count_or_one : Option ℤ → ℤ
count_or_one none = pos 1
count_or_one (some n) = n

count_in : Option Text → ℤ
count_in none = pos 1
count_in (some line) = count_or_one (parse_int (strip line))

-- `_read_retry_count`: no file or an empty one counts 0, and one with no second line counts 1.
unfoldable pub read_retry_count : Option File → ℤ
unfolding second_line count_in
read_retry_count none = pos 0
read_retry_count (some file) =
    let content = strip file.text in
    if is_empty content then pos 0 else count_in (second_line (split_lines content))

pub show_int : ℤ → Text
show_int (pos n) = show_nat n
show_int (negsuc n) = b'-' ∷ show_nat (suc n)

-- Each function below reads and writes the files of one session.
abbrev pub exists {ℓ} : {A : Type ℓ} → Option A → Bool
exists none = false
exists (some x) = true

abbrev pub fresh : Option File → Option ℕ → ℕ → Bool
fresh none ttl now = false
fresh (some file) none now = true
fresh (some file) (some ttl) now = ltb now (file.mtime + ttl)

abbrev pub mtime_of : Option File → Option ℕ
mtime_of none = none
mtime_of (some file) = some file.mtime

module _ (session_id : Text) (dir : MarkDir) where
  abbrev pub retry_count : ℤ
  retry_count = read_retry_count (dir (safe_id session_id)).retry

  abbrev pub is_done : Bool
  is_done = exists (dir (safe_id session_id)).ts

  abbrev pub is_dead : Bool
  is_dead = exists (dir (safe_id session_id)).dead

  abbrev pub dead_time : Option ℕ
  dead_time = mtime_of (dir (safe_id session_id)).dead

  abbrev pub done_time : Option ℕ
  done_time = mtime_of (dir (safe_id session_id)).ts

  abbrev pub is_pending : Option ℕ → ℕ → Bool
  is_pending ttl now = fresh (dir (safe_id session_id)).pending ttl now

  abbrev pub is_retry : Option ℕ → ℕ → Bool
  is_retry ttl now = fresh (dir (safe_id session_id)).retry ttl now

module _ (clock : TimeText) where
  open clock use {show_time}

  unfoldable pub done_marks : ℕ → Option ℕ → Marks → Marks
  unfolding transition_marker
  done_marks now upto =
      transition_marker ts_mark (pending_mark ∷ retry_mark ∷ dead_mark ∷ [])
        (record { text = show_time now; mtime = elim upto [ none ↦ now | some t ↦ t ] })

  unfoldable pub pending_marks : ℕ → Marks → Marks
  unfolding transition_marker
  pending_marks now =
      transition_marker pending_mark (ts_mark ∷ dead_mark ∷ [])
        (record { text = show_time now; mtime = now })

  -- The attempt that failed now is one more than the file says.
  unfoldable pub retry_marks : Option Text → ℕ → Text → Marks → Marks
  unfolding transition_marker show_int
  retry_marks env now reason m =
      let attempts = suc_ℤ (read_retry_count m.retry) in
      if leb_ℤ (pos (retry_max_attempts env)) attempts
      then transition_marker dead_mark (ts_mark ∷ pending_mark ∷ retry_mark ∷ [])
          (record {
            text = show_time now ++ newline ∷ (show_int attempts ++ newline ∷ reason);
            mtime = now;
          })
          m
      else transition_marker retry_mark (ts_mark ∷ pending_mark ∷ [])
          (record { text = show_time now ++ newline ∷ show_int attempts; mtime = now }) m

  unfoldable pub mark_done : ℕ → Text → Option ℕ → MarkDir → MarkDir
  mark_done now session_id upto dir =
      let key = safe_id session_id in update dir key (done_marks now upto (dir key))

  unfoldable pub mark_pending : ℕ → Text → MarkDir → MarkDir
  mark_pending now session_id dir =
      let key = safe_id session_id in update dir key (pending_marks now (dir key))

  unfoldable pub mark_retry : Option Text → ℕ → Text → Text → MarkDir → MarkDir × ℤ
  mark_retry env now session_id reason dir =
      let key = safe_id session_id in
      (
        update dir key (retry_marks env now reason (dir key)),
        suc_ℤ (read_retry_count (dir key).retry),
      )

  -- The failures of one session in a row, each at its time and with its reason.
  unfoldable pub mark_retries : Option Text → Text → List (ℕ × Text) → MarkDir → MarkDir
  unfolding mark_retry
  mark_retries env session_id [] dir = dir
  mark_retries env session_id ((now, reason) ∷ later) dir =
      mark_retries env session_id later (mark_retry env now session_id reason dir).0
