-- ===== src/Distill.antt =====
-- The distillation of one session, src/ohmyboring/distill: the nodes and the routing of graph.py and
-- the judge of polish.py. What the model answers and what regular expressions find are the fields of
-- `Model`; events and printing are left out.
pub mod Polish
pub mod Ends
pub mod Examples
use ohmyboring.Prelude.{
  ℕ, zero, suc, Bool, true, false, not, ◌&&◌, ◌||◌, Option, none, some, List, [], ◌∷◌, ◌++◌,
  if◌then◌else◌, filter, length, ltb, leb, ◌==◌, Text, newline, is_empty,
}
use ohmyboring.Prelude.Decimal.{strip}
use ohmyboring.Remember.Tokens.{is_member}

-- The claims are (subject, predicate, value, kind, confidence).
pub record Note : Type 0 where
  pub title : Text
  pub body : Text
  pub tags : List Text
  pub tools : List Text
  pub concepts : List Text
  pub claims : List (Text × Text × Text × Text × Text)

-- `Polished`, and the classes of `Kept`. Of a reason only what it names is kept.
pub data PolishResult : Type 0 where
  polished : Text → PolishResult
  lost_facts : List Text → PolishResult
  missed_shape no_better no_body too_long already_readable : PolishResult

pub record Model (Parsed : Type 0) : Type 0 where
  -- The first answer, and whether its language is to be asked for again.
  pub draft_answer : Option Parsed × Bool
  pub is_skip : Parsed → Bool
  -- The second answer, where it is in the language that is wanted.
  pub language_answer : Option Parsed
  pub prepare_note : Parsed → Option Note
  -- The completed note, and whether its report is ok.
  pub verify_note : Note → Note × Bool
  pub repair_answer : Note → Option Parsed
  pub polish_answer : Text → Option PolishResult → Option Text
  pub facts : Text → List Text
  pub body_signals : Text → ℕ
  pub has_shape : Text → Bool
  pub call_remember : Note → Bool

abbrev pub max_polished_chars : ℕ
max_polished_chars = 1500

pub data VerifierStatus : Type 0 where
  pass repaired_status : VerifierStatus

-- `remembered` holds the notes that were handed to the engine.
pub record DistillState (Parsed : Type 0) : Type 0 where
  pub parsed : Option Parsed
  pub wants_language_retry : Bool
  pub note : Option Note
  pub verified : Bool
  pub verifier_status : VerifierStatus
  pub polish_outcome : Option PolishResult
  pub repaired : Option Parsed
  pub repaired_note : Option Note
  pub repaired_verified : Bool
  pub ok : Bool
  pub remembered : List Note

pub data Node : Type 0 where
  draft skip retry_language prepare verify polish polish_retry repair_call repair_prepare : Node
  repair_verify repair_passed repair_failed give_up remember : Node

abbrev pub is_retryable : Option PolishResult → Bool
is_retryable (some (lost_facts missing)) = true
is_retryable (some missed_shape) = true
is_retryable _ = false

module _ {Parsed : Type 0} (model : Model Parsed) where
  open model use {
    draft_answer, is_skip, language_answer, prepare_note, verify_note, repair_answer, polish_answer,
    facts, body_signals, has_shape, call_remember,
  }

  unfoldable pub judge : Text → Option Text → PolishResult
  judge original none = no_body
  judge original (some rewritten) =
      let missing = filter (λ f. not (is_member f (facts rewritten))) (facts original) in
      if is_empty (strip rewritten)
      then no_body
      else if ltb max_polished_chars (length rewritten) && ltb (length original) (length rewritten)
      then too_long
      else if not (is_empty missing)
      then lost_facts missing
      else if leb (body_signals original) (body_signals rewritten)
      then no_better
      else if not (has_shape rewritten)
      then missed_shape
      else polished (strip rewritten ++ newline ∷ [])

  unfoldable pub polish_body : Text → Option PolishResult → PolishResult
  polish_body body retry_reason =
      if body_signals body == 0
      then already_readable
      else judge body (polish_answer body retry_reason)

  abbrev pub with_body : Note → PolishResult → Note
  with_body note (polished body) = record note { body = body }
  with_body note _ = note

  abbrev pub State : Type 0
  State = DistillState Parsed

  abbrev pub polish_run : Option Note → Option PolishResult → State → State
  polish_run none retry_reason s = s
  polish_run (some note) retry_reason s =
      let result = polish_body note.body retry_reason in
      record s { note = some (with_body note result); polish_outcome = some result }

  abbrev pub verify_run : Option Note → State → State
  verify_run none s = s
  verify_run (some note) s =
      let (checked, fine) = verify_note note in record s { note = some checked; verified = fine }

  abbrev pub repair_verify_run : Option Note → State → State
  repair_verify_run none s = s
  repair_verify_run (some note) s =
      let (checked, fine) = verify_note note in
      record s { repaired_note = some checked; repaired_verified = fine }

  abbrev pub prepared : Option Parsed → Option Note
  prepared none = none
  prepared (some parsed) = prepare_note parsed

  abbrev pub repaired_by : Option Note → Option Parsed
  repaired_by none = none
  repaired_by (some note) = repair_answer note

  abbrev pub retried : Option Parsed → Option Parsed → Option Parsed
  retried parsed none = parsed
  retried parsed (some retry) = some retry

  abbrev pub remember_run : Option Note → State → State
  remember_run none s = s
  remember_run (some note) s = record s {
    ok = call_remember note;
    remembered = s.remembered ++ note ∷ [];
  }

  -- What a node returns, put into the state. A node that reads a note that is not there raises; the
  -- routing never gets there.
  unfoldable pub apply : Node → State → State
  apply draft s = record s { parsed = draft_answer.0; wants_language_retry = draft_answer.1 }
  apply skip s = record s { ok = true }
  apply retry_language s = record s { parsed = retried s.parsed language_answer }
  apply prepare s = record s { note = prepared s.parsed }
  apply verify s = verify_run s.note s
  apply polish s = polish_run s.note none s
  apply polish_retry s = polish_run s.note s.polish_outcome s
  apply repair_call s = record s { repaired = repaired_by s.note }
  apply repair_prepare s = record s { repaired_note = prepared s.repaired }
  apply repair_verify s = repair_verify_run s.repaired_note s
  apply repair_passed s = record s { note = s.repaired_note; verifier_status = repaired_status }
  apply repair_failed s = record s { ok = false }
  apply give_up s = record s { ok = false }
  apply remember s = remember_run s.note s

  abbrev pub after_draft : Option Parsed → Bool → Option Node
  after_draft none wants_retry = none
  after_draft (some parsed) wants_retry =
      if is_skip parsed
      then some skip
      else if wants_retry
      then some retry_language
      else some prepare

  abbrev pub unless_none : Option Note → Node → Option Node → Option Node
  unless_none none node otherwise = otherwise
  unless_none (some note) node otherwise = some node

  abbrev pub after_repair_call : Option Parsed → Node
  after_repair_call none = give_up
  after_repair_call (some repaired) = if is_skip repaired then give_up else repair_prepare

  -- The edges of the graph, where `none` is END.
  unfoldable pub next : Node → State → Option Node
  next draft s = after_draft s.parsed s.wants_language_retry
  next retry_language s = some prepare
  next prepare s = unless_none s.note verify none
  next verify s = if s.verified then some polish else some repair_call
  next polish s = if is_retryable s.polish_outcome then some polish_retry else some remember
  next polish_retry s = some remember
  next repair_call s = some (after_repair_call s.repaired)
  next repair_prepare s = unless_none s.repaired_note repair_verify (some give_up)
  next repair_verify s = if s.repaired_verified then some repair_passed else some repair_failed
  next repair_passed s = some polish
  next skip s = none
  next repair_failed s = none
  next give_up s = none
  next remember s = none

  -- The run of the graph from a node, on fuel.
  unfoldable pub run : ℕ → Node → State → Option State
  run zero node s = none
  run (suc fuel) node s =
      let after = apply node s in
      elim (next node after) [ none ↦ some after | some later ↦ run fuel later after ]

  abbrev pub start : State
  start = record {
    parsed = none;
    wants_language_retry = false;
    note = none;
    verified = false;
    verifier_status = pass;
    polish_outcome = none;
    repaired = none;
    repaired_note = none;
    repaired_verified = false;
    ok = false;
    remembered = [];
  }

  -- No way through the graph has more than eleven nodes.
  abbrev pub longest : ℕ
  longest = 11

  unfoldable pub distill_and_remember : Option State
  distill_and_remember = run longest draft start
