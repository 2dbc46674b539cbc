-- ===== src/Remember/Run/Safe.antt =====
-- What `run_write` of src/ohmyboring/remember/writer.py leaves when it refuses.
use ohmyboring.Prelude.{
  Bool, true, false, Option, none, some, List, [], ◌∷◌, ◌++◌, ◌≡◌, refl, inl, inr, arith,
  if◌then◌else◌, Text, is_empty, Bool-cases,
}
use ohmyboring.Result.{Either, ok, err}
use ohmyboring.Remember.Note.{RememberNote}
use ohmyboring.Remember.Match.{DuplicateMatch}
use ohmyboring.Remember.Dedup.{Verdict, stored, superseded, skipped}
use ohmyboring.Remember.Tables.{Db}
use ohmyboring.Remember.Projection.{Stats}
use ohmyboring.Remember.Request.{Arguments, Failure, parse_judge, parse_supersedes}
use ohmyboring.Remember.Writer.{
  WriteOutcome, refused, dedup_decision, World, WriterDeps, log, judge_refusal, owner_refusal,
  supersedes_gate, refused_targets, invalid_request, then_pii, then_supersedes, gate,
}
use ohmyboring.Remember.WikiId.{file_name}
use ohmyboring.Remember.Render.{render_wiki_note}
use ohmyboring.Remember.Run.{
  Plan, answer_stored, after_ingest, store_at, store_if, store_new_note, skipped_answer, act,
  after_search, decide_and_write, after_gate, is_bare, with_judge, with_note, run_write,
  empty_note_refusal,
}

abbrev pub is_refused : WriteOutcome → Bool
is_refused (refused code message) = true
is_refused _ = false

abbrev pub Unchanged : World → World → Type 0
Unchanged w v = (v.db ≡ w.db) × (v.files ≡ w.files)

supersedes_gate-Unchanged :
    (is_owner : Bool) (parsed : Either (List Text) Failure) (w : World)
    → Unchanged w (supersedes_gate is_owner parsed w).1
unfolding supersedes_gate owner_refusal log
supersedes_gate-Unchanged is_owner (err why) w = (refl, refl)
supersedes_gate-Unchanged is_owner (ok paths) w =
    elim (Bool-cases (is_empty (refused_targets is_owner paths w.db))) [
      | inl none_refused ↦ rw none_refused (refl, refl)
      | inr some_refused ↦ rw some_refused (refl, refl)
    ]

module _ (deps : WriterDeps) where
  gate-Unchanged :
      (args : Arguments) (note : RememberNote) (judge : Option Text) (w : World)
      → Unchanged w (gate deps args note judge w).1
  unfolding gate
  gate-Unchanged args note judge w = decided (judge_refusal deps.is_owner note judge)
    where
      passed :
          (r : Either (List Text) WriteOutcome × World)
          → Unchanged w r.1
          → Unchanged w (then_pii deps note r).1
      passed (err refusal, v) h = h
      passed (ok supersedes, v) h = h

      decided :
          (refusal : Option WriteOutcome) → Unchanged w (then_supersedes deps args note refusal w).1
      decided (some refusal) = (refl, refl)
      decided none =
          passed (supersedes_gate deps.is_owner (parse_supersedes args) w)
            (supersedes_gate-Unchanged deps.is_owner (parse_supersedes args) w)

  after_ingest-answers :
      (plan : Plan) (wiki_id : Text) (w : World) (r : Either Stats Text × Db)
      → is_refused (after_ingest deps plan wiki_id w r).0 ≡ false
  unfolding answer_stored
  after_ingest-answers plan wiki_id w (ok stats, db) = refl
  after_ingest-answers plan wiki_id w (err why, db) = refl

  store_at-answers :
      (plan : Plan) (wiki_id : Text) (w : World)
      → is_refused (store_at deps plan wiki_id w).0 ≡ false
  unfolding store_at
  store_at-answers plan wiki_id w =
      let front = record plan.note.front { date = deps.today } in
      let content = render_wiki_note deps.safe_dump wiki_id front plan.note.body in
      let filed =
        log (dedup_decision plan.verdict plan.found)
          (record w { files = w.files ++ (file_name wiki_id, content) ∷ [] }) in
      after_ingest-answers plan wiki_id filed _

  store_if-answers :
      (plan : Plan) (wiki_id : Option Text) (w : World)
      → is_refused (store_if deps plan wiki_id w).0 ≡ false
  store_if-answers plan none w = refl
  store_if-answers plan (some wiki_id) w = store_at-answers plan wiki_id w

  store_new_note-answers :
      (plan : Plan) (w : World) → is_refused (store_new_note deps plan w).0 ≡ false
  unfolding store_new_note
  store_new_note-answers plan w = store_if-answers plan _ w

  act-answers :
      (note : RememberNote) (judge : Option Text) (supersedes : List Text)
      (decision : Verdict × Option DuplicateMatch) (w : World)
      → is_refused (act deps note judge supersedes decision w).0 ≡ false
  unfolding act skipped_answer
  act-answers note judge supersedes (skipped, some found) w = refl
  act-answers note judge supersedes (skipped, none) w = refl
  act-answers note judge supersedes (superseded, none) w = refl
  act-answers note judge supersedes (superseded, some found) w = store_new_note-answers _ w
  act-answers note judge supersedes (stored, found) w = store_new_note-answers _ w

  decide_and_write-answers :
      (note : RememberNote) (judge : Option Text) (supersedes : List Text) (w : World)
      → is_refused (decide_and_write deps note judge supersedes w).0 ≡ false
  unfolding decide_and_write
  decide_and_write-answers note judge supersedes w = searched _
    where
      searched :
          (found : Option (Either (Option DuplicateMatch) Text))
          → is_refused (after_search deps note judge supersedes found w).0 ≡ false
      searched none = refl
      searched (some (err why)) = refl
      searched (some (ok found)) = act-answers note judge supersedes _ w

  after_gate-refused :
      (judge : Option Text) (w : World) (r : Either (RememberNote × List Text) WriteOutcome × World)
      → Unchanged w r.1
      → is_refused (after_gate deps judge r).0 ≡ true
      → Unchanged w (after_gate deps judge r).1
  after_gate-refused judge w (err refusal, v) h hr = h
  after_gate-refused judge w (ok (note, supersedes), v) h hr =
      let yes = decide_and_write-answers note judge supersedes v in absurd (ground (arith, yes, hr))

  with_judge-refused :
      (args : Arguments) (note : RememberNote) (judge : Either (Option Text) Failure) (w : World)
      → is_refused (with_judge deps args note judge w).0 ≡ true
      → Unchanged w (with_judge deps args note judge w).1
  with_judge-refused args note (err why) w hr = (refl, refl)
  with_judge-refused args note (ok judge) w hr =
      after_gate-refused judge w (gate deps args note judge w) (gate-Unchanged args note judge w) hr

  with_note-refused :
      (is_mcp : Bool) (args : Arguments) (note : Either RememberNote Failure) (w : World)
      → is_refused (with_note deps is_mcp args note w).0 ≡ true
      → Unchanged w (with_note deps is_mcp args note w).1
  with_note-refused is_mcp args (err why) w hr = (refl, refl)
  with_note-refused is_mcp args (ok note) w hr =
      unless (is_bare deps is_mcp note) (with_judge deps args note (parse_judge args) w)
        (with_judge-refused args note (parse_judge args) w) hr
    where
      unless :
          (test : Bool) (r : WriteOutcome × World)
          → (is_refused r.0 ≡ true → Unchanged w r.1)
          → is_refused (if test then (refused invalid_request empty_note_refusal, w) else r).0
            ≡ true
          → Unchanged w (if test then (refused invalid_request empty_note_refusal, w) else r).1
      unless true r h hr = (refl, refl)
      unless false r h hr = h hr

  -- A request that is refused, for whatever reason, leaves the tables and the directory of notes as
  -- they were.
  pub run_write-refused :
      (is_mcp : Bool) (args : Arguments) (w : World)
      → is_refused (run_write deps is_mcp args w).0 ≡ true
      → Unchanged w (run_write deps is_mcp args w).1
  unfolding run_write
  run_write-refused is_mcp args w hr = with_note-refused is_mcp args _ w hr
