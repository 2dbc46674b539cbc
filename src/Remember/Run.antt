-- ===== src/Remember/Run.antt =====
-- The decision and the write of src/ohmyboring/remember/writer.py: `_store_new_note` to `run_write`.
pub mod Edges
pub mod Safe
use ohmyboring.Prelude.{
  ℕ, suc, ◌+◌, Bool, true, false, not, ◌&&◌, ◌||◌, Option, none, some, List, [], ◌∷◌, ◌++◌,
  if◌then◌else◌, map, ◌==◌, Text, codes, is_empty, starts_with, text_eq,
}
use ohmyboring.Prelude.Decimal.{show_nat}
use ohmyboring.Result.{Either, ok, err}
use ohmyboring.Remember.Note.{CharTable, FrontMatter, RememberNote}
use ohmyboring.Remember.Match.{DuplicateMatch, last_part, removesuffix}
use ohmyboring.Remember.Dedup.{
  Verdict, stored, superseded, skipped, Entry, VaultView, NearestDocument, check_duplicate,
  dedup_gate,
}
use ohmyboring.Remember.Graph.{Slot}
use ohmyboring.Remember.Tables.{Db, all_doc_paths}
use ohmyboring.Remember.Projection.{Stats, no_stats}
use ohmyboring.Remember.Store.{StoredFile, Linked, ingest, record_supersedes}
use ohmyboring.Remember.WikiId.{WikiFile, existing_wiki_ids, allocate_wiki_id, file_name}
use ohmyboring.Remember.Render.{render_wiki_note}
use ohmyboring.Remember.Request.{Arguments, Failure, parse_remember_note, parse_judge}
use ohmyboring.Remember.Writer.{
  Written, WriteOutcome, written, refused, failed, raised, Event, dedup_decision, remember_written,
  World, WriterDeps, invalid_request, internal_error, of_failure, log, comma_joined, gate,
  edge_judge,
}

abbrev pub empty_note_refusal : Text
empty_note_refusal =
    codes
      "refused: this note has no project and no claims — add the next step or decision it leaves as claims (kind=next or kind=decision), or pass repo"

unfoldable pub wiki_stem : Text → Option Text
wiki_stem path =
    let stem = removesuffix (codes ".md") (last_part [] path) in
    if starts_with (codes "wiki-") stem then some stem else none

-- What the gates and the duplicate search have decided.
pub record Plan : Type 0 where
  pub note : RememberNote
  pub targets : List Text
  pub duplicate : Option Text
  pub judge : Option Text
  pub verdict : Verdict
  pub found : Option DuplicateMatch

slot_names : List Slot → List Text
slot_names slots = map (λ slot. slot.0 ++ b'/' ∷ slot.1) slots

unfoldable pub supersedes_suffix : List Text → Linked → Text
unfolding slot_names
supersedes_suffix targets l =
    let names = comma_joined (slot_names l.retired) in
    let count = codes " · supersedes linked " ++ show_nat l.linked in
    let missing =
      codes ", not found "
      ++ (show_nat l.unknown ++ (codes " (" ++ (comma_joined l.unknown_paths ++ codes ")"))) in
    let head = if l.unknown == 0 then count else count ++ missing in
    if is_empty targets
    then []
    else head ++ (codes " · retired claims: " ++ (if is_empty names then codes "none" else names))

abbrev superseded_label : Option Text → Text
superseded_label none = []
superseded_label (some stem) = codes " (supersedes wiki/" ++ (stem ++ codes ".md)")

abbrev stem_of : Option Text → Option Text
stem_of none = none
stem_of (some path) = wiki_stem path

unfoldable pub written_message : Plan → Text → Stats → Linked → Text
written_message plan wiki_id stats l =
    codes "remembered → wiki/"
    ++ (wiki_id
        ++ (codes ".md"
            ++ (superseded_label (stem_of plan.duplicate)
                ++ (codes " · chunks "
                    ++ (show_nat stats.chunks
                        ++ (codes " · graph(tools "
                            ++ (show_nat stats.tools
                                ++ (codes " concepts "
                                    ++ (show_nat stats.concepts
                                        ++ (codes " claims "
                                            ++ (show_nat stats.claims
                                                ++ (codes ") — recallable now"
                                                    ++ supersedes_suffix plan.targets l))))))))))))

module _ (deps : WriterDeps) where
  abbrev pub note_file_path : Text → Text
  note_file_path wiki_id = deps.vault.vault_dir ++ (codes "/wiki/" ++ file_name wiki_id)

  -- After `_ingest`: the edges to the notes that are superseded, and the answer.
  unfoldable pub answer_stored : Plan → Text → Stats → World → WriteOutcome × World
  answer_stored plan wiki_id stats w =
      let path = note_file_path wiki_id in
      let (l, db) = record_supersedes deps.now path plan.targets plan.judge w.db in
      let answer : Written = record {
        wiki_id = wiki_id;
        source_path = path;
        message = written_message plan wiki_id stats l;
        duplicate = plan.duplicate;
        supersedes = l.linked;
        unknown = l.unknown;
      } in
      (
        written answer,
        log (remember_written answer plan.verdict plan.found stats) (record w { db = db }),
      )

  abbrev pub after_ingest : Plan → Text → World → Either Stats Text × Db → WriteOutcome × World
  after_ingest plan wiki_id w (ok stats, db) =
      answer_stored plan wiki_id stats (record w { db = db })
  after_ingest plan wiki_id w (err why, db) =
      (failed internal_error (codes "ingest: " ++ why), record w { db = db })

  -- The file of the note is written and the note is put into the tables.
  unfoldable pub store_at : Plan → Text → World → WriteOutcome × World
  store_at plan wiki_id w =
      let front = record plan.note.front { date = deps.today } in
      let note = record plan.note { front = front } in
      let content = render_wiki_note deps.safe_dump wiki_id front note.body in
      let file : StoredFile = record {
        path = note_file_path wiki_id;
        content = deps.read_back content;
        mtime = deps.mtime;
      } in
      let filed =
        log (dedup_decision plan.verdict plan.found)
          (record w { files = w.files ++ (file_name wiki_id, content) ∷ [] }) in
      after_ingest plan wiki_id filed
        (ingest deps.parsing.table deps.embedding deps.sha256 note file filed.db)

  abbrev pub store_if : Plan → Option Text → World → WriteOutcome × World
  store_if plan none w = (raised, w)
  store_if plan (some wiki_id) w = store_at plan wiki_id w

  unfoldable pub store_new_note : Plan → World → WriteOutcome × World
  store_new_note plan w =
      store_if plan (allocate_wiki_id (existing_wiki_ids (all_doc_paths w.db)) w.files) w

  abbrev or_empty : Option Text → Text
  or_empty none = []
  or_empty (some t) = t

  unfoldable pub skipped_answer : DuplicateMatch → World → WriteOutcome × World
  skipped_answer found w =
      let answer : Written = record {
        wiki_id = or_empty (wiki_stem found.source_path);
        source_path = found.source_path;
        message = codes "skipped — duplicate of " ++ found.source_path;
        duplicate = some found.source_path;
        supersedes = 0;
        unknown = 0;
      } in
      (
        written answer,
        log (remember_written answer skipped (some found) no_stats)
            (log (dedup_decision skipped (some found)) w),
      )

  unfoldable pub targets_for : List Text → Verdict → Option DuplicateMatch → List Text × Option Text
  targets_for supersedes superseded (some found) = (found.source_path ∷ [], some found.source_path)
  targets_for supersedes _ _ = (supersedes, none)

  -- What the search gives, or `none` when it raises.
  abbrev pub Searched : Type 0
  Searched = Option (Either (Option DuplicateMatch) Text)

  -- The search is always given a function, which calls the probe; it raises when there is none. That
  -- is when no file matches, where a search without a function ends.
  abbrev pub probed : Option NearestDocument → Either (Option DuplicateMatch) Text → Searched
  probed none (ok none) = none
  probed nearest result = some result

  unfoldable pub find_duplicate : RememberNote → List Text → Searched
  find_duplicate note [] = probed deps.nearest_document (
      check_duplicate deps.parsing.table note (record deps.vault { parsed_entries = deps.synced })
        deps.nearest_document [])
  find_duplicate note (target ∷ supersedes) = some (ok none)

  abbrev plan_of : RememberNote → Option Text → List Text → Verdict → Option DuplicateMatch → Plan
  plan_of note judge supersedes verdict found =
      let (targets, duplicate) = targets_for supersedes verdict found in
      record {
        note = note;
        targets = targets;
        duplicate = duplicate;
        judge = edge_judge note.front.author judge;
        verdict = verdict;
        found = found;
      }

  -- `dedup_gate` gives a note with `skipped` and with `superseded`.
  unfoldable pub act :
      RememberNote
      → Option Text
      → List Text
      → Verdict × Option DuplicateMatch
      → World
      → WriteOutcome × World
  act note judge supersedes (skipped, some found) w = skipped_answer found w
  act note judge supersedes (skipped, none) w = (raised, w)
  act note judge supersedes (superseded, none) w = (raised, w)
  act note judge supersedes (stored, found) w =
      store_new_note (plan_of note judge supersedes stored found) w
  act note judge supersedes (superseded, some found) w =
      store_new_note (plan_of note judge supersedes superseded (some found)) w

  abbrev pub after_search :
      RememberNote → Option Text → List Text → Searched → World → WriteOutcome × World
  after_search note judge supersedes none w = (raised, w)
  after_search note judge supersedes (some (err why)) w =
      (failed internal_error (codes "dedup check: " ++ why), w)
  after_search note judge supersedes (some (ok found)) w =
      act note judge supersedes (dedup_gate deps.parsing.table deps.is_owner note found) w

  unfoldable pub decide_and_write :
      RememberNote → Option Text → List Text → World → WriteOutcome × World
  decide_and_write note judge supersedes w =
      after_search note judge supersedes (find_duplicate note supersedes) w

  abbrev pub after_gate :
      Option Text → Either (RememberNote × List Text) WriteOutcome × World → WriteOutcome × World
  after_gate judge (err refusal, w) = (refusal, w)
  after_gate judge (ok (note, supersedes), w) = decide_and_write note judge supersedes w

  abbrev pub is_bare : Bool → RememberNote → Bool
  is_bare is_mcp note = is_mcp && (is_empty note.front.project && is_empty note.front.claims)

  abbrev pub with_judge :
      Arguments → RememberNote → Either (Option Text) Failure → World → WriteOutcome × World
  with_judge args note (err why) w = (of_failure why, w)
  with_judge args note (ok judge) w = after_gate judge (gate deps args note judge w)

  abbrev pub with_note :
      Bool → Arguments → Either RememberNote Failure → World → WriteOutcome × World
  with_note is_mcp args (err why) w = (of_failure why, w)
  with_note is_mcp args (ok note) w =
      let going = with_judge args note (parse_judge args) w in
      if is_bare is_mcp note then (refused invalid_request empty_note_refusal, w) else going

  -- `is_mcp`: the request came by the route "mcp".
  unfoldable pub run_write : Bool → Arguments → World → WriteOutcome × World
  run_write is_mcp args w = with_note is_mcp args (parse_remember_note deps.parsing args) w
