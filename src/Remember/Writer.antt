-- ===== src/Remember/Writer.antt =====
-- The way of a remember request: the gates, the duplicate search, the decision and the write. From
-- `_judge_refusal` to `run_write` in src/ohmyboring/remember/writer.py. The timers, the route and
-- the times in the events are left out, and no SQL statement and no file operation fails.

use ohmyboring.Prelude.{
  ℕ, Bool, not, ◌&&◌, ◌||◌, Option, none, some, List, [], ◌∷◌, ◌++◌, if◌then◌else◌, Text, codes,
  is_empty, text_eq,
}
use ohmyboring.Prelude.Int.{ℤ, negsuc}
use ohmyboring.Result.{Either, ok, err}
use ohmyboring.Remember.Note.{RememberNote}
use ohmyboring.Remember.Match.{DuplicateMatch}
use ohmyboring.Remember.Dedup.{Verdict, Entry, VaultView, NearestDocument}
use ohmyboring.Remember.Tables.{Db, owner_authored}
use ohmyboring.Remember.Projection.{Embedding, Stats}
use ohmyboring.Remember.WikiId.{WikiFile}
use ohmyboring.Remember.Render.{Yaml}
use ohmyboring.Remember.Request.{
  Arguments, Failure, reason, value_error, ParseDeps, parse_supersedes,
}

pub record Written : Type 0 where
  pub wiki_id : Text
  pub source_path : Text
  pub message : Text
  pub duplicate : Option Text
  pub supersedes : ℕ
  pub unknown : ℕ

-- `raised` is an exception that the writer leaves to its caller.
pub data WriteOutcome : Type 0 where
  written : Written → WriteOutcome
  refused : ℤ → Text → WriteOutcome
  failed : ℤ → Text → WriteOutcome
  raised : WriteOutcome

pub data Event : Type 0 where
  owner_refused : List Text → Event
  dedup_decision : Verdict → Option DuplicateMatch → Event
  remember_written : Written → Verdict → Option DuplicateMatch → Stats → Event

-- The tables, the files of the directory `wiki`, and the events.
pub record World : Type 0 where
  pub db : Db
  pub files : List WikiFile
  pub events : List Event

pub record WriterDeps : Type 0 where
  pub parsing : ParseDeps
  pub embedding : Embedding
  pub sha256 : Text → Text
  pub safe_dump : Yaml → Text
  -- The text of a file that was written, as it is read again.
  pub read_back : Text → Text
  pub mtime : ℕ
  pub now : ℕ
  pub today : Text
  pub is_owner : Bool
  pub pii_gate : Option (RememberNote → Either RememberNote Text)
  pub vault : VaultView
  -- What the index of notes gives; without it the directory is read.
  pub synced : Option (List Entry)
  pub nearest_document : Option NearestDocument

abbrev pub invalid_request : ℤ
invalid_request = negsuc 32601

abbrev pub internal_error : ℤ
internal_error = negsuc 32602

abbrev pub of_failure : Failure → WriteOutcome
of_failure (reason why) = refused invalid_request why
of_failure value_error = raised

unfoldable pub log : Event → World → World
log event w = record w { events = w.events ++ event ∷ [] }

abbrev pub claims_owner : RememberNote → Option Text → Bool
claims_owner note none = text_eq note.front.author (codes "owner")
claims_owner note (some judge) =
    text_eq note.front.author (codes "owner") || text_eq judge (codes "owner")

unfoldable pub judge_refusal : Bool → RememberNote → Option Text → Option WriteOutcome
judge_refusal is_owner note judge =
    if claims_owner note judge && not is_owner
    then some (
        refused invalid_request
          (codes "owner (as author or judge) needs the owner door token in x-boring-owner-token"))
    else none

unfoldable pub comma_joined : List Text → Text
comma_joined [] = []
comma_joined (t ∷ []) = t
comma_joined (t ∷ (u ∷ ts)) = t ++ (codes ", " ++ comma_joined (u ∷ ts))

unfoldable pub owner_refusal : List Text → World → Either (List Text) WriteOutcome × World
owner_refusal targets w = (
  err (
      refused invalid_request
        (codes "only the owner may supersede an owner-written note: " ++ comma_joined targets)),
  log (owner_refused targets) w,
)

-- The targets that the owner has written, in the order of the table.
abbrev pub refused_targets : Bool → List Text → Db → List Text
refused_targets is_owner paths db = if is_owner then [] else owner_authored paths db

unfoldable pub supersedes_gate :
    Bool → Either (List Text) Failure → World → Either (List Text) WriteOutcome × World
supersedes_gate is_owner (err why) w = (err (of_failure why), w)
supersedes_gate is_owner (ok paths) w =
    let targets = refused_targets is_owner paths w.db in
    let refusal = owner_refusal targets w in
    let passed : Either (List Text) WriteOutcome × World = (ok paths, w) in
    if is_empty targets then passed else refusal

abbrev of_gate : Either RememberNote Text → Either RememberNote WriteOutcome
of_gate (ok note) = ok note
of_gate (err why) = err (refused internal_error why)

unfoldable pub pii_gate :
    Option (RememberNote → Either RememberNote Text)
    → RememberNote
    → Either RememberNote WriteOutcome
pii_gate none note = ok note
pii_gate (some gate) note = of_gate (gate note)

abbrev with_supersedes :
    List Text → Either RememberNote WriteOutcome → Either (RememberNote × List Text) WriteOutcome
with_supersedes supersedes (ok note) = ok (note, supersedes)
with_supersedes supersedes (err refusal) = err refusal

abbrev pub then_pii :
    WriterDeps
    → RememberNote
    → Either (List Text) WriteOutcome × World
    → Either (RememberNote × List Text) WriteOutcome × World
then_pii deps note (err refusal, w) = (err refusal, w)
then_pii deps note (ok supersedes, w) =
    (with_supersedes supersedes (pii_gate deps.pii_gate note), w)

abbrev pub then_supersedes :
    WriterDeps
    → Arguments
    → RememberNote
    → Option WriteOutcome
    → World
    → Either (RememberNote × List Text) WriteOutcome × World
then_supersedes deps args note (some refusal) w = (err refusal, w)
then_supersedes deps args note none w =
    then_pii deps note (supersedes_gate deps.is_owner (parse_supersedes args) w)

unfoldable pub gate :
    WriterDeps
    → Arguments
    → RememberNote
    → Option Text
    → World
    → Either (RememberNote × List Text) WriteOutcome × World
gate deps args note judge w =
    then_supersedes deps args note (judge_refusal deps.is_owner note judge) w

abbrev known_judge : Text → Option Text
known_judge value = if text_eq value (codes "unknown") then none else some value

unfoldable pub edge_judge : Text → Option Text → Option Text
edge_judge author none = known_judge author
edge_judge author (some judge) = known_judge judge
