-- ===== src/Remember/RunExamples.antt =====
-- Tests and concrete cases for the requests of src/ohmyboring/remember.
use ohmyboring.Prelude.{
  ℕ, true, false, not, ◌&&◌, ◌||◌, ◌<◌, ◌≤◌, none, some, List, [], ◌∷◌, ◌≡◌, refl, length, flatten,
  codes, All, arith, join_lines, split_lines,
}
use ohmyboring.Prelude.Decimal.{strip, lstrip, is_space, parse_int, digits_value}
use ohmyboring.Result.{ok}
use ohmyboring.Remember.Note.{RememberNote}
use ohmyboring.Remember.Tokens.{is_member}
use ohmyboring.Remember.Tags.{sanitize_tag, tag_loop, is_tag_char, strip_left, strip_right, checked}
use ohmyboring.Remember.Match.{last_part, removesuffix}
use ohmyboring.Remember.Dedup.{stored, empty_note}
use ohmyboring.Remember.Graph.{Edge, expected_edges}
use ohmyboring.Remember.Tables.Edges.{has_edge}
use ohmyboring.Remember.Projection.Adds.{has}
use ohmyboring.Remember.Projection.Refines.{IsOwnClaim}
use ohmyboring.Remember.Projection.Whole.{is_rewritten}
use ohmyboring.Remember.WikiId.{
  WikiFile, existing_wiki_ids, file_ids, largest, add_stem, ends_with, allocate_wiki_id, wiki_id_of,
  file_name, is_file,
}
use ohmyboring.Remember.WikiId.Fresh.{allocate_wiki_id-Fresh}
use ohmyboring.Remember.Request.{
  Arguments, string, array, object, text, ParseDeps, parse_remember_note, parse_judge,
  parse_supersedes, get, get_str, get_arr, canonical_repo, origins, claim_items, parse_claims,
  parse_claim, said_by_of, clean_text, clean_claim, parse_author, author_of, parse_provenance,
  parse_since, parse_origin, note_tags, sanitized_tags, parsed_note,
}
use ohmyboring.Remember.Request.Body.{
  normalize_body, unescape, hashes, is_atx_heading, drop_headings, strip_trailing_empty_heading,
}
use ohmyboring.Remember.Request.Sound.{IsAuthor, parse_remember_note-ok}
use ohmyboring.Remember.Writer.{
  Written, written, World, WriterDeps, judge_refusal, gate, supersedes_gate, owner_refusal,
}
use ohmyboring.Remember.Run.{Plan, store_at, run_write}
use ohmyboring.Remember.Run.Edges.{dated, store_at-Refines}
use ohmyboring.Remember.Run.Safe.{is_refused, Unchanged, run_write-refused}
use ohmyboring.Remember.Examples.{ascii, lower_char}
use ohmyboring.Remember.WriteExamples.{
  three, step_note, old_path, new_path, tables, same_text, embeds_three, path_is_new, body_is_full,
  old_is_document,
}

abbrev parsing : ParseDeps
parsing = record { table = ascii; scrub = same_text; is_digit = λ c. false; repo_rules = [] }

abbrev deps : WriterDeps
deps = record {
  parsing = parsing;
  embedding = three;
  sha256 = same_text;
  safe_dump = λ front. [];
  read_back = same_text;
  mtime = 5;
  now = 6;
  today = codes "2026-01-01";
  is_owner = false;
  pii_gate = none;
  vault = record {
    list_notes = [];
    read_note = λ folder id. none;
    vault_dir = codes "/vault";
    parse_note = λ path t. empty_note path;
    parsed_entries = none;
  };
  synced = none;
  nearest_document = none;
}

abbrev files : List WikiFile
files = (codes "wiki-0001.md", codes "old") ∷ (codes "notes.txt", []) ∷ []

abbrev world : World
world = record { db = tables; files = files; events = [] }

abbrev plan : Plan
plan = record {
  note = step_note;
  targets = old_path ∷ [];
  duplicate = none;
  judge = none;
  verdict = stored;
  found = none;
}

store_at-Refines_example :
    ((answer : Written) × ((store_at deps plan (codes "wiki-0002") world).0 ≡ written answer))
    × ((e : Edge)
        → has e (store_at deps plan (codes "wiki-0002") world).1.db
          ≡ has_edge e
              (expected_edges ascii (dated deps embeds_three plan).front new_path (old_path ∷ []))
            || (has e tables && not (is_rewritten new_path e)))
store_at-Refines_example =
    store_at-Refines deps embeds_three plan (codes "wiki-0002") world path_is_new body_is_full
      (refl, tt) (old_is_document, tt)

program : Unit {0}
unfolding existing_wiki_ids file_ids largest add_stem ends_with last_part removesuffix parse_int
    digits_value strip lstrip is_space parse_remember_note parse_judge parse_supersedes get get_str
    get_arr canonical_repo claim_items parse_claims parse_claim said_by_of clean_text clean_claim
    parse_author author_of parse_provenance parse_since parse_origin note_tags sanitized_tags
    parsed_note sanitize_tag tag_loop is_tag_char strip_left strip_right checked normalize_body
    unescape hashes is_atx_heading drop_headings strip_trailing_empty_heading lower_char flatten
    judge_refusal gate supersedes_gate owner_refusal run_write allocate_wiki_id join_lines
    split_lines
program = tt

file_ids-files : file_ids files ≡ 1 ∷ []
unfolding program
file_ids-files = refl

existing_wiki_ids-largest : largest (existing_wiki_ids (old_path ∷ [])) ≡ 1
unfolding program
existing_wiki_ids-largest = refl

file_ids-largest_one : largest (file_ids files) ≡ 1
unfolding program
file_ids-largest_one = refl

allocate_wiki_id-Fresh_example :
    (n : ℕ) × (allocate_wiki_id (existing_wiki_ids (old_path ∷ [])) files ≡ some (wiki_id_of n))
    × (is_file (file_name (wiki_id_of n)) files ≡ false)
    × All (λ m. m < n) (existing_wiki_ids (old_path ∷ []))
    × All (λ m. m < n) (file_ids files)
allocate_wiki_id-Fresh_example =
    allocate_wiki_id-Fresh (old_path ∷ []) files (omega (arith, existing_wiki_ids-largest))
      (omega (arith, file_ids-largest_one))

abbrev request : Arguments
request =
    (codes "title", string (codes " Step "))
    ∷ (codes "body", string (codes "text"))
    ∷ (codes "author", string (codes "agent: codex"))
    ∷ (
      codes "claims",
      array (
          object (
            (codes "subject", text (codes "build"))
            ∷ (codes "predicate", text (codes "next"))
            ∷ (codes "value", text (codes "run"))
            ∷ (codes "said_by", text (codes "owner"))
            ∷ [])
          ∷ []),
    )
    ∷ []

abbrev request_note : RememberNote
request_note = record {
  front = record {
    title = codes "Step";
    kind = codes "note";
    origin = codes "personal";
    project = [];
    date = [];
    tags = [];
    tools = [];
    concepts = [];
    claims =
        record {
          subject = codes "build";
          predicate = codes "next";
          value = codes "run";
          kind = [];
          confidence = [];
          said_by = some (codes "owner");
        }
        ∷ [];
    sources = [];
    omb_session_id = none;
    author = codes "agent:codex";
    omb_session_since = none;
  };
  body = codes "text";
}

request-parsed : parse_remember_note parsing request ≡ ok request_note
unfolding program
request-parsed = refl

parse_remember_note-ok_example :
    IsAuthor (codes "agent:codex")
    × All IsOwnClaim request_note.front.claims
    × (is_member (codes "personal") origins ≡ true)
    × (length request_note.front.tags ≤ 7)
parse_remember_note-ok_example = parse_remember_note-ok parsing request request_note request-parsed

abbrev owner_request : Arguments
owner_request = (codes "judge", string (codes "owner")) ∷ request

owner_request-refused : is_refused (run_write deps true owner_request world).0 ≡ true
unfolding program
owner_request-refused = refl

run_write-refused_example : Unchanged world (run_write deps true owner_request world).1
run_write-refused_example = run_write-refused deps true owner_request world owner_request-refused
