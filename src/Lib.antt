-- ===== src/Lib.antt =====
-- A model of ohmyboring, the local memory for coding sessions, and what holds of it.
--
-- The program turns finished agent sessions into notes. Hooks put a session's transcript into a
-- queue directory; a worker distills it through a local model and asks the door to remember it;
-- the door judges duplicates, writes the note, cuts it into chunks and indexes these; recall
-- searches the chunks and ranks them. The Python files are modelled part by part:
--
-- - Prelude: shared names, lists, texts as lists of code points, numbers in text, sorting.
-- - Ingest.Chunk: src/ohmyboring/ingest/chunk.py. `fixed_chunks` runs on as much fuel as the
--   body has characters, and each round moves by at least one. Of the proofs about `_pack`,
--   Chunk.Groups follows its loop and Chunk.Greedy says when a group is closed.
-- - Session.Markers: agents/shared/markers.py. The marker directory is a function from file-
--   name stems to the four files of a session; `mark_*` keep their names, and what they do to
--   one session is `done_marks`, `pending_marks` and `retry_marks`.
-- - Session.Queue: agents/shared/distill_queue.py. A queue file is the stem of its name and
--   what its JSON parses to.
-- - Session.Worker: agents/hermes/ingest-worker.py, the drain of the queue. What the
--   distillation of an item gives and what is reachable are arguments.
-- - Remember.Note, Tokens, Quality, Match, Dedup: src/ohmyboring/remember/dedup.py with the
--   note types of parse.py; functions keep their names without the leading underscore. Python's
--   character tables are the argument `CharTable`, the vault is a `VaultView`, and the
--   embedding search is a function. Quality.Newline compares the score of a note with that of
--   the same note with a line feed behind its body.
-- - Remember.Request: src/ohmyboring/remember/parse.py, with `normalize_body` in Request.Body,
--   and `canonical_repo` of src/ohmyboring/config.py. The redaction of secrets is a parameter;
--   the ValueError of an unguarded `int` is the failure `value_error`.
-- - Remember.Graph: src/ohmyboring/remember/graph.py, the edges that a note should leave, with
--   the comparison of closed claims in Graph.Seals. A set is a list.
-- - Remember.Tables, Claims: the rows and the SQL statements of
--   src/ohmyboring/remember/writer.py, as functions on five lists; the keys are those of
--   data/schema/baseline.sql. Remember.Anchors: its anchors. Remember.Action: a step that can
--   fail and keeps what it wrote.
-- - Remember.Projection, Store: `_upsert_document` to `_extract_graph`, then `_ingest` and
--   `_record_supersedes`. Of an embedding only the dimension is kept. What the parts do to the
--   edges and to the documents is in the modules below them.
-- - Remember.WikiId: note numbers; the loop runs on one round more than there are files.
--   Remember.Render: src/ohmyboring/remember/render.py, with the YAML printer as a parameter.
-- - Remember.Writer, Run: the gates, the decision and `run_write`, on a state of the tables,
--   the files of the directory `wiki` and the events. Timers and the times in events are left
--   out.
-- - Remember.ReadBack: `split_frontmatter` of agents/shared/vault_note.py and
--   `parse_existing_note` of dedup.py. What `yaml.load` gives is an argument; ReadBack.Rendered
--   reads what render.py has written.
-- - Remember.NoteIndex: src/ohmyboring/remember/index.py, the index of notes that the door
--   keeps, filled and synchronised with a disk that is an argument.
-- - Remember.Tags: `sanitize_tag` of src/ohmyboring/remember/parse.py, with its loop as
--   `tag_loop`.
-- - Search.Rank, Search.Related: src/ohmyboring/search/rank.py. A dictionary is the list of its
--   items in the order of insertion, and limits are not negative.
-- - Distill: src/ohmyboring/distill, the graph of nodes that turns a session into a note:
--   graph.py, the nodes and the judge of polish.py. No way through the graph has more than
--   eleven nodes, which is the fuel of its run. What the model answers, the preparation and the
--   verification of a note and the regular expressions are the fields of `Model`.
-- - Result, Gap: src/ohmyboring/result.py and the parser of src/ohmyboring/gap/parse.py.
--
-- A time is a natural number of clock ticks, and `str` of it is a parameter that prints no
-- white space. Text is read by code points; `int` reads the digits 0 to 9. Failures of the file
-- system itself, and what is printed, are left out. So are the Rust engine, the model calls,
-- HTTP and Slack. The remember writer is the only part whose SQL is modelled; its statements do
-- not fail.
pub mod Prelude
pub mod Result
pub mod Ingest
pub mod Session
pub mod Remember
pub mod Search
pub mod Distill
pub mod Gap
