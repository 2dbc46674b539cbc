-- ===== src/Remember/Examples.antt =====
-- Tests of the duplicate search, with the characters of ASCII, and its theorems at concrete notes.
use mathlib.Core.List.{Memᴰ, map-append}
use ohmyboring.Prelude.{
  ℕ, ◌-◌, ◌+◌, ◌≤◌, true, false, ◌&&◌, ◌||◌, Option, none, some, List, [], ◌∷◌, ◌++◌, newline, ◌≡◌,
  ◌↔◌, ◌⊎◌, refl, if◌then◌else◌, leb, map, flatten, Text, codes, Bool, split_lines, join_lines,
  text_eq,
}
use ohmyboring.Result.{ok}
use ohmyboring.Remember.Note.{CharTable, FrontMatter, RememberNote, ExistingNote}
use ohmyboring.Remember.Tokens.{
  is_member, add, ratio_at_least, token_loop, token_set, token_jaccard_at_least,
  token_overlap_min_at_least,
}
use ohmyboring.Remember.Tokens.Symmetry.{token_ratios-symmetric}
use ohmyboring.Remember.Quality.{
  same_session, note_quality, is_heading, has_evidence_signal, contains, should_replace_duplicate,
  incoming_source, existing_source,
}
use ohmyboring.Remember.Match.{
  DuplicateMatch, wiki_number, branch_for, newest_of, newest_match, path_number, pick_duplicate,
  probable_session_duplicate, continues_after,
}
use ohmyboring.Prelude.Decimal.{lstrip, strip, parse_int}
use ohmyboring.Remember.Quality.Newline.{KeepsLines}
use ohmyboring.Remember.Render.{Yaml, YamlValue, front_map, claim_map, render_wiki_note}
use ohmyboring.Remember.ReadBack.{
  Dict, normalise_ends, find_fence, split_frontmatter, all_claims, parse_existing_note,
}
use ohmyboring.Remember.ReadBack.Rendered.{loaded_dict, IsPlain}
use ohmyboring.Remember.Dedup.{
  stored, superseded, VaultView, candidates, read_entry, entries_of, disk_entries, match_entries,
  scan_vault, embedding_match, after_files, check_duplicate, dedup_gate, empty_note, is_owner_note,
  replaces,
}
use ohmyboring.Remember.Dedup.Gate.{
  dedup_gate-authority, note_quality-score, max_score, settled, replaced, Supersedings-length,
}
use ohmyboring.Remember.Dedup.Search.{IsMatch, IsBest, check_duplicate-cases}
use ohmyboring.Remember.Dedup.Index.{indexed, on_disk, candidates-allowed, check_duplicate-indexed}

unfoldable pub lower_char : ℕ → ℕ
lower_char c = if leb b'A' c && leb c b'Z' then c + 32 else c

abbrev pub ascii : CharTable
ascii = record {
  is_alnum =
      λ c. (leb b'A' c && leb c b'Z') || (leb b'a' c && leb c b'z') || (leb b'0' c && leb c b'9');
  digit = λ c. if leb b'0' c && leb c b'9' then some (c - 48) else none;
  lower = map lower_char;
}

abbrev front : Text → Option Text → FrontMatter
front title session = record {
  title = title;
  kind = codes "note";
  origin = codes "personal";
  project = codes "omb";
  date = [];
  tags = codes "repo/omb" ∷ codes "queue" ∷ [];
  tools = codes "git" ∷ [];
  concepts = [];
  claims = [];
  sources = [];
  omb_session_id = session;
  author = codes "unknown";
  omb_session_since = none;
}

abbrev pub richer : RememberNote
richer = record {
  front = front (codes "Queue retries") (some (codes "s1"));
  body = codes "# Result\nThe queue drains. Verified by command.";
}

abbrev pub on_vault : Text → ExistingNote
on_vault path = record (empty_note path) {
  title = some (codes "Queue");
  omb_session_id = some (codes "s1");
  body = codes "short";
}

abbrev found : DuplicateMatch
found = record {
  source_path = codes "/vault/wiki/wiki-7.md";
  branch = same_session;
  existing = on_vault (codes "/vault/wiki/wiki-7.md");
}

abbrev vault : VaultView
vault = record {
  list_notes = codes "wiki-7" ∷ codes "wiki-12" ∷ codes "wiki-13" ∷ [];
  read_note = λ dir note_id. some note_id;
  vault_dir = codes "/vault";
  parse_note = λ path text. on_vault path;
  parsed_entries = none;
}

abbrev excluded : List Text
excluded = codes "/vault/wiki/wiki-13.md" ∷ []

-- Names that the tests below compute with.
unfoldable pub program : Unit {0}
unfolding token_set token_loop add ratio_at_least token_jaccard_at_least token_overlap_min_at_least
    note_quality has_evidence_signal should_replace_duplicate wiki_number newest_of newest_match
    path_number pick_duplicate probable_session_duplicate continues_after branch_for entries_of
    disk_entries candidates match_entries scan_vault embedding_match check_duplicate dedup_gate
    read_entry lower_char split_lines lstrip strip contains flatten incoming_source existing_source
    is_heading
program = tt

token_set-lower : token_set ascii (codes "Go go X to") ≡ codes "to" ∷ codes "go" ∷ []
unfolding program
token_set-lower = refl

wiki_number-suffix : wiki_number ascii (codes "/vault/wiki/wiki-120.md") ≡ some 120
unfolding program
wiki_number-suffix = refl

richer-replaces : (dedup_gate ascii false richer (some found)).0 ≡ superseded
unfolding program
richer-replaces = refl

owner_blocked : (dedup_gate ascii true richer (some found)).0 ≡ stored
unfolding program
owner_blocked = refl

same_branch :
    branch_for ascii richer (on_vault (codes "/vault/wiki/wiki-12.md")) ≡ some same_session
unfolding program
same_branch = refl

-- The newest of the notes that are not excluded.
finds_newest :
    check_duplicate ascii richer vault none excluded
    ≡ ok (
        some (record {
          source_path = codes "/vault/wiki/wiki-12.md";
          branch = same_session;
          existing = on_vault (codes "/vault/wiki/wiki-12.md");
        }))
unfolding program
finds_newest = refl

dedup_gate-authority_example :
    (((dedup_gate ascii false richer (some found)).0 ≡ superseded)
      ↔ ((false ≡ is_owner_note found.existing) × (replaces ascii richer found ≡ true)))
    × (((dedup_gate ascii false richer (some found)).0 ≡ stored)
        ↔ ((false ≡ true) × (is_owner_note found.existing ≡ false)))
dedup_gate-authority_example = dedup_gate-authority ascii false richer found

note_quality-score_example : (note_quality ascii (incoming_source richer)).score ≤ max_score
note_quality-score_example = note_quality-score ascii (incoming_source richer)

abbrev stored_richer : DuplicateMatch
stored_richer = record {
  source_path = codes "/vault/wiki/wiki-14.md";
  branch = same_session;
  existing = record (empty_note (codes "/vault/wiki/wiki-14.md")) {
    title = some richer.front.title;
    tags = richer.front.tags;
    tools = richer.front.tools;
    omb_session_id = richer.front.omb_session_id;
    body = richer.body ++ newline ∷ [];
  };
}

-- A printer of keys, and a loader of the one text that it prints below.
abbrev richer_front : FrontMatter
richer_front = record richer.front { date = codes "2026-01-02" }

abbrev print_keys : Yaml → Text
print_keys m = join_lines (map (λ (e : Text × YamlValue). e.0 ++ codes ": .") m)

abbrev safe_dump : Yaml → Text
safe_dump m = print_keys m ++ newline ∷ []

abbrev load : Text → Option Dict
load t =
    if text_eq t (print_keys (front_map (codes "wiki-14") richer_front))
    then some (loaded_dict (front_map (codes "wiki-14") richer_front))
    else none

abbrev is_digit : ℕ → Bool
is_digit c = leb b'0' c && leb c b'9'

reading : Unit {0}
unfolding program front_map claim_map join_lines render_wiki_note normalise_ends find_fence
    split_frontmatter all_claims parse_existing_note parse_int
reading = tt

richer-IsPlain : IsPlain safe_dump load (codes "wiki-14") richer_front richer.body
unfolding reading
richer-IsPlain = record {
  raw = print_keys (front_map (codes "wiki-14") richer_front);
  dumped = refl;
  loaded = refl;
  no_carriage_return = refl;
  no_fence = (
    refl,
    (
      refl,
      (
        refl,
        (refl, (refl, (refl, (refl, (refl, (refl, (refl, (refl, (refl, (refl, (refl, tt))))))))))),
      ),
    ),
  );
  titled = refl;
  title_stripped = refl;
  body_stripped = refl;
}

richer_read :
    parse_existing_note load is_digit stored_richer.source_path
      (render_wiki_note safe_dump (codes "wiki-14") richer_front richer.body)
    ≡ some stored_richer.existing
unfolding reading
richer_read = refl

ascii-KeepsLines : KeepsLines ascii
unfolding lower_char
ascii-KeepsLines = record {
  not_alnum = refl;
  lower_ended = λ s. map-append lower_char s (newline ∷ []);
}

Supersedings-length_example : 1 ≤ max_score
Supersedings-length_example =
    Supersedings-length ascii safe_dump load is_digit ascii-KeepsLines {found = found} {n = 1} (
      replaced false richer (codes "wiki-14") (codes "2026-01-02") stored_richer richer-replaces
        richer-IsPlain richer_read settled)

check_duplicate-cases_example :
    (((m : DuplicateMatch) → ¬ IsMatch ascii richer (candidates vault excluded) m)
      × (check_duplicate ascii richer vault none excluded ≡ after_files richer none excluded none))
    ⊎ ((m : DuplicateMatch) × (check_duplicate ascii richer vault none excluded ≡ ok (some m))
        × IsBest ascii richer (candidates vault excluded) m)
check_duplicate-cases_example = check_duplicate-cases ascii richer vault none excluded

listed_seven :
    Memᴰ
      (codes "/vault/wiki/wiki-7.md", on_vault (codes "/vault/wiki/wiki-7.md"))
      (candidates vault excluded)
unfolding program
listed_seven = Memᴰ.head refl

candidates-allowed_example : is_member (codes "/vault/wiki/wiki-7.md") excluded ≡ false
candidates-allowed_example =
    candidates-allowed excluded vault
      (codes "/vault/wiki/wiki-7.md", on_vault (codes "/vault/wiki/wiki-7.md")) (listed_seven)

check_duplicate-indexed_example :
    check_duplicate ascii richer (indexed vault) none excluded
    ≡ check_duplicate ascii richer (on_disk vault) none excluded
check_duplicate-indexed_example = check_duplicate-indexed ascii richer vault none excluded

token_ratios-symmetric_example :
    (token_jaccard_at_least ascii (codes "queue retries") (codes "queue") (1, 5)
      ≡ token_jaccard_at_least ascii (codes "queue") (codes "queue retries") (1, 5))
    × (token_overlap_min_at_least ascii (codes "queue retries") (codes "queue") (1, 5)
        ≡ token_overlap_min_at_least ascii (codes "queue") (codes "queue retries") (1, 5))
token_ratios-symmetric_example =
    token_ratios-symmetric ascii (codes "queue retries") (codes "queue") (1, 5)
