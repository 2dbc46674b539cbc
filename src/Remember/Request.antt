-- ===== src/Remember/Request.antt =====
-- Reading a remember request: src/ohmyboring/remember/parse.py, without `sanitize_tag` (Tags.antt),
-- and `canonical_repo` of src/ohmyboring/config.py. The redaction of secrets (`_scrub`) and
-- `str.isdigit` of one character are parameters.
pub mod Body
pub mod Sound
use ohmyboring.Prelude.{
  ℕ, zero, suc, ◌-◌, Bool, true, false, not, ◌&&◌, ◌||◌, Option, none, some, List, [], ◌∷◌, ◌++◌,
  if◌then◌else◌, any, all, drop, take, map, ◌+◌, ◌*◌, ◌==◌, Text, codes, is_empty, starts_with,
  text_eq, split_lines, join_lines,
}
use ohmyboring.Prelude.Decimal.{strip}
use ohmyboring.Prelude.Int.{ℤ, pos, negsuc}
use ohmyboring.Result.{Either, ok, err, bind, map_ok}
use ohmyboring.Remember.Note.{CharTable, Claim, FrontMatter, RememberNote}
use ohmyboring.Remember.Tokens.{is_member}
use ohmyboring.Remember.Tags.{sanitize_tag}
use ohmyboring.Remember.Match.{last_part, removesuffix}
use ohmyboring.Remember.Request.Body.{normalize_body}

-- A JSON value as the parser sees it: it asks whether a value is a string.
pub data Field : Type 0 where
  text : Text → Field
  other : Field

pub data Item : Type 0 where
  text_item : Text → Item
  object : List (Text × Field) → Item
  other_item : Item

pub data Argument : Type 0 where
  null : Argument
  string : Text → Argument
  array : List Item → Argument
  other_argument : Argument

abbrev pub Arguments : Type 0
Arguments = List (Text × Argument)

module _ {A : Type 0} where
  unfoldable pub get : Text → List (Text × A) → Option A
  get key [] = none
  get key ((k, value) ∷ rest) = if text_eq k key then some value else get key rest

abbrev pub stripped_field : Option Field → Text
stripped_field (some (text raw)) = strip raw
stripped_field _ = []

abbrev stripped_argument : Option Argument → Text
stripped_argument (some (string raw)) = strip raw
stripped_argument _ = []

unfoldable pub get_str : Arguments → Text → Text
get_str args key = stripped_argument (get key args)

unfoldable pub stripped_items : List Item → List Text
stripped_items [] = []
stripped_items (text_item raw ∷ items) =
    let rest = stripped_items items in if is_empty (strip raw) then rest else strip raw ∷ rest
stripped_items (_ ∷ items) = stripped_items items

abbrev pub items_of : Option Argument → List Item
items_of (some (array items)) = items
items_of _ = []

unfoldable pub get_arr : Arguments → Text → List Text
unfolding stripped_items
get_arr args key = stripped_items (items_of (get key args))

-- A refusal with its reason (Python's `repr` in it is left out), or the ValueError of an `int` that is not guarded.
pub data Failure : Type 0 where
  reason : Text → Failure
  value_error : Failure

unfoldable pub author_of : Text → Text → Either Text Failure
author_of raw given =
    let name = strip (drop 6 given) in
    if is_member given (codes "owner" ∷ codes "inferred" ∷ codes "unknown" ∷ [])
    then ok given
    else if starts_with (codes "agent:") given && not (is_empty name)
    then ok (codes "agent:" ++ name)
    else err
        (reason (codes "author must be owner | inferred | unknown | agent:<name>, got " ++ raw))

unfoldable pub parse_author : Option Argument → Either Text Failure
parse_author none = ok (codes "unknown")
parse_author (some null) = ok (codes "unknown")
parse_author (some (string raw)) = author_of raw (strip raw)
parse_author (some _) = err (reason (codes "author must be a string"))

unfoldable pub said_by_of : Option Field → Either (Option Text) Failure
said_by_of none = ok none
said_by_of (some other) = err (reason (codes "claims[].said_by: said_by must be a string"))
said_by_of (some (text raw)) =
    if text_eq (strip raw) (codes "owner")
    then ok (some (codes "owner"))
    else err (reason (codes "claims[].said_by: said_by must be owner, got " ++ raw))

abbrev pub said_claim : List (Text × Field) → Option Text → Option Claim
said_claim fields said_by =
    let field = λ (key : Text). stripped_field (get key fields) in
    let subject = field (codes "subject") in
    let predicate = field (codes "predicate") in
    let value = field (codes "value") in
    if is_empty subject || (is_empty predicate || is_empty value)
    then none
    else some (record {
      subject = subject;
      predicate = predicate;
      value = value;
      kind = field (codes "kind");
      confidence = field (codes "confidence");
      said_by = said_by;
    })

unfoldable pub parse_claim : Item → Either (Option Claim) Failure
parse_claim (object fields) = map_ok (said_by_of (get (codes "said_by") fields)) (said_claim fields)
parse_claim _ = ok none

unfoldable pub normalize_supersedes_path : Text → Text
normalize_supersedes_path raw =
    if starts_with (codes "/vault/wiki/") raw
    then raw
    else if starts_with (codes "wiki/") raw
    then codes "/vault/" ++ raw
    else if not (any (λ c. c == b'/') raw)
    then codes "/vault/wiki/" ++ raw
    else raw

unfoldable pub supersedes_items : List Item → Either (List Text) Failure
unfolding normalize_supersedes_path
supersedes_items [] = ok []
supersedes_items (text_item raw ∷ items) =
    map_ok (supersedes_items items) (λ paths.
      if is_empty (strip raw) then paths else normalize_supersedes_path (strip raw) ∷ paths)
supersedes_items (_ ∷ items) =
    err (
      reason (codes "supersedes items must be strings (source_path of the note this one corrects)"))

parse_supersedes_argument : Option Argument → Either (List Text) Failure
parse_supersedes_argument none = ok []
parse_supersedes_argument (some (array items)) = supersedes_items items
parse_supersedes_argument (some _) =
    err (reason (codes "supersedes must be an array of source_path strings"))

unfoldable pub parse_supersedes : Arguments → Either (List Text) Failure
unfolding parse_supersedes_argument
parse_supersedes args = parse_supersedes_argument (get (codes "supersedes") args)

parse_judge_argument : Option Argument → Either (Option Text) Failure
parse_judge_argument none = ok none
parse_judge_argument (some (string raw)) = map_ok (parse_author (some (string raw))) some
parse_judge_argument (some _) = err (reason (codes "judge must be a string"))

unfoldable pub parse_judge : Arguments → Either (Option Text) Failure
unfolding parse_judge_argument
parse_judge args = parse_judge_argument (get (codes "judge") args)

-- A repository rule of the configuration: its matcher and its name, both stripped.
abbrev pub RepoRule : Type 0
RepoRule = Text × Text

-- `needle in text`
unfoldable pub contains_text : Text → Text → Bool
contains_text needle [] = is_empty needle
contains_text needle (c ∷ s) = starts_with needle (c ∷ s) || contains_text needle s

module _ (table : CharTable) where
  rule_name : Text → List RepoRule → Option Text
  rule_name lowered [] = none
  rule_name lowered ((matcher, name) ∷ rules) =
      if not (is_empty matcher)
        && (not (is_empty name) && contains_text (table.lower matcher) lowered)
      then some name
      else rule_name lowered rules

  abbrev named_repo : Text → Option Text → Text
  named_repo repo (some name) = name
  named_repo repo none =
      let part = strip (last_part [] repo) in
      if any (λ c. c == b'/') repo then (if is_empty part then repo else part) else repo

  unfoldable pub canonical_repo : List RepoRule → Text → Text
  unfolding rule_name
  canonical_repo rules raw_repo =
      let repo = removesuffix (codes ".git") (strip raw_repo) in
      if is_empty (strip raw_repo) then [] else named_repo repo (rule_name (table.lower repo) rules)

-- What the parser calls beside the character tables.
pub record ParseDeps : Type 0 where
  pub table : CharTable
  pub scrub : Text → Text
  pub is_digit : ℕ → Bool
  pub repo_rules : List RepoRule

unfoldable pub digits_int : CharTable → ℕ → Text → Option ℕ
digits_int table acc [] = some acc
digits_int table acc (c ∷ s) = elim (table.digit c) [
  | some d ↦ digits_int table (acc * 10 + d) s
  | none ↦ none
]

abbrev pub since_value : Option ℕ → Either (Option ℕ) Failure
since_value (some n) = ok (some n)
since_value none = err value_error

abbrev pub origins : List Text
origins = codes "personal" ∷ codes "company" ∷ codes "mirror" ∷ codes "community" ∷ []

module _ (deps : ParseDeps) where
  open deps use {table, scrub}

  unfoldable pub clean_text : Text → Text
  clean_text raw = scrub (normalize_body raw)

  unfoldable pub clean_claim : Claim → Claim
  clean_claim claim = record {
    subject = clean_text claim.subject;
    predicate = clean_text claim.predicate;
    value = clean_text claim.value;
    kind = clean_text claim.kind;
    confidence = clean_text claim.confidence;
    said_by = claim.said_by;
  }

  abbrev pub cons_claim : Option Claim → List Claim → List Claim
  cons_claim none claims = claims
  cons_claim (some claim) claims = clean_claim claim ∷ claims

  unfoldable pub claim_items : List Item → Either (List Claim) Failure
  claim_items [] = ok []
  claim_items (item ∷ items) =
      let rest = claim_items items in
      bind (parse_claim item) (λ claim. map_ok rest (cons_claim claim))

  unfoldable pub parse_claims : Arguments → Either (List Claim) Failure
  parse_claims args = claim_items (items_of (get (codes "claims") args))

  unfoldable pub parse_since : Text → Either (Option ℕ) Failure
  parse_since since = if is_empty since then ok none else since_value (digits_int table 0 since)

  unfoldable pub parse_provenance : Arguments → Either (Text × Option ℕ) Failure
  parse_provenance args =
      let since = get_str args (codes "omb_session_since") in
      if not (is_empty since) && not (all deps.is_digit since)
      then err (reason (codes "invalid omb_session_since: " ++ since))
      else bind (parse_author (get (codes "author") args))
          (λ author. map_ok (parse_since since) (λ at. (author, at)))

  unfoldable pub parse_origin : Text → Either Text Failure
  parse_origin given =
      if is_empty given
      then ok (codes "personal")
      else if is_member given origins
      then ok given
      else err (reason (codes "invalid origin: " ++ given))

  unfoldable pub sanitized_tags : List Text → List Text
  sanitized_tags [] = []
  sanitized_tags (raw ∷ raws) = elim (sanitize_tag table raw) [
    | some tag ↦ tag ∷ sanitized_tags raws
    | none ↦ sanitized_tags raws
  ]

  abbrev pub with_repo : Option Text → List Text → List Text
  with_repo none tags = tags
  with_repo (some tag) tags = (codes "repo/" ++ tag) ∷ tags

  unfoldable pub note_tags : Text → List Text → List Text
  note_tags repo raws =
      let tags = take 6 (sanitized_tags raws) in
      if is_empty repo then tags else with_repo (sanitize_tag table repo) tags

  abbrev non_empty_text : Text → Option Text
  non_empty_text [] = none
  non_empty_text (c ∷ s) = some (c ∷ s)

  unfoldable pub parsed_note :
      Arguments → Text → Text → Text → List Claim → Text × Option ℕ → RememberNote
  parsed_note args title body origin claims (author, since) =
      let repo = canonical_repo table deps.repo_rules (get_str args (codes "repo")) in
      record {
        front = record {
          title = clean_text title;
          kind = codes "note";
          origin = origin;
          project = repo;
          date = [];
          tags = note_tags repo (get_arr args (codes "tags"));
          tools = map clean_text (get_arr args (codes "tools"));
          concepts = map clean_text (get_arr args (codes "concepts"));
          claims = claims;
          sources = map scrub (get_arr args (codes "sources"));
          omb_session_id = non_empty_text (get_str args (codes "omb_session_id"));
          author = author;
          omb_session_since = since;
        };
        body = scrub body;
      }

  unfoldable pub parse_remember_note : Arguments → Either RememberNote Failure
  parse_remember_note args =
      let title = get_str args (codes "title") in
      let body = normalize_body (get_str args (codes "body")) in
      if is_empty title
      then err (reason (codes "missing argument: title"))
      else if is_empty body
      then err (reason (codes "missing argument: body"))
      else bind (parse_origin (get_str args (codes "origin"))) (λ origin.
        bind (parse_claims args)
          (λ claims. map_ok (parse_provenance args) (parsed_note args title body origin claims)))
