-- ===== src/Remember/ReadBack.antt =====
-- How a note is read from its file: `split_frontmatter` of agents/shared/vault_note.py and
-- `parse_existing_note` of src/ohmyboring/remember/dedup.py. What `yaml.load` gives and
-- `str.isdigit` of one character are arguments; of a value only what the parser tells apart is kept.
pub mod Rendered
use ohmyboring.Prelude.{
  ℕ, Bool, true, false, not, ◌&&◌, Option, none, some, List, [], ◌∷◌, ◌++◌, if◌then◌else◌, any,
  ◌==◌, Text, codes, newline, is_empty, starts_with, split_lines, join_lines, text_eq,
}
use ohmyboring.Prelude.Int.{ℤ, pos, negsuc}
use ohmyboring.Prelude.Decimal.{strip, parse_int}
use ohmyboring.Remember.Note.{ExistingNote}
use ohmyboring.Remember.Dedup.{empty_note}

abbrev pub fence : Text
fence = codes "---"

abbrev pub carriage_return : ℕ
carriage_return = 13

abbrev drop_bom : Text → Text
drop_bom [] = []
drop_bom (c ∷ s) = if c == 65279 then s else c ∷ s

-- `text.replace("\r\n", "\n")`
unfoldable pub normalise_ends : Text → Text
normalise_ends [] = []
normalise_ends (c ∷ s) =
    let rest = normalise_ends s in
    if c == carriage_return && starts_with (newline ∷ []) s then rest else c ∷ rest

-- The loop, with the lines before.
unfoldable pub find_fence : List Text → List Text → Option (Text × Text)
find_fence before [] = none
find_fence before (line ∷ lines) =
    let later = find_fence (before ++ line ∷ []) lines in
    if text_eq (strip line) fence then some (join_lines before, join_lines lines) else later

abbrev pub after_first : List Text → Option (Text × Text)
after_first [] = none
after_first (first ∷ lines) = if text_eq (strip first) fence then find_fence [] lines else none

-- A text of one line has no fence behind the first.
unfoldable pub split_frontmatter : Text → Option (Text × Text)
split_frontmatter content = after_first (split_lines (normalise_ends (drop_bom content)))

-- An item of a list: a text, a map from keys to what is a text of its values, or another value.
pub data YamlItem : Type 0 where
  text : Text → YamlItem
  map_of : List (Text × Option Text) → YamlItem
  other : YamlItem

pub data NodeValue : Type 0 where
  text : Text → NodeValue
  items : List YamlItem → NodeValue
  other : NodeValue

abbrev pub Dict : Type 0
Dict = List (Text × NodeValue)

-- `front.get(key)`
abbrev pub get {ℓ} : {V : Type ℓ} → Text → List (Text × V) → Option V
get key [] = none
get key ((k, v) ∷ front) = if text_eq k key then some v else get key front

abbrev pub text_items : List YamlItem → List Text
text_items [] = []
text_items (text t ∷ is) = t ∷ text_items is
text_items (map_of m ∷ is) = text_items is
text_items (other ∷ is) = text_items is

abbrev pub strings_of : Option NodeValue → List Text
strings_of (some (items is)) = text_items is
strings_of _ = []

abbrev pub stripped_or_none : Option NodeValue → Option Text
stripped_or_none (some (text t)) = if is_empty (strip t) then none else some (strip t)
stripped_or_none _ = none

abbrev pub standing_of : Option NodeValue → Text
standing_of (some (text t)) = if text_eq t (codes "owner") then t else codes "unknown"
standing_of _ = codes "unknown"

abbrev pub flat : Option (Option Text) → Option Text
flat none = none
flat (some t) = t

abbrev pub triple : Option Text → Option Text → Option Text → Option (Text × Text × Text)
triple (some s) (some p) (some v) = some (s, p, v)
triple _ _ _ = none

abbrev pub claim_in : YamlItem → Option (Text × Text × Text)
claim_in (map_of m) =
    triple (flat (get (codes "subject") m)) (flat (get (codes "predicate") m))
      (flat (get (codes "value") m))
claim_in _ = none

abbrev pub cons_claim :
    Option (Text × Text × Text)
    → Option (List (Text × Text × Text))
    → Option (List (Text × Text × Text))
cons_claim (some c) (some cs) = some (c ∷ cs)
cons_claim _ _ = none

-- The claims, if each item is one.
unfoldable pub all_claims : List YamlItem → Option (List (Text × Text × Text))
all_claims [] = some []
all_claims (i ∷ is) = cons_claim (claim_in i) (all_claims is)

abbrev pub or_no_claims : Option (List (Text × Text × Text)) → List (Text × Text × Text)
or_no_claims none = []
or_no_claims (some cs) = cs

abbrev pub read_claims : Option NodeValue → List (Text × Text × Text)
read_claims (some (items is)) = or_no_claims (all_claims is)
read_claims _ = []

abbrev natural : Option ℤ → Option (Option ℕ)
natural none = none
natural (some (pos n)) = some (some n)
natural (some (negsuc n)) = none

abbrev pub front_note : Text → Text → Dict → ExistingNote
front_note source_path body front = record {
  source_path = source_path;
  title = stripped_or_none (get (codes "title") front);
  tags = strings_of (get (codes "tags") front);
  tools = strings_of (get (codes "tools") front);
  concepts = strings_of (get (codes "concepts") front);
  claims = read_claims (get (codes "claims") front);
  sources = strings_of (get (codes "sources") front);
  omb_session_id = stripped_or_none (get (codes "omb_session_id") front);
  author = standing_of (get (codes "author") front);
  body = body;
  omb_session_since = none;
}

abbrev pub with_since : ExistingNote → Option (Option ℕ) → Option ExistingNote
with_since note none = none
with_since note (some since) = some (record note { omb_session_since = since })

module _ (is_digit : ℕ → Bool) where
  -- `none` is the ValueError of `int`, which reads fewer texts than `isdigit` holds of.
  abbrev pub since_in : Option NodeValue → Option (Option ℕ)
  since_in (some (text s)) =
      if not (is_empty s) && not (any (λ c. not (is_digit c)) s)
      then natural (parse_int s)
      else some none
  since_in _ = some none

  abbrev pub from_front : Text → Text → Option Dict → Option ExistingNote
  from_front source_path body none = some (record (empty_note source_path) { body = body })
  from_front source_path body (some front) =
      with_since (front_note source_path body front)
        (since_in (get (codes "omb_session_since") front))

module _ (load : Text → Option Dict) (is_digit : ℕ → Bool) where
  abbrev pub from_split : Text → Option (Text × Text) → Option ExistingNote
  from_split source_path none = some (empty_note source_path)
  from_split source_path (some (raw_yaml, body)) =
      from_front is_digit source_path body (load raw_yaml)

  unfoldable pub parse_existing_note : Text → Text → Option ExistingNote
  parse_existing_note source_path content = from_split source_path (split_frontmatter content)
