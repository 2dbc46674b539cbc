-- ===== src/Remember/Anchors.antt =====
-- The anchors of src/ohmyboring/remember/writer.py: the places `project:path:Lx` that a note's body
-- cites. A position in the body is a number of characters; the text before it is kept reversed.
use mathlib.Core.List.{reverse}
use ohmyboring.Prelude.{
  ℕ, zero, suc, ◌+◌, ◌-◌, ◌*◌, Bool, false, not, ◌&&◌, ◌||◌, Option, none, some, List, [], ◌∷◌,
  ◌++◌, if◌then◌else◌, ltb, leb, ◌==◌, any, length, drop, Text, codes, is_empty, starts_with,
}
use ohmyboring.Prelude.Decimal.{is_space, show_nat}
use ohmyboring.Prelude.Sorting.{sort_by}
use ohmyboring.Remember.Note.{CharTable}
use ohmyboring.Remember.Tokens.{is_member}
use ohmyboring.Remember.Quality.{contains}
use ohmyboring.Remember.Match.{last_part}

pub record Anchor : Type 0 where
  pub project : Text
  pub path : Text
  pub span : Option (ℕ × ℕ)

abbrev source_exts : List Text
source_exts =
    codes "rs"
    ∷ codes "py"
    ∷ codes "ts"
    ∷ codes "tsx"
    ∷ codes "js"
    ∷ codes "go"
    ∷ codes "sh"
    ∷ codes "sql"
    ∷ codes "toml"
    ∷ codes "yaml"
    ∷ codes "yml"
    ∷ codes "md"
    ∷ []

abbrev pub anchor_cap : ℕ
anchor_cap = 20

abbrev has_char : ℕ → Text → Bool
has_char c s = any (λ d. d == c) s

abbrev anchor_open : Text
anchor_open = codes "'\"([{`"

abbrev anchor_close : Text
anchor_close = codes "'\")]}.,:;:!?`"

show_span : Option (ℕ × ℕ) → Text
show_span none = []
show_span (some (start, end)) =
    codes ":L" ++ (show_nat start ++ (if ltb start end then codes "-L" ++ show_nat end else []))

unfoldable pub to_db_string : Anchor → Text
unfolding show_span
to_db_string a = a.project ++ b':' ∷ (a.path ++ show_span a.span)

-- The part after the last dot, if there is a dot.
extension_from : Option Text → Text → Text
extension_from none [] = []
extension_from (some ext) [] = ext
extension_from none (c ∷ s) = extension_from (if c == b'.' then some [] else none) s
extension_from (some ext) (c ∷ s) =
    extension_from (some (if c == b'.' then [] else ext ++ c ∷ [])) s

unfoldable pub normalize_path : Text → Option Text
normalize_path [] = none
normalize_path (c ∷ []) = some (c ∷ [])
normalize_path (c ∷ d ∷ s) =
    let stripped = normalize_path s in if c == b'.' && d == b'/' then stripped else some (c ∷ d ∷ s)

is_digit_char : ℕ → Bool
is_digit_char c = leb b'0' c && leb c b'9'

is_path_char : ℕ → Bool
unfolding is_digit_char
is_path_char c =
    (leb b'A' c && leb c b'Z')
    || (leb b'a' c && leb c b'z')
    || is_digit_char c
    || has_char c (codes "_-./~")

abbrev take_while : (ℕ → Bool) → Text → Text
take_while p [] = []
take_while p (c ∷ s) = let rest = take_while p s in if p c then c ∷ rest else []

number_of : ℕ → Text → ℕ
number_of acc [] = acc
number_of acc (c ∷ s) = number_of (acc * 10 + (c - 48)) s

second_number : Text → Text
unfolding is_digit_char
second_number [] = []
second_number (c ∷ s) = if c == b'-' then take_while is_digit_char s else []

-- The span, and how many characters it takes.
unfoldable pub parse_span : Text → Option ((ℕ × ℕ) × ℕ)
unfolding is_digit_char number_of second_number
parse_span s =
    let first = take_while is_digit_char s in
    let second = second_number (drop (length first) s) in
    if is_empty first
    then none
    else if is_empty second
    then some ((number_of 0 first, number_of 0 first), length first)
    else some ((number_of 0 first, number_of 0 second), length first + 1 + length second)

abbrev head_is : (ℕ → Bool) → Text → Bool
head_is p [] = false
head_is p (c ∷ s) = p c

abbrev starts_badly : Text → Bool
starts_badly path = starts_with (codes "~") path || starts_with (codes "/tmp") path

module _ (table : CharTable) where
  open table use {lower}

  has_source_ext : Text → Bool
  unfolding extension_from
  has_source_ext path = is_member (lower (extension_from none path)) source_exts

  -- The path before the colon, if the text before it ends with one that counts.
  cited_path : Option Text → Option Text
  unfolding has_source_ext
  cited_path none = none
  cited_path (some path) =
      if not (has_char b'/' path || has_source_ext path) || starts_badly path
      then none
      else some path

  abbrev is_url : Text → Text → Bool
  is_url before path =
      head_is (λ c. c == b':') (drop (length path) before)
      && head_is (λ c. c == b'/') (reverse path)

  found_span : Text → ℕ → Option Text → Option ((ℕ × ℕ) × ℕ) → Option ((ℕ × Anchor) × ℕ)
  found_span project start (some path) (some (span, used)) =
      some ((start, record { project = project; path = path; span = some span }), used)
  found_span project start _ _ = none

  -- At a colon with a digit behind it: the mention, and how far it goes behind the colon.
  mention_at : Text → ℕ → Text → Text → Option ((ℕ × Anchor) × ℕ)
  unfolding is_path_char cited_path found_span
  mention_at project at before after =
      let path = take_while is_path_char before in
      if is_url before path
      then none
      else found_span project (at - length path) (cited_path (normalize_path (reverse path)))
          (parse_span after)

  abbrev add_mention : Option ((ℕ × Anchor) × ℕ) → (ℕ → List (ℕ × Anchor)) → List (ℕ × Anchor)
  add_mention none rest = rest 0
  add_mention (some (found, used)) rest = found ∷ rest used

  t1_loop : Text → ℕ → ℕ → Text → Text → List (ℕ × Anchor)
  unfolding mention_at is_digit_char
  t1_loop project at skip before [] = []
  t1_loop project at (suc skip) before (c ∷ s) = t1_loop project (suc at) skip (c ∷ before) s
  t1_loop project at zero before (c ∷ s) =
      add_mention
        (if c == b':' && head_is is_digit_char s then mention_at project at before s else none)
        (λ skip. t1_loop project (suc at) skip (c ∷ before) s)

  unfoldable pub t1_mentions : Text → Text → List (ℕ × Anchor)
  unfolding t1_loop
  t1_mentions project body = t1_loop project 0 0 [] body

  abbrev strip_open : Text → Text
  strip_open [] = []
  strip_open (c ∷ s) = let rest = strip_open s in if has_char c anchor_open then rest else c ∷ s

  abbrev strip_close : Text → Text
  strip_close [] = []
  strip_close (c ∷ s) =
      let rest = strip_close s in if is_empty rest && has_char c anchor_close then [] else c ∷ rest

  unfoldable pub trim_decoration : Text → Text
  trim_decoration token = strip_close (strip_open token)

  -- `body.split()`
  split_loop : Text → Text → List Text
  split_loop word [] = if is_empty word then [] else word ∷ []
  split_loop word (c ∷ s) =
      let next = split_loop [] s in
      let longer = split_loop (word ++ c ∷ []) s in
      if is_space c then (if is_empty word then next else word ∷ next) else longer

  token_path : Text → Option Text
  unfolding has_source_ext
  token_path token =
      if has_char b':' token || (not (has_char b'/' token) || not (has_source_ext token))
      then none
      else if starts_badly token || contains (codes "://") token
      then none
      else normalize_path token

  abbrev add_path : Text → ℕ → Option Text → List (ℕ × Anchor) → List (ℕ × Anchor)
  add_path project offset none rest = rest
  add_path project offset (some path) rest =
      (offset, record { project = project; path = path; span = none }) ∷ rest

  t1b_loop : Text → ℕ → List Text → List (ℕ × Anchor)
  unfolding token_path
  t1b_loop project offset [] = []
  t1b_loop project offset (raw ∷ tokens) =
      add_path project offset (token_path (trim_decoration raw))
        (t1b_loop project (offset + length raw + 1) tokens)

  unfoldable pub t1b_mentions : Text → Text → List (ℕ × Anchor)
  unfolding t1b_loop split_loop
  t1b_mentions project body = t1b_loop project 0 (split_loop [] body)

  unfoldable pub distinct_loop : ℕ → List Text → List (ℕ × Anchor) → List Anchor
  distinct_loop room seen [] = []
  distinct_loop zero seen (found ∷ later) = []
  distinct_loop (suc room) seen ((at, anchor) ∷ later) =
      let key = to_db_string anchor in
      let skipped = distinct_loop (suc room) seen later in
      let taken = anchor ∷ distinct_loop room (key ∷ seen) later in
      if is_member key seen then skipped else taken

  unfoldable pub from_note_body : Text → Text → List Anchor
  from_note_body project body =
      distinct_loop anchor_cap []
        (sort_by (λ m. m.0) (t1_mentions project body ++ t1b_mentions project body))

  unfoldable pub anchor_for_claim : List Anchor → Text → Text → Option Anchor
  anchor_for_claim [] subject value = none
  anchor_for_claim (anchor ∷ anchors) subject value =
      let haystack = lower (subject ++ b' ' ∷ value) in
      let later = anchor_for_claim anchors subject value in
      if contains (lower anchor.path) haystack
        || contains (lower (last_part [] anchor.path)) haystack
      then some anchor
      else later
