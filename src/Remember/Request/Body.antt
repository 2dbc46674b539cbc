-- ===== src/Remember/Request/Body.antt =====
-- `normalize_body` of src/ohmyboring/remember/parse.py.
use mathlib.Core.List.{reverse}
use ohmyboring.Prelude.{
  ℕ, suc, Bool, true, false, ◌&&◌, ◌||◌, List, [], ◌∷◌, ◌++◌, if◌then◌else◌, any, drop, leb, ◌==◌,
  Text, codes, newline, is_empty, starts_with, split_lines, join_lines,
}
use ohmyboring.Prelude.Decimal.{strip}

-- How many `#` a line begins with.
unfoldable pub hashes : Text → ℕ
hashes [] = 0
hashes (c ∷ s) = let more = hashes s in if c == b'#' then suc more else 0

unfoldable pub is_atx_heading : Text → Bool
unfolding hashes
is_atx_heading line =
    leb 1 (hashes line)
    && (leb (hashes line) 6 && starts_with (codes " ") (drop (hashes line) line))

-- The loop on the lines, the last one first.
unfoldable pub drop_headings : List Text → List Text
unfolding is_atx_heading
drop_headings [] = []
drop_headings (line ∷ lines) =
    let rest = drop_headings lines in
    if is_empty (strip line) || is_atx_heading (strip line) then rest else line ∷ lines

unfoldable pub strip_trailing_empty_heading : Text → Text
strip_trailing_empty_heading body =
    join_lines (reverse (drop_headings (reverse (split_lines body))))

abbrev is_escaped_mark : ℕ → Bool
is_escaped_mark c = any (λ mark. c == mark) (codes "`#\"*_[]()\\")

unescape_char : ℕ → Text
unescape_char c =
    if c == b'n'
    then newline ∷ []
    else if c == b't'
    then 9 ∷ []
    else if c == b'r'
    then 13 ∷ []
    else if is_escaped_mark c
    then c ∷ []
    else b'\\' ∷ c ∷ []

-- The loop over the characters; `escaped` says that a backslash has been read.
unfoldable pub unescape : Bool → Text → Text
unfolding unescape_char
unescape true [] = b'\\' ∷ []
unescape false [] = []
unescape true (c ∷ s) = unescape_char c ++ unescape false s
unescape false (c ∷ s) =
    let escape = unescape true s in
    let plain = c ∷ unescape false s in if c == b'\\' then escape else plain

unfoldable pub normalize_body : Text → Text
unfolding unescape strip_trailing_empty_heading
normalize_body body = strip (strip_trailing_empty_heading (strip (unescape false body)))
