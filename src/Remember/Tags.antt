-- ===== src/Remember/Tags.antt =====
-- `sanitize_tag` of src/ohmyboring/remember/parse.py.
pub mod Clean
use ohmyboring.Prelude.{
  ℕ, Bool, true, false, not, ◌&&◌, ◌||◌, Option, none, some, List, [], ◌∷◌, if◌then◌else◌, leb,
  ◌==◌, all, Text, is_empty,
}
use ohmyboring.Prelude.Decimal.{strip}
use ohmyboring.Remember.Note.{CharTable}

abbrev pub is_digit : ℕ → Bool
is_digit c = leb b'0' c && leb c b'9'

unfoldable pub is_tag_char : ℕ → Bool
is_tag_char c =
    (leb b'A' c && leb c b'Z') || (leb b'a' c && leb c b'z') || is_digit c || c == b'_' || c == b'/'

-- The loop; `prev` is `prev_dash`.
unfoldable pub tag_loop : Bool → Text → Text
tag_loop prev [] = []
tag_loop prev (c ∷ s) =
    let kept = tag_loop false s in
    let dashed = tag_loop true s in
    if is_tag_char c then c ∷ kept else if prev then dashed else b'-' ∷ dashed

abbrev pub is_edge : ℕ → Bool
is_edge c = c == b'-' || c == b'/'

-- `strip("-/")`
unfoldable pub strip_left : Text → Text
strip_left [] = []
strip_left (c ∷ s) = let rest = strip_left s in if is_edge c then rest else c ∷ s

unfoldable pub strip_right : Text → Text
strip_right [] = []
strip_right (c ∷ s) =
    let rest = strip_right s in if is_empty rest && is_edge c then [] else c ∷ rest

unfoldable pub checked : Text → Option Text
checked trimmed = if is_empty trimmed || all is_digit trimmed then none else some trimmed

unfoldable pub sanitize_tag : CharTable → Text → Option Text
sanitize_tag table raw =
    checked (strip_right (strip_left (tag_loop false (table.lower (strip raw)))))
