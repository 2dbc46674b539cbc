-- ===== src/Remember/Match.antt =====
-- src/ohmyboring/remember/dedup.py: which note on disk the incoming one repeats, and the pick among
-- the matches.
use ohmyboring.Prelude.{
  ℕ, zero, suc, ◌+◌, ◌-◌, ◌*◌, ltb, Bool, true, false, not, ◌&&◌, ◌||◌, Option, none, some, List,
  [], ◌∷◌, ◌++◌, if◌then◌else◌, ◌==◌, filter, drop, take, length, map, Text, codes, newline,
  starts_with, text_eq, is_empty,
}
use mathlib.Core.List.{reverse}
use ohmyboring.Prelude.Int.{ℤ, pos, negsuc, leb_ℤ}
use ohmyboring.Prelude.Decimal.{strip}
use ohmyboring.Remember.Note.{CharTable, RememberNote, ExistingNote}
use ohmyboring.Remember.Tokens.{token_jaccard_at_least, token_overlap_min_at_least}
use ohmyboring.Remember.Quality.{
  Branch, same_session, probable_session, exact_title, or_empty, is_repo_tag,
}

pub record DuplicateMatch : Type 0 where
  pub source_path : Text
  pub branch : Branch
  pub existing : ExistingNote

join_spaces : List Text → Text
join_spaces [] = []
join_spaces (t ∷ []) = t
join_spaces (t ∷ u ∷ ts) = t ++ b' ' ∷ join_spaces (u ∷ ts)

claim_parts : List (Text × Text × Text) → List Text
claim_parts [] = []
claim_parts ((subject, predicate, value) ∷ claims) =
    subject ∷ predicate ∷ value ∷ claim_parts claims

unfoldable pub semantic_text : List Text → List Text → List Text → List (Text × Text × Text) → Text
unfolding join_spaces claim_parts
semantic_text tools concepts tags claims =
    join_spaces
      (tools ++ concepts ++ filter (λ tag. not (is_repo_tag tag)) tags ++ claim_parts claims)

-- The last part of a path, without a suffix `.md`.
unfoldable pub last_part : Text → Text → Text
last_part part [] = part
last_part part (c ∷ s) =
    let fresh = last_part [] s in
    let longer = last_part (part ++ c ∷ []) s in if c == b'/' then fresh else longer

unfoldable pub removesuffix : Text → Text → Text
removesuffix suffix s =
    if starts_with (reverse suffix) (reverse s) then take (length s - length suffix) s else s

abbrev pub is_same_session : DuplicateMatch → Bool
is_same_session m = elim m.branch [ same_session ↦ true | _ ↦ false ]

-- `(\d+)$`: `$` also stands before a line feed that ends the text.
at_end : ℕ → Text → Option ℕ
at_end n [] = some n
at_end n (c ∷ []) = if c == newline then some n else none
at_end n (c ∷ d ∷ s) = none

-- `wiki_number(...) or -1`, where 0 counts as false.
abbrev number_or : Option ℕ → ℤ
number_or none = negsuc 0
number_or (some zero) = negsuc 0
number_or (some (suc n)) = pos (suc n)

abbrev or_else : Option DuplicateMatch → Option DuplicateMatch → Option DuplicateMatch
or_else none o = o
or_else (some m) o = some m

abbrev session_dup_title_min : ℕ × ℕ
session_dup_title_min = (1, 5)

abbrev session_dup_body_min : ℕ × ℕ
session_dup_body_min = (1, 5)

abbrev session_dup_semantic_min : ℕ × ℕ
session_dup_semantic_min = (9, 20)

abbrev both_given : Option Text → Option Text → Bool
both_given (some s) (some t) = true
both_given _ _ = false

unfoldable pub continues_after : Option ℕ → Option ℕ → Bool
continues_after none existing_since = false
continues_after (some since) none = true
continues_after (some since) (some existing_since) = ltb existing_since since

abbrev is_session_of : Option Text → Option Text → Bool
is_session_of (some target) (some session) = text_eq session target
is_session_of _ _ = false

module _ (table : CharTable) where
  open table use {lower, digit}

  more_digits : ℕ → Text → Option ℕ
  unfolding at_end
  more_digits n [] = some n
  more_digits n (c ∷ s) = elim (digit c) [
    | none ↦ at_end n (c ∷ s)
    | some d ↦ more_digits (n * 10 + d) s
  ]

  first_digit : Text → Option ℕ
  unfolding more_digits
  first_digit [] = none
  first_digit (c ∷ s) = elim (digit c) [ none ↦ none | some d ↦ more_digits d s ]

  search_stem : Text → Option ℕ
  unfolding first_digit
  search_stem [] = none
  search_stem (c ∷ s) =
      let later = search_stem s in
      let here =
        if starts_with (codes "wiki-") (c ∷ s) then first_digit (drop 5 (c ∷ s)) else none in
      elim here [ none ↦ later | some n ↦ some n ]

  unfoldable pub wiki_number : Text → Option ℕ
  unfolding last_part removesuffix search_stem
  wiki_number path = search_stem (removesuffix (codes ".md") (last_part [] path))

  unfoldable pub path_number : Text → ℤ
  path_number path = number_or (wiki_number path)

  -- `max` keeps the first of the greatest.
  unfoldable pub newest_of : DuplicateMatch → List DuplicateMatch → DuplicateMatch
  newest_of best [] = best
  newest_of best (m ∷ ms) =
      if leb_ℤ (path_number m.source_path) (path_number best.source_path)
      then newest_of best ms
      else newest_of m ms

  unfoldable pub newest_match : List DuplicateMatch → Option DuplicateMatch
  newest_match [] = none
  newest_match (m ∷ ms) = some (newest_of m ms)

  unfoldable pub pick_duplicate : List DuplicateMatch → Option DuplicateMatch
  pick_duplicate matches =
      or_else (newest_match (filter is_same_session matches))
        (newest_match (filter (λ m. not (is_same_session m)) matches))

  unfoldable pub probable_session_duplicate : RememberNote → ExistingNote → Bool
  unfolding semantic_text
  probable_session_duplicate note existing =
      let front = note.front in
      let title_match =
        token_jaccard_at_least table front.title (or_empty existing.title) session_dup_title_min in
      let body_match = token_jaccard_at_least table note.body existing.body session_dup_body_min in
      let semantic_match =
        token_overlap_min_at_least table
          (semantic_text front.tools front.concepts front.tags
            (map (λ c. (c.subject, c.predicate, c.value)) front.claims))
          (semantic_text existing.tools existing.concepts existing.tags existing.claims)
          session_dup_semantic_min in
      if not (both_given front.omb_session_id existing.omb_session_id)
      then false
      else semantic_match && (title_match || body_match)

  unfoldable pub branch_for : RememberNote → ExistingNote → Option Branch
  branch_for note existing =
      let front = note.front in
      let target_title = lower (strip front.title) in
      if is_session_of front.omb_session_id existing.omb_session_id
        && not (continues_after front.omb_session_since existing.omb_session_since)
      then some same_session
      else if probable_session_duplicate note existing
      then some probable_session
      else if not (is_empty target_title)
          && text_eq (lower (strip (or_empty existing.title))) target_title
      then some exact_title
      else none
