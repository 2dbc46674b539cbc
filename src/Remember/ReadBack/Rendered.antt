-- ===== src/Remember/ReadBack/Rendered.antt =====
-- Reading a note that `render_wiki_note` of src/ohmyboring/remember/render.py has written.
use mathlib.Core.List.{reverse}
use mathlib.Core.Option.{some-injective}
use mathlib.Core.Path.{subst}
use ohmyboring.Prelude.{
  ℕ, Bool, true, false, Option, none, some, List, [], ◌∷◌, ◌++◌, ◌≡◌, refl, sym, ap, ◌∙◌, arith,
  if◌then◌else◌, any, map, ◌==◌, append_assoc, append-nil, Text, codes, newline, is_empty,
  split_lines, join_lines, split_lines-newline, join_lines-split_lines, text_eq, All,
}
use ohmyboring.Prelude.Decimal.{strip, lstrip}
use ohmyboring.Remember.Note.{Claim, FrontMatter, RememberNote, ExistingNote}
use ohmyboring.Remember.Quality.Newline.{IsReadBack}
use ohmyboring.Remember.Render.{YamlValue, Yaml, front_map, claim_map, render_wiki_note}
use ohmyboring.Remember.ReadBack.{
  fence, carriage_return, normalise_ends, find_fence, after_first, split_frontmatter, YamlItem,
  map_of, NodeValue, items, Dict, text_items, all_claims, with_since, front_note, since_in,
  or_no_claims, stripped_or_none, get, from_front, from_split, parse_existing_note,
}

abbrev pub loaded_value : YamlValue → NodeValue
loaded_value (YamlValue.text t) = NodeValue.text t
loaded_value (YamlValue.texts ts) = items (map YamlItem.text ts)
loaded_value (YamlValue.maps ms) =
    items (map (λ m. map_of (map (λ (e : Text × Text). (e.0, some e.1)) m)) ms)

abbrev pub loaded_dict : Yaml → Dict
loaded_dict m = map (λ (e : Text × YamlValue). (e.0, loaded_value e.1)) m

normalise_ends-no_carriage_return :
    (s : Text) → any (λ c. c == carriage_return) s ≡ false → normalise_ends s ≡ s
unfolding normalise_ends
normalise_ends-no_carriage_return [] h = refl
normalise_ends-no_carriage_return (c ∷ s) h =
    let other : (c == carriage_return) ≡ false = ground arith in
    rw other (ap (λ r. c ∷ r) (normalise_ends-no_carriage_return s (ground arith)))

fence-closed : text_eq (strip fence) fence ≡ true
unfolding strip lstrip
fence-closed = refl

find_fence-append :
    (before lines after : List Text)
    → All (λ l. text_eq (strip l) fence ≡ false) lines
    → find_fence before (lines ++ fence ∷ after)
      ≡ some (join_lines (before ++ lines), join_lines after)
unfolding find_fence
find_fence-append before [] after h = rw (fence-closed, append-nil before) refl
find_fence-append before (line ∷ lines) after h = rw h.0 (
    find_fence-append (before ++ line ∷ []) lines after h.1
    ∙ ap (λ b. some (join_lines b, join_lines after)) (append_assoc before (line ∷ []) lines))

front_lines :
    (y tail : Text)
    → split_lines (fence ++ newline ∷ ((y ++ newline ∷ []) ++ (fence ++ newline ∷ tail)))
      ≡ fence ∷ (split_lines y ++ fence ∷ split_lines tail)
unfolding split_lines
front_lines y tail =
    split_lines-newline fence ((y ++ newline ∷ []) ++ (fence ++ newline ∷ tail))
    ∙ ap (λ (t : Text). fence ∷ split_lines t)
        (append_assoc y (newline ∷ []) (fence ++ newline ∷ tail))
    ∙ ap (λ ls. fence ∷ ls) (split_lines-newline y (fence ++ newline ∷ tail))
    ∙ ap (λ ls. fence ∷ (split_lines y ++ ls)) (split_lines-newline fence tail)

text_items-map : (ts : List Text) → text_items (map YamlItem.text ts) ≡ ts
text_items-map [] = refl
text_items-map (t ∷ ts) = ap (λ r. t ∷ r) (text_items-map ts)

abbrev as_triple : Claim → Text × Text × Text
as_triple c = (c.subject, c.predicate, c.value)

all_claims-map :
    (cs : List Claim)
    → all_claims
        (map (λ m. map_of (map (λ (e : Text × Text). (e.0, some e.1)) m)) (map claim_map cs))
      ≡ some (map as_triple cs)
unfolding all_claims claim_map
all_claims-map [] = refl
all_claims-map (c ∷ cs) = rw (all_claims-map cs) refl

-- What is asked of a note for its file to be read as it was written: `yaml.safe_dump` ends its text
-- with a line feed and `yaml.load` gives back what was printed, no line of it is a fence, there is
-- no carriage return, and the title and the body are stripped, the title not empty.
pub record IsPlain (safe_dump : Yaml → Text) (load : Text → Option Dict) (wiki_id : Text)
    (front : FrontMatter) (body : Text) : Type 0 where
  pub raw : Text
  pub dumped : safe_dump (front_map wiki_id front) ≡ raw ++ newline ∷ []
  pub loaded : load raw ≡ some (loaded_dict (front_map wiki_id front))
  pub no_carriage_return :
      any (λ c. c == carriage_return) (render_wiki_note safe_dump wiki_id front body) ≡ false
  pub no_fence : All (λ l. text_eq (strip l) fence ≡ false) (split_lines raw)
  pub titled : is_empty front.title ≡ false
  pub title_stripped : strip front.title ≡ front.title
  pub body_stripped : reverse (lstrip (reverse body)) ≡ body

split_frontmatter-render_wiki_note :
    (safe_dump : Yaml → Text) (load : Text → Option Dict) (wiki_id : Text) (front : FrontMatter)
    (body : Text) (p : IsPlain safe_dump load wiki_id front body)
    → split_frontmatter (render_wiki_note safe_dump wiki_id front body)
      ≡ some (p.raw, reverse (lstrip (reverse body)) ++ newline ∷ [])
unfolding split_frontmatter render_wiki_note
split_frontmatter-render_wiki_note safe_dump load wiki_id front body p =
    let tail = reverse (lstrip (reverse body)) ++ newline ∷ [] in
    ap (λ t. after_first (split_lines t))
      (normalise_ends-no_carriage_return (render_wiki_note safe_dump wiki_id front body)
        p.no_carriage_return)
    ∙ ap (λ t. after_first (split_lines (fence ++ newline ∷ (t ++ (fence ++ newline ∷ tail)))))
        p.dumped
    ∙ ap after_first (front_lines p.raw tail)
    ∙ rw
        (
          fence-closed,
          find_fence-append [] (split_lines p.raw) (split_lines tail) p.no_fence,
          join_lines-split_lines p.raw,
          join_lines-split_lines tail,
        )
        refl

title-kept :
    (title wiki_id : Text)
    → is_empty title ≡ false
    → strip title ≡ title
    → stripped_or_none (some (NodeValue.text (if is_empty title then wiki_id else title)))
      ≡ some title
title-kept title wiki_id titled stripped = rw (titled, stripped, titled) refl

with_since-IsReadBack :
    (note : RememberNote) (read existing : ExistingNote) (since : Option (Option ℕ))
    → IsReadBack note read
    → with_since read since ≡ some existing
    → IsReadBack note existing
with_since-IsReadBack note read existing none r e = absurd cc
with_since-IsReadBack note read existing (some since) r e =
    subst (IsReadBack note) (some-injective _ existing e) (record {
      title = r.title;
      tags = r.tags;
      tools = r.tools;
      concepts = r.concepts;
      claims = r.claims;
      sources = r.sources;
      body = r.body;
    })

module _ (safe_dump : Yaml → Text) (load : Text → Option Dict) (is_digit : ℕ → Bool)
    (wiki_id today : Text) (note : RememberNote) where
  abbrev dated : FrontMatter
  dated = record note.front { date = today }

  abbrev pub file_text : Text
  file_text = render_wiki_note safe_dump wiki_id dated note.body

  front_note-IsReadBack :
      (source_path body : Text)
      → is_empty note.front.title ≡ false
      → strip note.front.title ≡ note.front.title
      → body ≡ note.body ++ newline ∷ []
      → IsReadBack note (front_note source_path body (loaded_dict (front_map wiki_id dated)))
  unfolding front_map
  front_note-IsReadBack source_path body titled stripped same = record {
    title = title-kept note.front.title wiki_id titled stripped;
    tags = text_items-map note.front.tags;
    tools = text_items-map note.front.tools;
    concepts = text_items-map note.front.concepts;
    claims = ap or_no_claims (all_claims-map note.front.claims);
    sources = text_items-map note.front.sources;
    body = same;
  }

  -- What is read of the file of a plain note has the fields of the note, and its body with a line
  -- feed.
  pub parse_existing_note-IsReadBack :
      (source_path : Text) (existing : ExistingNote)
      → IsPlain safe_dump load wiki_id dated note.body
      → parse_existing_note load is_digit source_path file_text ≡ some existing
      → IsReadBack note existing
  unfolding parse_existing_note
  parse_existing_note-IsReadBack source_path existing p e =
      let m = front_map wiki_id dated in
      let body = reverse (lstrip (reverse note.body)) ++ newline ∷ [] in
      with_since-IsReadBack note (front_note source_path body (loaded_dict m)) existing
        (since_in is_digit (get (codes "omb_session_since") (loaded_dict m)))
        (front_note-IsReadBack source_path body p.titled p.title_stripped
          (ap (λ b. b ++ newline ∷ []) p.body_stripped))
        (sym (
            ap (from_split load is_digit source_path)
              (split_frontmatter-render_wiki_note safe_dump load wiki_id dated note.body p)
            ∙ ap (from_front is_digit source_path body) p.loaded)
          ∙ e)
