-- ===== src/Remember/Render.antt =====
-- src/ohmyboring/remember/render.py: the text of a wiki note. `yaml.safe_dump` is a parameter.
use mathlib.Core.List.{reverse}
use ohmyboring.Prelude.{
  ℕ, Option, none, some, List, [], ◌∷◌, ◌++◌, if◌then◌else◌, map, Text, codes, newline, is_empty,
}
use ohmyboring.Prelude.Decimal.{lstrip, show_nat}
use ohmyboring.Remember.Note.{Claim, FrontMatter}

-- A value of the front matter, as it is given to the YAML printer.
pub data YamlValue : Type 0 where
  text : Text → YamlValue
  texts : List Text → YamlValue
  maps : List (List (Text × Text)) → YamlValue

abbrev pub Yaml : Type 0
Yaml = List (Text × YamlValue)

abbrev said_by_entry : Option Text → List (Text × Text)
said_by_entry none = []
said_by_entry (some speaker) = (codes "said_by", speaker) ∷ []

unfoldable pub claim_map : Claim → List (Text × Text)
claim_map claim =
    (codes "subject", claim.subject)
    ∷ (codes "predicate", claim.predicate)
    ∷ (codes "value", claim.value)
    ∷ (codes "kind", claim.kind)
    ∷ (codes "confidence", claim.confidence)
    ∷ said_by_entry claim.said_by

abbrev text_entry : Text → Option Text → Yaml
text_entry key none = []
text_entry key (some value) = (key, text value) ∷ []

abbrev since_text : Option ℕ → Option Text
since_text none = none
since_text (some n) = some (show_nat n)

abbrev or_else : Text → Text → Text
or_else value default = if is_empty value then default else value

unfoldable pub front_map : Text → FrontMatter → Yaml
front_map wiki_id front =
    (codes "id", text wiki_id)
    ∷ (codes "title", text (or_else front.title wiki_id))
    ∷ (codes "kind", text (or_else front.kind (codes "note")))
    ∷ (codes "origin", text front.origin)
    ∷ (codes "project", text front.project)
    ∷ (codes "date", text front.date)
    ∷ (codes "tags", texts front.tags)
    ∷ (codes "tools", texts front.tools)
    ∷ (codes "concepts", texts front.concepts)
    ∷ (codes "claims", maps (map claim_map front.claims))
    ∷ (codes "relates_to", texts [])
    ∷ (codes "sources", texts front.sources)
    ∷ (text_entry (codes "omb_session_id") front.omb_session_id
        ++ (text_entry (codes "omb_session_since") (since_text front.omb_session_since)
            ++ (codes "author", text front.author) ∷ []))

unfoldable pub render_wiki_note : (Yaml → Text) → Text → FrontMatter → Text → Text
render_wiki_note safe_dump wiki_id front body =
    codes "---\n"
    ++ (safe_dump (front_map wiki_id front)
        ++ (codes "---\n" ++ (reverse (lstrip (reverse body)) ++ newline ∷ [])))
