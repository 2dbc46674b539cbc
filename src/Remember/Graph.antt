-- ===== src/Remember/Graph.antt =====
-- src/ohmyboring/remember/graph.py: the edges that a note leaves in the graph, and which claims of the
-- notes that it replaces it closes. The front matter is that of the note types; a set is a list.
pub mod Seals
use ohmyboring.Prelude.{
  ℕ, zero, suc, ◌-◌, Bool, true, false, not, ◌&&◌, ◌||◌, Option, none, some, List, [], ◌∷◌, ◌++◌,
  if◌then◌else◌, leb, ◌==◌, any, filter, length, take, map, flatten, Text, codes, is_empty,
  starts_with, text_eq,
}
use ohmyboring.Prelude.Decimal.{is_space, strip}
use ohmyboring.Remember.Note.{CharTable, Claim, FrontMatter}
use ohmyboring.Remember.Tokens.{is_member}

pub record Edge : Type 0 where
  pub src : Text
  pub kind : Text
  pub dst : Text

abbrev pub project_cap : ℕ
project_cap = 6

abbrev pub owner_speaker_node : Text
owner_speaker_node = codes "person:owner"

abbrev work_denials : List Text
work_denials =
    codes "none"
    ∷ codes "nothing"
    ∷ codes "n/a"
    ∷ codes "na"
    ∷ codes "not applicable"
    ∷ codes "no"
    ∷ codes "-"
    ∷ codes "--"
    ∷ codes "없음"
    ∷ codes "없다"
    ∷ codes "없습니다"
    ∷ codes "없어요"
    ∷ codes "해당 없음"
    ∷ codes "해당없음"
    ∷ codes "남은 작업 없음"
    ∷ codes "남은 작업이 없음"
    ∷ codes "なし"
    ∷ codes "無し"
    ∷ codes "該当なし"
    ∷ []

unfoldable pub has_han : Text → Bool
has_han text = any (λ c. leb 0x4e00 c && leb c 0x9fff) text

-- `text.replace(old, new)` for an `old` that is not empty; `skip` characters of a match are left.
unfoldable pub replace_from : ℕ → Text → Text → Text → Text
replace_from skip old new [] = []
replace_from (suc skip) old new (c ∷ s) = replace_from skip old new s
replace_from zero old new (c ∷ s) =
    let matched = new ++ replace_from (length old - 1) old new s in
    let kept = c ∷ replace_from zero old new s in if starts_with old (c ∷ s) then matched else kept

abbrev replace : Text → Text → Text → Text
replace old new s = replace_from 0 old new s

is_ascii_alnum : ℕ → Bool
is_ascii_alnum c =
    (leb b'A' c && leb c b'Z') || (leb b'a' c && leb c b'z') || (leb b'0' c && leb c b'9')

abbrev pub is_separator : ℕ → Bool
is_separator c = is_space c || c == b'_' || c == b'-'

-- The loop of `canon`: `started` says that something is out, `prev` that a separator stood before.
unfoldable pub canon_loop : Bool → Bool → Text → Text
canon_loop started prev [] = []
canon_loop started prev (c ∷ s) =
    let skipped = canon_loop started true s in
    let kept = c ∷ canon_loop true false s in
    if is_separator c then skipped else if prev && started then b'-' ∷ kept else kept

abbrev is_full_stop : ℕ → Bool
is_full_stop c = c == b'.' || c == 0x3002

-- `rstrip(".。")`
rstrip_stops : Text → Text
rstrip_stops [] = []
rstrip_stops (c ∷ s) =
    let rest = rstrip_stops s in if is_empty rest && is_full_stop c then [] else c ∷ rest

abbrev pub is_project : Text → Bool
is_project project = not (is_empty project)

abbrev pub doc_node_id : Text → Text
doc_node_id path = codes "doc:" ++ path

abbrev pub Slot : Type 0
Slot = Text × Text

abbrev pub claim_id_of : Slot → Text
claim_id_of (subject, predicate) = codes "claim:" ++ subject ++ codes ":" ++ predicate

abbrev pub typed_id_of : Text → Slot → Text
typed_id_of kind (subject, predicate) = kind ++ codes ":" ++ subject ++ codes ":" ++ predicate

abbrev pub slot_eq : Slot → Slot → Bool
slot_eq (s, p) (t, q) = text_eq s t && text_eq p q

abbrev pub has_slot : Slot → List Slot → Bool
has_slot slot slots = any (slot_eq slot) slots

abbrev cons_slot : Option Slot → List Slot → List Slot
cons_slot none slots = slots
cons_slot (some slot) slots = slot ∷ slots

abbrev pub edges_if : Bool → List Edge → List Edge
edges_if test edges = if test then edges else []

abbrev pub is_owner_said : Option Text → Bool
is_owner_said none = false
is_owner_said (some speaker) = text_eq speaker (codes "owner")

abbrev pub fan : Text → Text → Text → List Text → List Edge
fan doc kind prefix [] = []
fan doc kind prefix (t ∷ ts) =
    record { src = doc; kind = kind; dst = prefix ++ t } ∷ fan doc kind prefix ts

module _ (table : CharTable) where
  open table use {lower}

  unfoldable pub slugify : Text → Text
  unfolding is_ascii_alnum
  slugify text = filter is_ascii_alnum (
      replace (codes ".net") (codes "dotnet")
        (replace (codes "c#") (codes "csharp") (replace (codes "c++") (codes "cpp") (lower text))))

  unfoldable pub canon : Text → Text
  canon text = canon_loop false false (lower text)

  unfoldable pub denies_work : Text → Bool
  unfolding rstrip_stops
  denies_work value = is_member (lower (strip (rstrip_stops (strip value)))) work_denials

  unfoldable pub claim_kind : Text → Text → Text
  claim_kind raw_kind value =
      let kind = strip raw_kind in
      if is_empty kind
      then codes "fact"
      else if (text_eq kind (codes "next") || text_eq kind (codes "blocked")) && denies_work value
      then codes "fact"
      else kind

  unfoldable pub slug_loop : List Text → List Text → List Text
  slug_loop out [] = out
  slug_loop out (raw ∷ items) =
      let item = strip raw in
      let slug = slugify item in
      let skipped = slug_loop out items in
      let added = slug_loop (out ++ slug ∷ []) items in
      if is_empty item || has_han item
      then skipped
      else if not (is_empty slug) && not (is_member slug out)
      then added
      else skipped

  unfoldable pub capped_slugs : List Text → List Text
  capped_slugs items = slug_loop [] (take project_cap items)

  unfoldable pub claim_written : Claim → Option Slot
  claim_written claim =
      let subject = canon claim.subject in
      let predicate = canon claim.predicate in
      let value = strip claim.value in
      if is_empty subject
        || (is_empty predicate || (is_empty value || (has_han subject || has_han value)))
      then none
      else some (subject, predicate)

  unfoldable pub restated_slots : List Claim → List Slot
  restated_slots [] = []
  restated_slots (claim ∷ claims) = cons_slot (claim_written claim) (restated_slots claims)

  unfoldable pub slot_edges : Claim → Text → Text → Slot → List Edge
  slot_edges claim doc project slot =
      let claim_id = claim_id_of slot in
      let kind = claim_kind claim.kind claim.value in
      record { src = doc; kind = codes "claims"; dst = claim_id }
      ∷ (edges_if (not (text_eq kind (codes "fact")))
            (record { src = claim_id; kind = codes "is_a"; dst = typed_id_of kind slot } ∷ [])
          ++ (edges_if (is_project project) (
                record {
                  src = claim_id;
                  kind = codes "claim_of_project";
                  dst = codes "project:" ++ project;
                }
                ∷ [])
              ++ edges_if (is_owner_said claim.said_by) (
                  record { src = owner_speaker_node; kind = codes "said"; dst = doc }
                  ∷ record { src = owner_speaker_node; kind = codes "said"; dst = claim_id }
                  ∷ [])))

  abbrev pub edges_of_slot : Claim → Text → Text → Option Slot → List Edge
  edges_of_slot claim doc project none = []
  edges_of_slot claim doc project (some slot) = slot_edges claim doc project slot

  unfoldable pub claim_edges : Claim → Text → Text → List Edge
  claim_edges claim doc project = edges_of_slot claim doc project (claim_written claim)

  unfoldable pub claims_edges : Text → Text → List Claim → List Edge
  claims_edges doc project [] = []
  claims_edges doc project (claim ∷ claims) =
      claim_edges claim doc project ++ claims_edges doc project claims

  unfoldable pub expected_edges : FrontMatter → Text → List Text → List Edge
  expected_edges front source_path supersedes =
      let doc = doc_node_id source_path in
      edges_if (is_project front.project) (
        record { src = doc; kind = codes "in_project"; dst = codes "project:" ++ front.project }
        ∷ [])
      ++ (fan doc (codes "tagged") (codes "topic:") front.tags
          ++ (fan doc (codes "uses") (codes "tool:") (capped_slugs front.tools)
              ++ (fan doc (codes "about") (codes "concept:") (capped_slugs front.concepts)
                  ++ (claims_edges doc front.project front.claims
                      ++ fan doc (codes "supersedes") (codes "doc:") supersedes))))
