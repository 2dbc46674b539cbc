-- ===== src/Gap.antt =====
-- src/ohmyboring/gap/parse.py: the report of a gap in memory. The arguments are a function from keys to
-- values, and of a value only what the parser tells apart is kept.
pub mod Trips
mod Examples
use ohmyboring.Prelude.{
  Bool, true, false, not, ◌&&◌, ◌||◌, Option, none, some, List, [], ◌∷◌, ◌++◌, if◌then◌else◌,
  filter, Text, codes, text_eq, is_empty,
}
use ohmyboring.Prelude.Decimal.{strip}
use ohmyboring.Result.{Either, ok, err, bind}

pub data Kind : Type 0 where
  missing stale broken : Kind

pub record GapArgs : Type 0 where
  pub session_id : Text
  pub query : Text
  pub kind : Kind
  pub handed : List Text

-- A member of a JSON array, and a JSON value.
pub data Item : Type 0 where
  text_item : Text → Item
  other_item : Item

pub data Value : Type 0 where
  text_value : Text → Value
  list_value : List Item → Value
  other_value : Value

abbrev pub Arguments : Type 0
Arguments = Text → Option Value

abbrev pub kind_value : Kind → Text
kind_value missing = codes "missing"
kind_value stale = codes "stale"
kind_value broken = codes "broken"

unfoldable pub text_of : Text → Option Value → Either Text Text
text_of key (some (text_value value)) =
    if is_empty (strip value) then err (key ++ codes " is required") else ok (strip value)
text_of key _ = err (key ++ codes " is required")

abbrev kind_error : Text
kind_error = codes "kind must be one of missing, stale, broken"

unfoldable pub kind_of_text : Text → Either Kind Text
kind_of_text value =
    if text_eq value (kind_value missing)
    then ok missing
    else if text_eq value (kind_value stale)
    then ok stale
    else if text_eq value (kind_value broken)
    then ok broken
    else err kind_error

unfoldable pub kind_of : Option Value → Either Kind Text
unfolding kind_of_text
kind_of (some (text_value value)) = kind_of_text value
kind_of _ = err kind_error

abbrev cons_some : Text → Option (List Text) → Option (List Text)
cons_some t none = none
cons_some t (some ts) = some (t ∷ ts)

unfoldable pub texts_of : List Item → Option (List Text)
texts_of [] = some []
texts_of (text_item t ∷ items) = cons_some t (texts_of items)
texts_of (other_item ∷ items) = none

-- `tuple(dict.fromkeys(value))`: the first of each.
unfoldable pub from_keys : List Text → List Text
from_keys [] = []
from_keys (t ∷ ts) = t ∷ filter (λ u. not (text_eq t u)) (from_keys ts)

unfoldable pub handed_texts : Option (List Text) → Either (List Text) Text
handed_texts none = err (codes "handed must be a list of strings")
handed_texts (some ts) = ok (from_keys ts)

unfoldable pub handed_of : Option Value → Either (List Text) Text
unfolding texts_of handed_texts
handed_of none = handed_texts (some [])
handed_of (some (list_value items)) = handed_texts (texts_of items)
handed_of (some _) = handed_texts none

abbrev pub is_stale : Kind → Bool
is_stale stale = true
is_stale _ = false

unfoldable pub finish : Text → Text → Kind → List Text → Either GapArgs Text
finish session_id query kind handed =
    if is_stale kind && is_empty handed
    then err (codes "stale gap needs handed notes")
    else ok (record { session_id = session_id; query = query; kind = kind; handed = handed })

unfoldable pub parse : Arguments → Either GapArgs Text
unfolding text_of kind_of handed_of finish
parse arguments =
    bind (text_of (codes "session_id") (arguments (codes "session_id"))) (λ session_id.
      bind (text_of (codes "query") (arguments (codes "query"))) (λ query.
        bind (kind_of (arguments (codes "kind"))) (λ kind.
          bind (handed_of (arguments (codes "handed")))
            (λ handed. finish session_id query kind handed))))
