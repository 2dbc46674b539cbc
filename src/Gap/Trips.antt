-- ===== src/Gap/Trips.antt =====
-- `parse` of src/ohmyboring/gap/parse.py accepts what a report's own arguments say, and nothing that is
-- no report.
use mathlib.Core.Path.{subst}
use ohmyboring.Prelude.{
  Bool, false, not, ◌&&◌, Option, none, some, List, [], ◌∷◌, ◌++◌, ◌≡◌, refl, sym, ap, ◌∙◌, inl,
  inr, arith, map, if◌then◌else◌, filter, Text, codes, text_eq, is_empty, Bool-cases,
}
use ohmyboring.Prelude.Decimal.{strip}
use ohmyboring.Result.{ok, bind-ok, ok_inj, guard-ok}
use ohmyboring.Remember.Tokens.{is_member}
use ohmyboring.Remember.Tokens.Symmetry.{IsDistinct}
use ohmyboring.Gap.{
  Kind, missing, stale, broken, GapArgs, text_item, Value, text_value, list_value, other_value,
  Arguments, kind_value, text_of, kind_of, kind_of_text, texts_of, from_keys, handed_texts,
  handed_of, is_stale, finish, parse,
}

pub record IsReport (g : GapArgs) : Type 0 where
  pub has_session : is_empty g.session_id ≡ false
  pub has_query : is_empty g.query ≡ false
  pub distinct : IsDistinct g.handed
  pub stale_handed : g.kind ≡ stale → is_empty g.handed ≡ false

text_of-given :
    (key : Text) (v : Option Value) (t : Text) → text_of key v ≡ ok t → is_empty t ≡ false
unfolding text_of
text_of-given key none t h = cc
text_of-given key (some (text_value v)) t h =
    let (given, same) = guard-ok (is_empty (strip v)) (key ++ codes " is required") (strip v) t h in
    ap is_empty (sym same) ∙ given
text_of-given key (some (list_value items)) t h = cc
text_of-given key (some other_value) t h = cc

member-filter :
    (p : Text → Bool) (t : Text) (ts : List Text)
    → is_member t ts ≡ false
    → is_member t (filter p ts) ≡ false
member-filter p t [] h = refl
member-filter p t (u ∷ us) h = ground (arith, h, member-filter p t us)

filter-IsDistinct : (p : Text → Bool) (ts : List Text) → IsDistinct ts → IsDistinct (filter p ts)
filter-IsDistinct p [] h = tt
filter-IsDistinct p (t ∷ ts) h = elim (Bool-cases (p t)) [
  | inl e ↦ rw e (member-filter p t ts h.0, filter-IsDistinct p ts h.1)
  | inr e ↦ rw e (filter-IsDistinct p ts h.1)
]

filtered_out :
    (t : Text) (ts : List Text) → is_member t (filter (λ u. not (text_eq t u)) ts) ≡ false
filtered_out t [] = refl
filtered_out t (u ∷ us) = ground (arith, filtered_out t us)

from_keys-IsDistinct : (ts : List Text) → IsDistinct (from_keys ts)
unfolding from_keys
from_keys-IsDistinct [] = tt
from_keys-IsDistinct (t ∷ ts) = (
  filtered_out t (from_keys ts),
  filter-IsDistinct (λ u. not (text_eq t u)) (from_keys ts) (from_keys-IsDistinct ts),
)

handed_texts-IsDistinct :
    (given : Option (List Text)) (ts : List Text) → handed_texts given ≡ ok ts → IsDistinct ts
unfolding handed_texts
handed_texts-IsDistinct none ts h = cc
handed_texts-IsDistinct (some given) ts h =
    subst IsDistinct (ok_inj (from_keys given) ts h) (from_keys-IsDistinct given)

handed_of-IsDistinct : (v : Option Value) (ts : List Text) → handed_of v ≡ ok ts → IsDistinct ts
unfolding handed_of
handed_of-IsDistinct none ts h = handed_texts-IsDistinct (some []) ts h
handed_of-IsDistinct (some (list_value items)) ts h = handed_texts-IsDistinct (texts_of items) ts h
handed_of-IsDistinct (some (text_value v)) ts h = handed_texts-IsDistinct none ts h
handed_of-IsDistinct (some other_value) ts h = handed_texts-IsDistinct none ts h

finish-stale :
    (s q : Text) (k : Kind) (ts : List Text) (g : GapArgs)
    → finish s q k ts ≡ ok g
    → ((record { session_id = s; query = q; kind = k; handed = ts }) ≡ g)
      × (k ≡ stale → is_empty ts ≡ false)
unfolding finish
finish-stale s q k ts g h =
    let (test, same) =
      guard-ok (is_stale k && is_empty ts) (codes "stale gap needs handed notes")
        (record { session_id = s; query = q; kind = k; handed = ts }) g h in
    (same, λ e. ap (λ x. is_stale x && is_empty ts) (sym e) ∙ test)

-- A report that the parser accepts has a session, a question and no note twice, and if it says that
-- notes are stale it names at least one.
pub parse-IsReport : (arguments : Arguments) (g : GapArgs) → parse arguments ≡ ok g → IsReport g
unfolding parse
parse-IsReport arguments g h =
    let (s, es, hs) =
      bind-ok (text_of (codes "session_id") (arguments (codes "session_id"))) _ g h in
    let (q, eq, hq) = bind-ok (text_of (codes "query") (arguments (codes "query"))) _ g hs in
    let (k, ek, hk) = bind-ok (kind_of (arguments (codes "kind"))) _ g hq in
    let (ts, et, ht) = bind-ok (handed_of (arguments (codes "handed"))) _ g hk in
    let (same, stale_handed) = finish-stale s q k ts g ht in
    subst IsReport same (record {
      has_session = text_of-given (codes "session_id") (arguments (codes "session_id")) s es;
      has_query = text_of-given (codes "query") (arguments (codes "query")) q eq;
      distinct = handed_of-IsDistinct (arguments (codes "handed")) ts et;
      stale_handed = stale_handed;
    })

-- The arguments that say a report.
unfoldable pub to_arguments : GapArgs → Arguments
to_arguments g key =
    if text_eq key (codes "session_id")
    then some (text_value g.session_id)
    else if text_eq key (codes "query")
    then some (text_value g.query)
    else if text_eq key (codes "kind")
    then some (text_value (kind_value g.kind))
    else if text_eq key (codes "handed")
    then some (list_value (map text_item g.handed))
    else none

text_of_lem :
    (key t : Text) → strip t ≡ t → is_empty t ≡ false → text_of key (some (text_value t)) ≡ ok t
unfolding text_of
text_of_lem key t e h = rw (e, h) refl

kind_of_lem : (k : Kind) → kind_of (some (text_value (kind_value k))) ≡ ok k
unfolding kind_of kind_of_text
kind_of_lem missing = refl
kind_of_lem stale = refl
kind_of_lem broken = refl

texts_of_lem : (ts : List Text) → texts_of (map text_item ts) ≡ some ts
unfolding texts_of
texts_of_lem [] = refl
texts_of_lem (t ∷ ts) = rw (texts_of_lem ts) refl

filter_absent :
    (t : Text) (ts : List Text) → is_member t ts ≡ false → filter (λ u. not (text_eq t u)) ts ≡ ts
filter_absent t [] h = refl
filter_absent t (u ∷ us) h =
    let absent : text_eq t u ≡ false = ground arith in
    rw absent (ap (λ r. u ∷ r) (filter_absent t us (ground arith)))

from_keys_lem : (ts : List Text) → IsDistinct ts → from_keys ts ≡ ts
unfolding from_keys
from_keys_lem [] h = refl
from_keys_lem (t ∷ ts) h = rw (from_keys_lem ts h.1) (ap (λ r. t ∷ r) (filter_absent t ts h.0))

handed_of_lem :
    (ts : List Text) → IsDistinct ts → handed_of (some (list_value (map text_item ts))) ≡ ok ts
unfolding handed_of handed_texts
handed_of_lem ts h = rw (texts_of_lem ts) (ap (λ x. ok x) (from_keys_lem ts h))

finish_lem :
    (s q : Text) (k : Kind) (ts : List Text)
    → (k ≡ stale → is_empty ts ≡ false)
    → finish s q k ts ≡ ok (record { session_id = s; query = q; kind = k; handed = ts })
unfolding finish
finish_lem s q missing ts h = refl
finish_lem s q broken ts h = refl
finish_lem s q stale ts h = rw (h refl) refl

-- The arguments that say a report, with a session and a question that have no white space around
-- them, parse to that report.
pub parse-to_arguments :
    (g : GapArgs)
    → IsReport g
    → strip g.session_id ≡ g.session_id
    → strip g.query ≡ g.query
    → parse (to_arguments g) ≡ ok g
unfolding parse to_arguments
parse-to_arguments g r es eq =
    rw
      (
        text_of_lem (codes "session_id") g.session_id es r.has_session,
        text_of_lem (codes "query") g.query eq r.has_query,
        kind_of_lem g.kind,
        handed_of_lem g.handed r.distinct,
      )
      (finish_lem g.session_id g.query g.kind g.handed r.stale_handed)
