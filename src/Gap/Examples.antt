-- ===== src/Gap/Examples.antt =====
-- Tests of the parser of gap reports, and its theorems at a report.
use ohmyboring.Prelude.{some, [], ◌∷◌, ◌≡◌, refl, codes, text_eq, if◌then◌else◌}
use ohmyboring.Prelude.Decimal.{strip, lstrip}
use ohmyboring.Result.{ok, err}
use ohmyboring.Gap.{
  stale, GapArgs, text_item, text_value, list_value, Arguments, text_of, kind_of, kind_of_text,
  texts_of, from_keys, handed_texts, handed_of, finish, parse,
}
use ohmyboring.Gap.Trips.{IsReport, to_arguments, parse-IsReport, parse-to_arguments}

abbrev report : GapArgs
report = record {
  session_id = codes "s1";
  query = codes "which port?";
  kind = stale;
  handed = codes "/vault/wiki/wiki-1.md" ∷ [];
}

abbrev with_repeats : Arguments
with_repeats key =
    if text_eq key (codes "session_id")
    then some (text_value (codes " s1 "))
    else if text_eq key (codes "query")
    then some (text_value (codes "which port?"))
    else if text_eq key (codes "kind")
    then some (text_value (codes "stale"))
    else some (
        list_value (
          text_item (codes "/vault/wiki/wiki-1.md")
          ∷ text_item (codes "/vault/wiki/wiki-1.md")
          ∷ []))

-- Names that the tests below compute with.
program : Unit {0}
unfolding text_of kind_of kind_of_text texts_of from_keys handed_texts handed_of finish parse
    to_arguments strip lstrip
program = tt

parses_repeats : parse with_repeats ≡ ok report
unfolding program
parses_repeats = refl

needs_handed :
    parse (to_arguments (record report { handed = [] }))
    ≡ err (codes "stale gap needs handed notes")
unfolding program
needs_handed = refl

session_stripped : strip report.session_id ≡ report.session_id
unfolding program
session_stripped = refl

query_stripped : strip report.query ≡ report.query
unfolding program
query_stripped = refl

parse-IsReport_example : IsReport report
parse-IsReport_example = parse-IsReport with_repeats report parses_repeats

parse-to_arguments_example : parse (to_arguments report) ≡ ok report
parse-to_arguments_example =
    parse-to_arguments report (parse-IsReport with_repeats report parses_repeats) session_stripped
      query_stripped
