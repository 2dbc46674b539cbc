-- ===== src/Distill/Examples.antt =====
-- Tests and a concrete case for src/ohmyboring/distill.
use ohmyboring.Prelude.{
  Bool, true, false, not, if◌then◌else◌, ◌==◌, none, some, List, [], ◌∷◌, ◌≡◌, refl, Text, codes,
  is_empty, length,
}
use mathlib.Core.Option
use ohmyboring.Prelude.Decimal.{strip, lstrip, is_space}
use ohmyboring.Distill.{
  Note, Model, State, judge, polish_body, apply, next, run, distill_and_remember,
}
use ohmyboring.Distill.Ends.{IsOutcome, distill_and_remember-Ends}

abbrev thin : Note
thin = record {
  title = codes "t";
  body = codes "why #12";
  tags = [];
  tools = [];
  concepts = [];
  claims = [];
}

abbrev full : Note
full = record thin { tags = codes "go" ∷ [] }

abbrev if_first : Text → Note
if_first answer = if length answer == 5 then thin else full

abbrev passes : Note → Bool
passes note = not (is_empty note.tags)

-- The first note does not pass, the repaired one does, and its body is rewritten.
abbrev model : Model Text
model = record {
  draft_answer = (some (codes "first"), false);
  is_skip = is_empty;
  language_answer = none;
  prepare_note = λ answer. some (if_first answer);
  verify_note = λ note. (note, passes note);
  repair_answer = λ note. some (codes "second one");
  polish_answer = λ body why. some (codes "so #12");
  facts = λ t. codes "#12" ∷ [];
  body_signals = λ t. length t;
  has_shape = λ t. true;
  call_remember = λ note. true;
}

abbrev result : State model → Bool × List Note
result s = (s.ok, s.remembered)

remembers_rewritten :
    Option.map result (distill_and_remember model)
    ≡ some (true, record full { body = codes "so #12\n" } ∷ [])
unfolding distill_and_remember run apply next judge polish_body strip lstrip is_space
remembers_rewritten = refl

distill_and_remember-Ends_example :
    (final : State model) × (distill_and_remember model ≡ some final) × IsOutcome model final
distill_and_remember-Ends_example = distill_and_remember-Ends model
