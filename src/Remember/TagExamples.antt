-- ===== src/Remember/TagExamples.antt =====
-- Tests of the tags, and their theorems at concrete ones.
use ohmyboring.Prelude.{none, some, ◌≡◌, refl, codes}
use ohmyboring.Prelude.Decimal.{is_space, lstrip, strip}
use ohmyboring.Remember.Examples.{ascii, lower_char}
use ohmyboring.Remember.Tags.{is_tag_char, tag_loop, strip_left, strip_right, checked, sanitize_tag}
use ohmyboring.Remember.Tags.Clean.{IsTag, sanitize_tag-IsTag, sanitize_tag_idempotent}

-- Names that the tests below compute with.
program : Unit {0}
unfolding lower_char is_space lstrip strip is_tag_char tag_loop strip_left strip_right checked
    sanitize_tag
program = tt

-- A repeated dash is one dash, and a tag of digits only is none.
queue_tag : sanitize_tag ascii (codes " Queue:: retries/") ≡ some (codes "queue-retries")
unfolding program
queue_tag = refl

number_tag : sanitize_tag ascii (codes "2026") ≡ none
unfolding program
number_tag = refl

lower_tag : ascii.lower (codes "queue-retries") ≡ codes "queue-retries"
unfolding program
lower_tag = refl

sanitize_tag-IsTag_example : IsTag (codes "queue-retries")
sanitize_tag-IsTag_example =
    sanitize_tag-IsTag ascii (codes " Queue:: retries/") (codes "queue-retries") queue_tag

sanitize_tag_idempotent_example :
    sanitize_tag ascii (codes "queue-retries") ≡ some (codes "queue-retries")
sanitize_tag_idempotent_example =
    sanitize_tag_idempotent ascii (codes " Queue:: retries/") (codes "queue-retries") queue_tag
      lower_tag
