-- ===== src/Remember/Note.antt =====
-- The notes of src/ohmyboring/remember: a parsed one (parse.py) and one on disk (dedup.py).
use ohmyboring.Prelude.{ℕ, Bool, Option, List, Text}

-- What the program asks of Python's character tables: `str.isalnum` and the value of a decimal
-- digit, both of one character, and `str.lower`.
pub record CharTable : Type 0 where
  pub is_alnum : ℕ → Bool
  pub digit : ℕ → Option ℕ
  pub lower : Text → Text

pub record Claim : Type 0 where
  pub subject : Text
  pub predicate : Text
  pub value : Text
  pub kind : Text
  pub confidence : Text
  pub said_by : Option Text

pub record FrontMatter : Type 0 where
  pub title : Text
  pub kind : Text
  pub origin : Text
  pub project : Text
  pub date : Text
  pub tags : List Text
  pub tools : List Text
  pub concepts : List Text
  pub claims : List Claim
  pub sources : List Text
  pub omb_session_id : Option Text
  pub author : Text
  pub omb_session_since : Option ℕ

pub record RememberNote : Type 0 where
  pub front : FrontMatter
  pub body : Text

-- The claims of a note on disk are (subject, predicate, value).
pub record ExistingNote : Type 0 where
  pub source_path : Text
  pub title : Option Text
  pub tags : List Text
  pub tools : List Text
  pub concepts : List Text
  pub claims : List (Text × Text × Text)
  pub sources : List Text
  pub omb_session_id : Option Text
  pub author : Text
  pub body : Text
  pub omb_session_since : Option ℕ
