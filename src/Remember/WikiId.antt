-- ===== src/Remember/WikiId.antt =====
-- The number of a new note: `existing_wiki_ids` and `allocate_wiki_path` of
-- src/ohmyboring/remember/writer.py. The directory is its files' names and contents; nobody else
-- creates a file between the listing and the creation.
pub mod Fresh
use mathlib.Core.List.{reverse}
use ohmyboring.Prelude.{
  ℕ, zero, suc, ◌+◌, ◌-◌, max, Bool, true, false, not, ◌&&◌, Option, none, some, List, [], ◌∷◌,
  ◌++◌, map, if◌then◌else◌, any, drop, leb, length, Text, codes, starts_with, text_eq,
}
use ohmyboring.Prelude.Decimal.{parse_int, show_nat, pad}
use ohmyboring.Prelude.Int.{ℤ, pos, negsuc}
use ohmyboring.Remember.Match.{last_part, removesuffix}

-- A file of the directory `wiki`: its name and what it holds.
abbrev pub WikiFile : Type 0
WikiFile = Text × Text

unfoldable pub ends_with : Text → Text → Bool
ends_with suffix s = starts_with (reverse suffix) (reverse s)

abbrev in_range : Option ℤ → List ℕ → List ℕ
in_range none ids = ids
in_range (some (negsuc n)) ids = ids
in_range (some (pos n)) ids = if leb n 0xffffffff then n ∷ ids else ids

-- The number of a stem, put before the others, if it has one.
unfoldable pub add_stem : Text → List ℕ → List ℕ
add_stem stem ids =
    if starts_with (codes "wiki-") stem then in_range (parse_int (drop 5 stem)) ids else ids

unfoldable pub existing_wiki_ids : List Text → List ℕ
existing_wiki_ids [] = []
existing_wiki_ids (path ∷ paths) =
    add_stem (removesuffix (codes ".md") (last_part [] path)) (existing_wiki_ids paths)

unfoldable pub file_ids : List WikiFile → List ℕ
file_ids [] = []
file_ids ((name, content) ∷ files) =
    let rest = file_ids files in
    if ends_with (codes ".md") name then add_stem (removesuffix (codes ".md") name) rest else rest

unfoldable pub largest : List ℕ → ℕ
largest [] = 0
largest (n ∷ ns) = max n (largest ns)

-- `f"wiki-{n:04}"`
unfoldable pub wiki_id_of : ℕ → Text
wiki_id_of n = codes "wiki-" ++ pad (4 - length (show_nat n)) (show_nat n)

abbrev pub file_name : Text → Text
file_name wiki_id = wiki_id ++ codes ".md"

abbrev pub is_file : Text → List WikiFile → Bool
is_file name files = any (λ f. text_eq name f.0) files

-- The loop, on fuel: a name that is taken is followed by the next number.
unfoldable pub allocate_loop : ℕ → ℕ → List WikiFile → Option Text
allocate_loop zero n files = none
allocate_loop (suc fuel) n files =
    let next = allocate_loop fuel (suc n) files in
    if is_file (file_name (wiki_id_of n)) files then next else some (wiki_id_of n)

-- Each round meets another file, so that there are at most as many rounds as files, and one.
unfoldable pub allocate_wiki_id : List ℕ → List WikiFile → Option Text
allocate_wiki_id db_ids files =
    allocate_loop (suc (length files)) (suc (max (largest db_ids) (largest (file_ids files)))) files
