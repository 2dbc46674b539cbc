-- ===== src/Remember/WikiId/Fresh.antt =====
-- The number of a new note is new: src/ohmyboring/remember/writer.py, `allocate_wiki_path`.
use mathlib.Core.List.{reverse, reverse-append}
use ohmyboring.Prelude.{
  ℕ, suc, ◌-◌, ◌≤◌, ◌<◌, max, true, false, Option, none, some, List, [], ◌∷◌, ◌++◌, ◌≡◌, refl, ap,
  inl, inr, arith, drop, take, leb, length, length-append, Text, codes, starts_with, text_eq,
  text_eq→eq, Bool-cases, All,
}
use ohmyboring.Prelude.Decimal.{parse_int, show_nat, parse_int-pad}
use ohmyboring.Prelude.Int.{ℤ, pos, negsuc}
use ohmyboring.Remember.Match.{removesuffix}
use ohmyboring.Remember.WikiId.{
  WikiFile, ends_with, add_stem, in_range, existing_wiki_ids, file_ids, largest, wiki_id_of,
  file_name, is_file, allocate_loop, allocate_wiki_id,
}

starts_with-append : (s t : Text) → starts_with s (s ++ t) ≡ true
starts_with-append [] t = refl
starts_with-append (c ∷ s) t = ground (arith, starts_with-append s t)

take-append_length : (s t : Text) → take (length (s ++ t) - length t) (s ++ t) ≡ s
take-append_length s t =
    let e : length (s ++ t) - length t ≡ length s = omega (arith, length-append s t) in
    rw e (take_length s)
  where
    take_length : (s : Text) → take (length s) (s ++ t) ≡ s
    take_length [] = refl
    take_length (c ∷ s) = ap (λ r. c ∷ r) (take_length s)

removesuffix-append : (s suffix : Text) → removesuffix suffix (s ++ suffix) ≡ s
unfolding removesuffix
removesuffix-append s suffix =
    rw (reverse-append s suffix, starts_with-append (reverse suffix) (reverse s))
      (take-append_length s suffix)

ends_with-append : (s suffix : Text) → ends_with suffix (s ++ suffix) ≡ true
unfolding ends_with
ends_with-append s suffix =
    rw (reverse-append s suffix) (starts_with-append (reverse suffix) (reverse s))

add_stem-wiki_id : (n : ℕ) (ids : List ℕ) → n ≤ 0xffffffff → add_stem (wiki_id_of n) ids ≡ n ∷ ids
unfolding add_stem wiki_id_of
add_stem-wiki_id n ids h =
    let small : leb n 0xffffffff ≡ true = ground (arith, h) in
    rw (parse_int-pad (4 - length (show_nat n)) n, small) refl

in_range-largest : (value : Option ℤ) (ids : List ℕ) → largest ids ≤ largest (in_range value ids)
unfolding largest
in_range-largest none ids = omega arith
in_range-largest (some (negsuc n)) ids = omega arith
in_range-largest (some (pos n)) ids = elim (Bool-cases (leb n 0xffffffff)) [
  | inl small ↦ rw small (omega arith)
  | inr large ↦ rw large (omega arith)
]

add_stem-largest : (stem : Text) (ids : List ℕ) → largest ids ≤ largest (add_stem stem ids)
unfolding add_stem largest
add_stem-largest stem ids = elim (Bool-cases (starts_with (codes "wiki-") stem)) [
  | inl numbered ↦ rw numbered (in_range-largest (parse_int (drop 5 stem)) ids)
  | inr other ↦ rw other (omega arith)
]

-- A file of the number n is counted.
file_ids-largest :
    (n : ℕ) (files : List WikiFile)
    → n ≤ 0xffffffff
    → is_file (file_name (wiki_id_of n)) files ≡ true
    → n ≤ largest (file_ids files)
unfolding file_ids
file_ids-largest n [] h taken = ground arith
file_ids-largest n ((name, content) ∷ files) h taken =
    elim (Bool-cases (text_eq (file_name (wiki_id_of n)) name)) [
      | inl same ↦
          rw
            (
              ← text_eq→eq (file_name (wiki_id_of n)) name same,
              ends_with-append (wiki_id_of n) (codes ".md"),
              removesuffix-append (wiki_id_of n) (codes ".md"),
              add_stem-wiki_id n (file_ids files) h,
            )
            (unfold largest in omega arith)
      | inr other ↦
          let later = file_ids-largest n files h (ground (arith, taken, other)) in
          elim (Bool-cases (ends_with (codes ".md") name)) [
            | inl note ↦ rw note (
                omega (
                  arith,
                  later,
                  add_stem-largest (removesuffix (codes ".md") name) (file_ids files),
                ))
            | inr no_note ↦ rw no_note later
          ]
    ]

largest-bound : (ids : List ℕ) (n : ℕ) → largest ids < n → All (λ m. m < n) ids
unfolding largest
largest-bound [] n h = tt
largest-bound (m ∷ ids) n h = (omega (arith, h), largest-bound ids n (omega (arith, h)))

-- Where every number in use is below the largest one of 32 bits, a new note is given a number above
-- that of every document and of every file of the directory, and its file is not there yet.
pub allocate_wiki_id-Fresh :
    (paths : List Text) (files : List WikiFile)
    → largest (existing_wiki_ids paths) < 0xffffffff
    → largest (file_ids files) < 0xffffffff
    → (n : ℕ) × (allocate_wiki_id (existing_wiki_ids paths) files ≡ some (wiki_id_of n))
      × (is_file (file_name (wiki_id_of n)) files ≡ false)
      × All (λ m. m < n) (existing_wiki_ids paths)
      × All (λ m. m < n) (file_ids files)
unfolding allocate_wiki_id allocate_loop
allocate_wiki_id-Fresh paths files small_path small_file =
    let db_ids = existing_wiki_ids paths in
    let n = suc (max (largest db_ids) (largest (file_ids files))) in
    let free : is_file (file_name (wiki_id_of n)) files ≡ false =
      elim (Bool-cases (is_file (file_name (wiki_id_of n)) files)) [
        | inl taken ↦ absurd (omega (arith, file_ids-largest n files (omega arith) taken))
        | inr absent ↦ absent
      ] in
    (
      n,
      rw free refl,
      free,
      largest-bound db_ids n (omega arith),
      largest-bound (file_ids files) n (omega arith),
    )
