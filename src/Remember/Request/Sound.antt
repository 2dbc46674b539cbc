-- ===== src/Remember/Request/Sound.antt =====
-- What a request that src/ohmyboring/remember/parse.py accepts is like.
use ohmyboring.Prelude.{
  ℕ, ◌≤◌, Bool, true, false, not, ◌&&◌, ◌||◌, Option, none, some, List, [], ◌∷◌, ◌++◌, ◌≡◌, ◌⊎◌,
  refl, sym, ap, inl, inr, arith, if◌then◌else◌, all, drop, take, length, length-take, Text, codes,
  is_empty, starts_with, text_eq, Bool-cases, All, is_empty-false, NonEmpty,
}
use ohmyboring.Prelude.Decimal.{strip}
use ohmyboring.Result.{ok, map_ok, bind-ok, map_ok-ok, if-cases, ok_inj}
use ohmyboring.Remember.Note.{Claim, RememberNote}
use ohmyboring.Remember.Tokens.{is_member}
use ohmyboring.Remember.Tags.{sanitize_tag}
use ohmyboring.Remember.Projection.ClaimEdges.{is_none}
use ohmyboring.Remember.Projection.Refines.{IsOwnClaim}
use ohmyboring.Remember.Graph.{is_owner_said}
use ohmyboring.Remember.Request.Body.{normalize_body}
use ohmyboring.Remember.Request.{
  Field, text, other, Item, text_item, object, other_item, Argument, null, string, array,
  other_argument, Arguments, get, get_str, ParseDeps, parse_author, author_of, said_by_of,
  stripped_field, said_claim, parse_claim, parse_claims, claim_items, cons_claim, clean_claim,
  parse_since, parse_provenance, parse_origin, origins, note_tags, sanitized_tags, with_repo,
  parsed_note, parse_remember_note,
}

abbrev pub known_authors : List Text
known_authors = codes "owner" ∷ codes "inferred" ∷ codes "unknown" ∷ []

abbrev pub IsAuthor : Text → Type 0
IsAuthor author =
    (is_member author known_authors ≡ true)
    ⊎ ((name : Text) × (author ≡ codes "agent:" ++ name) × NonEmpty name)

author_of-IsAuthor : (raw given author : Text) → author_of raw given ≡ ok author → IsAuthor author
unfolding author_of
author_of-IsAuthor raw given author h =
    elim (if-cases (is_member given known_authors) (ok given) _ (ok author) h) [
      | inl (known, same) ↦ inl (rw (← ok_inj given author same) known)
      | inr (unknown, named) ↦
          let name = strip (drop 6 given) in
          elim (if-cases (starts_with (codes "agent:") given && not (is_empty name))
            (ok (codes "agent:" ++ name)) _ (ok author) named) [
              | inl (agent, same) ↦
                  inr
                    (name, sym (ok_inj _ author same), is_empty-false name (ground (arith, agent)))
              | inr (nobody, same) ↦ absurd cc
            ]
    ]

said_by_of-IsOwn :
    (field : Option Field) (said_by : Option Text)
    → said_by_of field ≡ ok said_by
    → is_none said_by || is_owner_said said_by ≡ true
unfolding said_by_of
said_by_of-IsOwn none said_by h = rw (← ok_inj none said_by h) refl
said_by_of-IsOwn (some other) said_by h = cc
said_by_of-IsOwn (some (text raw)) said_by h =
    elim (if-cases (text_eq (strip raw) (codes "owner")) (ok (some (codes "owner"))) _ (ok said_by)
      h) [ inl (owner, same) ↦ rw (← ok_inj _ said_by same) refl | inr (nobody, same) ↦ absurd cc ]

parse_author-IsAuthor :
    (raw : Option Argument) (author : Text) → parse_author raw ≡ ok author → IsAuthor author
unfolding parse_author
parse_author-IsAuthor none author h = inl (rw (← ok_inj _ author h) refl)
parse_author-IsAuthor (some null) author h = inl (rw (← ok_inj _ author h) refl)
parse_author-IsAuthor (some (string raw)) author h = author_of-IsAuthor raw (strip raw) author h
parse_author-IsAuthor (some (array items)) author h = absurd cc
parse_author-IsAuthor (some other_argument) author h = absurd cc

-- A claim that is read, where there is one, is said by nobody or by the owner.
abbrev IsOwnOption : Option Claim → Type 0
IsOwnOption none = Unit
IsOwnOption (some claim) = IsOwnClaim claim

said_claim-IsOwn :
    (fields : List (Text × Field)) (said_by : Option Text)
    → is_none said_by || is_owner_said said_by ≡ true
    → IsOwnOption (said_claim fields said_by)
said_claim-IsOwn fields said_by own =
    unless _
      (record {
        subject = stripped_field (get (codes "subject") fields);
        predicate = stripped_field (get (codes "predicate") fields);
        value = stripped_field (get (codes "value") fields);
        kind = stripped_field (get (codes "kind") fields);
        confidence = stripped_field (get (codes "confidence") fields);
        said_by = said_by;
      })
      own
  where
    unless :
        (test : Bool) (claim : Claim)
        → IsOwnClaim claim
        → IsOwnOption (if test then none else some claim)
    unless true claim own = tt
    unless false claim own = own

parse_claim-IsOwn :
    (item : Item) (claim : Option Claim) → parse_claim item ≡ ok claim → IsOwnOption claim
unfolding parse_claim
parse_claim-IsOwn (object fields) claim h =
    let (said_by, said, same) =
      map_ok-ok (said_by_of (get (codes "said_by") fields)) (said_claim fields) claim h in
    rw (← same) (said_claim-IsOwn fields said_by (said_by_of-IsOwn _ said_by said))
parse_claim-IsOwn (text_item raw) claim h = rw (← ok_inj _ claim h) tt
parse_claim-IsOwn other_item claim h = rw (← ok_inj _ claim h) tt

module _ (deps : ParseDeps) where
  cons_claim-IsOwn :
      (claim : Option Claim) (claims : List Claim)
      → IsOwnOption claim
      → All IsOwnClaim claims
      → All IsOwnClaim (cons_claim deps claim claims)
  unfolding clean_claim
  cons_claim-IsOwn none claims own owns = owns
  cons_claim-IsOwn (some claim) claims own owns = (own, owns)

  claim_items-IsOwn :
      (items : List Item) (claims : List Claim)
      → claim_items deps items ≡ ok claims
      → All IsOwnClaim claims
  unfolding claim_items
  claim_items-IsOwn [] claims h = rw (← ok_inj _ claims h) tt
  claim_items-IsOwn (item ∷ items) claims h =
      let (claim, parsed, rest) =
        bind-ok (parse_claim item)
          (λ claim. map_ok (claim_items deps items) (cons_claim deps claim)) claims h in
      let (later, parsed_later, same) =
        map_ok-ok (claim_items deps items) (cons_claim deps claim) claims rest in
      rw (← same) (
        cons_claim-IsOwn claim later (parse_claim-IsOwn item claim parsed)
          (claim_items-IsOwn items later parsed_later))

  parse_origin-known :
      (given origin : Text) → parse_origin deps given ≡ ok origin → is_member origin origins ≡ true
  unfolding parse_origin
  parse_origin-known given origin h = elim (if-cases (is_empty given) _ _ (ok origin) h) [
    | inl (absent, same) ↦ rw (← ok_inj _ origin same) refl
    | inr (present, named) ↦ elim (if-cases (is_member given origins) _ _ (ok origin) named) [
      | inl (known, same) ↦ rw (← ok_inj given origin same) known
      | inr (unknown, same) ↦ absurd cc
    ]
  ]

  length-with_repo :
      (tag : Option Text) (tags : List Text)
      → length tags ≤ 6
      → length (with_repo deps tag tags) ≤ 7
  length-with_repo none tags short = omega (arith, short)
  length-with_repo (some tag) tags short = omega (arith, short)

  length-note_tags : (repo : Text) (raws : List Text) → length (note_tags deps repo raws) ≤ 7
  unfolding note_tags
  length-note_tags repo raws =
      let tags = take 6 (sanitized_tags deps raws) in
      let short : length tags ≤ 6 = omega (arith, length-take 6 (sanitized_tags deps raws)) in
      elim (Bool-cases (is_empty repo)) [
        | inl bare ↦ rw bare (omega (arith, short))
        | inr named ↦ rw named (length-with_repo (sanitize_tag deps.table repo) tags short)
      ]

  parse_provenance-IsAuthor :
      (args : Arguments) (author : Text) (since : Option ℕ)
      → parse_provenance deps args ≡ ok (author, since)
      → IsAuthor author
  unfolding parse_provenance
  parse_provenance-IsAuthor args author since h =
      let given = get_str args (codes "omb_session_since") in
      elim (if-cases (not (is_empty given) && not (all deps.is_digit given)) _ _
        (ok (author, since)) h) [
          | inl (bad, same) ↦ absurd cc
          | inr (fine, same) ↦
              let (name, parsed, rest) =
                bind-ok (parse_author (get (codes "author") args)) _ (author, since) same in
              let (at, timed, pair) = map_ok-ok (parse_since deps given) _ (author, since) rest in
              rw (← ap (λ p. p.0) pair)
                (parse_author-IsAuthor (get (codes "author") args) name parsed)
        ]

  -- A note that is read from a request has an author that is owner, inferred, unknown or agent:
  -- with a name, claims that are each said by nobody or by the owner, one of the four origins, and
  -- at most seven tags.
  pub parse_remember_note-ok :
      (args : Arguments) (note : RememberNote)
      → parse_remember_note deps args ≡ ok note
      → IsAuthor note.front.author
        × All IsOwnClaim note.front.claims
        × (is_member note.front.origin origins ≡ true)
        × (length note.front.tags ≤ 7)
  unfolding parse_remember_note parsed_note parse_claims
  parse_remember_note-ok args note h =
      let title = get_str args (codes "title") in
      let body = normalize_body (get_str args (codes "body")) in
      elim (if-cases (is_empty title) _ _ (ok note) h) [
        | inl (untitled, same) ↦ absurd cc
        | inr (titled, with_title) ↦ elim (if-cases (is_empty body) _ _ (ok note) with_title) [
          | inl (empty, same) ↦ absurd cc
          | inr (full, with_body) ↦
              let (origin, from_origin, with_origin) =
                bind-ok (parse_origin deps (get_str args (codes "origin"))) _ note with_body in
              let (claims, from_claims, with_claims) =
                bind-ok (parse_claims deps args) _ note with_origin in
              let ((author, since), from_author, same) =
                map_ok-ok (parse_provenance deps args) _ note with_claims in
              (
                rw (← ap (λ n. n.front.author) same)
                    (parse_provenance-IsAuthor args author since from_author),
                rw (← ap (λ n. n.front.claims) same) (claim_items-IsOwn _ claims from_claims),
                rw (← ap (λ n. n.front.origin) same) (parse_origin-known _ origin from_origin),
                rw (← ap (λ n. n.front.tags) same) (length-note_tags _ _),
              )
        ]
      ]
