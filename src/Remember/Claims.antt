-- ===== src/Remember/Claims.antt =====
-- The claim statements of src/ohmyboring/remember/writer.py. A time is a number of clock ticks.
pub mod Partial
use ohmyboring.Prelude.{
  ℕ, max, Bool, true, false, not, ◌&&◌, ◌||◌, Option, none, some, List, [], ◌∷◌, if◌then◌else◌, ltb,
  ◌==◌, any, filter, drop, map, Text, codes, text_eq,
}
use ohmyboring.Remember.Graph.{Slot, slot_eq, has_slot, doc_node_id}
use ohmyboring.Remember.Tables.{Db, StoredClaim, upsert, is_owner_doc}

abbrev pub slot_of : StoredClaim → Slot
slot_of c = (c.subject, c.predicate)

abbrev pub in_slot : Slot → StoredClaim → Bool
in_slot slot c = slot_eq (slot_of c) slot

abbrev pub of_path : Text → StoredClaim → Bool
of_path path c = text_eq c.source_path path

abbrev later : ℕ → Option ℕ → Option ℕ
later t none = some t
later t (some u) = some (max t u)

-- `max(valid_from)`, which no rows do not have.
unfoldable pub newest : List StoredClaim → Option ℕ
newest [] = none
newest (c ∷ cs) = later c.valid_from (newest cs)

abbrev pub is_time : ℕ → Option ℕ → Bool
is_time t none = false
is_time t (some u) = t == u

abbrev is_before : ℕ → Option ℕ → Bool
is_before t none = false
is_before t (some u) = ltb t u

abbrev text_option_eq : Option Text → Option Text → Bool
text_option_eq none none = true
text_option_eq (some s) (some t) = text_eq s t
text_option_eq _ _ = false

-- `_RETIRED_NOTE` of the claim's note.
unfoldable pub is_retired : Text → Db → Bool
is_retired path db =
    any
      (λ r.
        (text_eq r.edge.kind (codes "supersedes") && text_eq r.edge.dst (doc_node_id path))
        && any
            (λ n.
              text_eq n.source_path (drop 4 r.edge.src)
              && (text_eq n.author (codes "owner") || not (is_owner_doc path db)))
            db.documents)
      db.edges

abbrev pub set_where : (StoredClaim → Bool) → (StoredClaim → Option ℕ) → Db → Db
set_where test at db = record db {
  claims = map (λ c. if test c then record c { superseded_at = at c } else c) db.claims;
}

unfoldable pub claim_unchanged : StoredClaim → Db → Bool
claim_unchanged row db =
    let mine = filter (λ c. in_slot (slot_of row) c && of_path row.source_path c) db.claims in
    any
      (λ c.
        (is_time c.valid_from (newest mine)
          && (text_eq c.value row.value
              && (text_eq c.kind row.kind
                  && (text_eq c.confidence row.confidence && text_option_eq c.anchor row.anchor)))))
      mine

unfoldable pub upsert_claim_row : StoredClaim → Db → Db
upsert_claim_row row db = record db {
  claims =
      upsert (λ c. in_slot (slot_of row) c && c.valid_from == row.valid_from)
        (λ c. record row { said_by = c.said_by; superseded_at = c.superseded_at }) row db.claims;
}

unfoldable pub mirror_said_by : Slot → Text → Option Text → Db → Db
mirror_said_by slot path said_by db =
    let mine = filter (λ c. in_slot slot c && of_path path c) db.claims in
    record db {
      claims =
          map
            (λ c.
              if in_slot slot c && (of_path path c && is_time c.valid_from (newest mine))
              then record c { said_by = said_by }
              else c)
            db.claims;
    }

abbrev pub live_in : Slot → Db → List StoredClaim
live_in slot db = filter (λ c. in_slot slot c && not (is_retired c.source_path db)) db.claims

unfoldable pub fact_seal : Slot → Db → Db
fact_seal slot db =
    let mx = newest (live_in slot db) in
    let owner_newest =
      any (λ l. in_slot slot l && (is_time l.valid_from mx && is_owner_doc l.source_path db))
        db.claims in
    set_where
      (λ c.
        in_slot slot c
        && (is_before c.valid_from mx && (not (is_owner_doc c.source_path db) || owner_newest)))
      (λ c. mx) db

unfoldable pub fact_unseal : Slot → Db → Db
fact_unseal slot db =
    let mx = newest (live_in slot db) in
    set_where (λ c. in_slot slot c && is_time c.valid_from mx) (λ c. none) db

abbrev pub items_in : Slot → Text → Db → List StoredClaim
items_in slot path db = filter (λ c. in_slot slot c && of_path path c) db.claims

unfoldable pub item_seal : Slot → Text → Db → Db
item_seal slot path db =
    let mx = newest (items_in slot path db) in
    set_where (λ c. in_slot slot c && (of_path path c && is_before c.valid_from mx)) (λ c. mx) db

unfoldable pub item_unseal : Slot → Text → Db → Db
item_unseal slot path db =
    let mx = newest (items_in slot path db) in
    set_where
      (λ c.
        in_slot slot c
        && (of_path path c && (is_time c.valid_from mx && not (is_retired c.source_path db))))
      (λ c. none) db

abbrev or_now : ℕ → Option ℕ → Option ℕ
or_now now none = some now
or_now now (some t) = some t

abbrev pub is_open : StoredClaim → Bool
is_open c = elim c.superseded_at [ none ↦ true | some t ↦ false ]

abbrev pub claims_of : Text → Db → List StoredClaim
claims_of path db = filter (of_path path) db.claims

abbrev pub slots_of : Text → Db → List Slot
slots_of path db = map slot_of (claims_of path db)

unfoldable pub partial_seal : ℕ → Text → Text → Db → Db
partial_seal now new old db =
    set_where (λ c. of_path old c && (is_open c && has_slot (slot_of c) (slots_of new db)))
      (λ c. or_now now (newest (claims_of new db))) db

abbrev same_time : Option ℕ → Option ℕ → Bool
same_time none u = false
same_time (some t) u = is_time t u

unfoldable pub retired_read : Text → Text → Db → List Slot
retired_read new old db =
    map slot_of
      (filter (λ c. same_time c.superseded_at (newest (claims_of new db))) (claims_of old db))
