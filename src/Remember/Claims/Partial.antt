-- ===== src/Remember/Claims/Partial.antt =====
-- The partial closing of src/ohmyboring/remember/writer.py against the check of the closed claims in
-- src/ohmyboring/remember/graph.py.
use ohmyboring.Prelude.{
  ℕ, Bool, true, false, not, ◌&&◌, ◌||◌, Option, none, some, List, [], ◌∷◌, ◌≡◌, refl, ap, ◌∙◌, inl,
  inr, arith, if◌then◌else◌, map, length, Text, text_eq, text_eq→eq, Bool-cases, All,
}
use ohmyboring.Remember.Graph.{Slot, has_slot}
use ohmyboring.Remember.Graph.Seals.{
  ClaimRow, SealVerdict, expected_seal_states, count_seal, seal_loop, compare_seals,
}
use ohmyboring.Remember.Tables.{Db, StoredClaim}
use ohmyboring.Remember.Claims.{
  slot_of, of_path, newest, is_open, claims_of, slots_of, or_now, partial_seal,
}

-- The row that the check reads of a claim.
abbrev pub seal_row : StoredClaim → ClaimRow
seal_row c = record {
  source_path = c.source_path;
  subject = c.subject;
  predicate = c.predicate;
  kind = c.kind;
  is_sealed = not (is_open c);
}

abbrev Agrees : ClaimRow × Bool → Type 0
Agrees (row, want_sealed) = row.is_sealed ≡ want_sealed

count_seal-Agrees :
    (new : Text) (row : ClaimRow) (want : Bool) (v : SealVerdict)
    → row.is_sealed ≡ want
    → count_seal new (row, want) v ≡ v
unfolding count_seal
count_seal-Agrees new row want v h = elim (Bool-cases want) [
  | inl sealed ↦ rw (h, sealed) refl
  | inr left_open ↦ rw (h, left_open) refl
]

seal_loop-Agrees :
    (new : Text) (v : SealVerdict) (rows : List (ClaimRow × Bool))
    → All Agrees rows
    → seal_loop new v rows ≡ v
unfolding seal_loop
seal_loop-Agrees new v [] h = refl
seal_loop-Agrees new v ((row, want) ∷ rows) h =
    rw (count_seal-Agrees new row want v h.0) (seal_loop-Agrees new v rows h.1)

-- Whether a claim of one of the two notes is open.
abbrev pub IsOpenOf : Text → Text → StoredClaim → Type 0
IsOpenOf new old c = not (of_path new c || of_path old c) || is_open c ≡ true

abbrev closed : Text → List Slot → Option ℕ → StoredClaim → StoredClaim
closed old slots at c =
    if of_path old c && (is_open c && has_slot (slot_of c) slots)
    then record c { superseded_at = at }
    else c

module _ (new old : Text) (differ : text_eq old new ≡ false) (slots : List Slot) (time : ℕ) where
  expected-Agrees :
      (cs : List StoredClaim)
      → All (IsOpenOf new old) cs
      → All Agrees (
          expected_seal_states
            (map seal_row (map (closed old slots (some time)) cs))
            new
            slots
            (old ∷ []))
  unfolding expected_seal_states
  expected-Agrees [] h = tt
  expected-Agrees (c ∷ cs) h =
      let rest = expected-Agrees cs h.1 in
      elim (Bool-cases (of_path old c && (is_open c && has_slot (slot_of c) slots))) [
        | inl closing ↦
            let its_old : of_path old c ≡ true = ground (arith, closing) in
            let restated : has_slot (slot_of c) slots ≡ true = ground (arith, closing) in
            let not_new : text_eq c.source_path new ≡ false =
              ap (λ p. text_eq p new) (text_eq→eq c.source_path old its_old) ∙ differ in
            rw closing (rw (not_new, its_old, restated) (refl, rest))
        | inr left_open ↦ rw left_open (elim (Bool-cases (text_eq c.source_path new)) [
          | inl its_new ↦ rw its_new (ground (arith, its_new, h.0), rest)
          | inr not_new ↦ rw not_new (elim (Bool-cases (text_eq c.source_path old)) [
            | inl its_old ↦ rw its_old (ground (arith, left_open, its_old, h.0), rest)
            | inr neither ↦ rw neither rest
          ])
        ])
      ]

or_now-some : (now : ℕ) (at : Option ℕ) → (t : ℕ) × (or_now now at ≡ some t)
or_now-some now none = (now, refl)
or_now-some now (some t) = (t, refl)

claims-partial_seal :
    (now : ℕ) (new old : Text) (db : Db)
    → (partial_seal now new old db).claims
      ≡ map (closed old (slots_of new db) (or_now now (newest (claims_of new db)))) db.claims
unfolding partial_seal
claims-partial_seal now new old db = refl

-- Closing the claims of an old note that a new note restates leaves exactly the claims closed that
-- graph.py wants closed: its comparison of the two notes' claims finds no difference. The notes are
-- two, and before the closing all their claims are open.
pub partial_seal-Refines :
    (now : ℕ) (new old : Text) (db : Db)
    → text_eq old new ≡ false
    → All (IsOpenOf new old) db.claims
    → let expected =
        expected_seal_states
          (map seal_row (partial_seal now new old db).claims)
          new
          (slots_of new db)
          (old ∷ []) in
      compare_seals expected new ≡ record {
        checked = length expected;
        engine_only = 0;
        python_only = 0;
        engine_only_on_new_note = 0;
      }
unfolding compare_seals
partial_seal-Refines now new old db differ open_before =
    let (time, at) = or_now-some now (newest (claims_of new db)) in
    let cs = map (closed old (slots_of new db) (some time)) db.claims in
    let same : (partial_seal now new old db).claims ≡ cs =
      claims-partial_seal now new old db
      ∙ ap (λ t. map (closed old (slots_of new db) t) db.claims) at in
    rw same (
      seal_loop-Agrees new _ _
        (expected-Agrees new old differ (slots_of new db) time db.claims open_before))
