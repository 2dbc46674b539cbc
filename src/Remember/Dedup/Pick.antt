-- ===== src/Remember/Dedup/Pick.antt =====
-- `pick_duplicate` of src/ohmyboring/remember/dedup.py: matches of the same session come first, and
-- among equals the note with the greatest number.
use mathlib.Core.List.Memᴰ
use mathlib.Core.List.{Memᴰ}
use mathlib.Core.Path.{subst}
use ohmyboring.Prelude.{
  true, not, none, some, List, [], ◌∷◌, ◌≡◌, ◌⊎◌, refl, ap, ◌∙◌, inl, inr, filter, Bool-cases,
}
use ohmyboring.Prelude.Int.{ℤ, leb_ℤ, leb_ℤ_refl, leb_ℤ_trans, leb_ℤ_total}
use ohmyboring.Prelude.Membership.{filter-Memᴰ, mem-filter}
use ohmyboring.Remember.Note.{CharTable}
use ohmyboring.Remember.Match.{
  DuplicateMatch, newest_of, newest_match, path_number, is_same_session, pick_duplicate,
}

module _ (table : CharTable) where
  abbrev pub number : DuplicateMatch → ℤ
  number m = path_number table m.source_path

  abbrev pub IsNewest : DuplicateMatch → List DuplicateMatch → Type 0
  IsNewest m ms =
      Memᴰ m ms
      × ((other : DuplicateMatch) → Memᴰ other ms → leb_ℤ (number other) (number m) ≡ true)

  module _ (best m r : DuplicateMatch) (ms : List DuplicateMatch) where
    keep_best :
        IsNewest r (best ∷ ms) → leb_ℤ (number m) (number r) ≡ true → IsNewest r (best ∷ m ∷ ms)
    keep_best (here, newest) le = (
      elim (Memᴰ.cases_cons here) [
        | inl same ↦ Memᴰ.head same
        | inr later ↦ Memᴰ.tail (Memᴰ.tail later)
      ],
      λ other h. elim (Memᴰ.cases_cons h) [
        | inl same ↦ newest other (Memᴰ.head same)
        | inr h' ↦ elim (Memᴰ.cases_cons h') [
          | inl same ↦ ap (λ x. leb_ℤ (number x) (number r)) same ∙ le
          | inr later ↦ newest other (Memᴰ.tail later)
        ]
      ],
    )

    take_next :
        IsNewest r (m ∷ ms) → leb_ℤ (number best) (number r) ≡ true → IsNewest r (best ∷ m ∷ ms)
    take_next (here, newest) le = (
      Memᴰ.tail here,
      λ other h. elim (Memᴰ.cases_cons h) [
        | inl same ↦ ap (λ x. leb_ℤ (number x) (number r)) same ∙ le
        | inr later ↦ newest other later
      ],
    )

  newest_of-IsNewest :
      (best : DuplicateMatch) (ms : List DuplicateMatch)
      → IsNewest (newest_of table best ms) (best ∷ ms)
  unfolding newest_of
  newest_of-IsNewest best [] = (
    Memᴰ.head refl,
    λ other h.
        ap (λ x. leb_ℤ (number x) (number best)) (Memᴰ.eq_of_singleton h)
        ∙ leb_ℤ_refl (number best),
  )
  newest_of-IsNewest best (m ∷ ms) = elim (Bool-cases (leb_ℤ (number m) (number best))) [
    | inl e ↦
        let r = newest_of-IsNewest best ms in
        rw e (
          keep_best best m (newest_of table best ms) ms r (
            leb_ℤ_trans (number m) (number best) (number (newest_of table best ms)) e
              (r.1 best (Memᴰ.head refl))))
    | inr e ↦
        let r = newest_of-IsNewest m ms in
        rw e (
          take_next best m (newest_of table m ms) ms r (
            leb_ℤ_trans (number best) (number m) (number (newest_of table m ms))
              (leb_ℤ_total (number m) (number best) e) (r.1 m (Memᴰ.head refl))))
  ]

  newest_match-cases :
      (ms : List DuplicateMatch)
      → (ms ≡ []) ⊎ ((m : DuplicateMatch) × (newest_match table ms ≡ some m) × IsNewest m ms)
  unfolding newest_match
  newest_match-cases [] = inl refl
  newest_match-cases (m ∷ ms) = inr (newest_of table m ms, refl, newest_of-IsNewest m ms)

  pub record IsPick (m : DuplicateMatch) (ms : List DuplicateMatch) : Type 0 where
    pub listed : Memᴰ m ms
    pub session_first :
        (other : DuplicateMatch)
        → Memᴰ other ms
        → is_same_session other ≡ true
        → is_same_session m ≡ true
    pub newest :
        (other : DuplicateMatch)
        → Memᴰ other ms
        → is_same_session other ≡ is_same_session m
        → leb_ℤ (number other) (number m) ≡ true

  none_left : (m : DuplicateMatch) (ms : List DuplicateMatch) → ms ≡ [] → Memᴰ m ms → ⊥
  none_left m ms e h = Memᴰ.not-nil (subst (Memᴰ m) e h)

  newest_match-nil : newest_match table [] ≡ none
  unfolding newest_match
  newest_match-nil = refl

  pub pick_duplicate-nil : pick_duplicate table [] ≡ none
  unfolding pick_duplicate newest_match
  pick_duplicate-nil = refl

  pub pick_duplicate-cases :
      (ms : List DuplicateMatch)
      → (ms ≡ []) ⊎ ((m : DuplicateMatch) × (pick_duplicate table ms ≡ some m) × IsPick m ms)
  unfolding pick_duplicate
  pick_duplicate-cases ms = elim (newest_match-cases (filter is_same_session ms)) [
    | inr (m, e, (here, newest)) ↦
        let (listed, same) = filter-Memᴰ is_same_session ms here in
        inr (
          m,
          rw e refl,
          record {
            listed = listed;
            session_first = λ other h k. same;
            newest = λ other h k. newest other (mem-filter is_same_session ms h (k ∙ same));
          },
        )
    | inl none_same ↦ elim (newest_match-cases (filter (λ m. not (is_same_session m)) ms)) [
      | inr (m, e, (here, newest)) ↦
          let (listed, other_branch) = filter-Memᴰ (λ m. not (is_same_session m)) ms here in
          inr (
            m,
            rw (none_same, newest_match-nil, e) refl,
            record {
              listed = listed;
              session_first = λ other h k.
                  absurd (none_left other _ none_same (mem-filter is_same_session ms h k));
              newest = λ other h k.
                  newest other
                    (mem-filter (λ m. not (is_same_session m)) ms h (ap not k ∙ other_branch));
            },
          )
      | inl none_other ↦ inl (no_match ms none_same none_other)
    ]
  ]
    where
      no_match :
          (ms : List DuplicateMatch)
          → filter is_same_session ms ≡ []
          → filter (λ m. not (is_same_session m)) ms ≡ []
          → ms ≡ []
      no_match [] e f = refl
      no_match (m ∷ ms) e f = elim (Bool-cases (is_same_session m)) [
        | inl same ↦
            absurd (none_left m _ e (mem-filter is_same_session (m ∷ ms) (Memᴰ.head refl) same))
        | inr other ↦ absurd (
            none_left m _ f
              (mem-filter (λ m. not (is_same_session m)) (m ∷ ms) (Memᴰ.head refl) (ap not other)))
      ]
