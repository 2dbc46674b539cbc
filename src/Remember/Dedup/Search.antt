-- ===== src/Remember/Dedup/Search.antt =====
-- `check_duplicate` of src/ohmyboring/remember/dedup.py: which note it finds, and that an index of
-- parsed notes does not change the answer.
use mathlib.Core.List.Memᴰ
use mathlib.Core.List.{Memᴰ}
use mathlib.Core.Path.{subst}
use ohmyboring.Prelude.{
  true, Option, none, some, List, [], ◌∷◌, ◌≡◌, ◌⊎◌, sym, ap, ◌∙◌, inl, inr, Text,
}
use ohmyboring.Prelude.Int.{leb_ℤ}
use ohmyboring.Remember.Dedup.Pick.{number, pick_duplicate-cases, pick_duplicate-nil}
use ohmyboring.Result.{ok}
use ohmyboring.Remember.Note.{CharTable, RememberNote}
use ohmyboring.Remember.Quality.{Branch}
use ohmyboring.Remember.Match.{DuplicateMatch, branch_for, is_same_session, pick_duplicate}
use ohmyboring.Remember.Dedup.{
  VaultView, Entry, candidates, match_entry, match_entries, scan_vault, check_duplicate,
  after_files, NearestDocument,
}

abbrev pub as_entry : DuplicateMatch → Entry
as_entry m = (m.source_path, m.existing)

module _ (entry : Entry) (m : DuplicateMatch) where
  match_entry-Memᴰ :
      (found : Option Branch) (rest : List DuplicateMatch)
      → Memᴰ m (match_entry entry.0 entry.1 found rest)
      → ((as_entry m ≡ entry) × (found ≡ some m.branch)) ⊎ Memᴰ m rest
  match_entry-Memᴰ none rest h = inr h
  match_entry-Memᴰ (some b) rest h = elim (Memᴰ.cases_cons h) [
    | inl same ↦ inl (ap as_entry same, ap (λ x. some x.branch) (sym same))
    | inr later ↦ inr later
  ]

  mem-match_entry :
      (found : Option Branch) (rest : List DuplicateMatch)
      → as_entry m ≡ entry
      → found ≡ some m.branch
      → Memᴰ m (match_entry entry.0 entry.1 found rest)
  mem-match_entry found rest same on =
      rw on
        (Memᴰ.head (ap (λ e. record { source_path = e.0; branch = m.branch; existing = e.1 }) same))

  later-match_entry :
      (found : Option Branch) (rest : List DuplicateMatch)
      → Memᴰ m rest
      → Memᴰ m (match_entry entry.0 entry.1 found rest)
  later-match_entry none rest h = h
  later-match_entry (some b) rest h = Memᴰ.tail h

module _ (table : CharTable) (note : RememberNote) where
  -- What a match of the files is: a candidate of the vault, with the branch that it is on.
  abbrev pub IsMatch : List Entry → DuplicateMatch → Type 0
  IsMatch entries m = Memᴰ (as_entry m) entries × (branch_for table note m.existing ≡ some m.branch)

  match_entries-Memᴰ :
      (entries : List Entry) (m : DuplicateMatch)
      → Memᴰ m (match_entries table note entries)
      → IsMatch entries m
  unfolding match_entries
  match_entries-Memᴰ [] m h = absurd (Memᴰ.not-nil h)
  match_entries-Memᴰ ((path, existing) ∷ entries) m h =
      elim (match_entry-Memᴰ (path, existing) m (branch_for table note existing) _ h) [
        | inl (same, on) ↦ (Memᴰ.head same, ap (λ e. branch_for table note e.1) same ∙ on)
        | inr later ↦ let r = match_entries-Memᴰ entries m later in (Memᴰ.tail r.0, r.1)
      ]

  mem-match_entries :
      (entries : List Entry) (m : DuplicateMatch)
      → IsMatch entries m
      → Memᴰ m (match_entries table note entries)
  unfolding match_entries
  mem-match_entries [] m h = absurd (Memᴰ.not-nil h.0)
  mem-match_entries ((path, existing) ∷ entries) m (here, on) = elim (Memᴰ.cases_cons here) [
    | inl same ↦
        mem-match_entry (path, existing) m (branch_for table note existing) _ same
          (ap (λ e. branch_for table note e.1) (sym same) ∙ on)
    | inr later ↦
        later-match_entry (path, existing) m (branch_for table note existing) _
          (mem-match_entries entries m (later, on))
  ]

  pub record IsBest (entries : List Entry) (m : DuplicateMatch) : Type 0 where
    pub matching : IsMatch entries m
    pub session_first :
        (other : DuplicateMatch)
        → IsMatch entries other
        → is_same_session other ≡ true
        → is_same_session m ≡ true
    pub newest :
        (other : DuplicateMatch)
        → IsMatch entries other
        → is_same_session other ≡ is_same_session m
        → leb_ℤ (number table other) (number table m) ≡ true

  module _ (vault : VaultView) (nearest : Option NearestDocument) (exclude_paths : List Text) where
    -- The search asks for the nearest document, if it can, only when no candidate of the vault is a
    -- match; otherwise its answer is a match, one of the same session if there is one, and no match
    -- that is alike in that has a greater note number.
    pub check_duplicate-cases :
        (((m : DuplicateMatch) → ¬ IsMatch (candidates vault exclude_paths) m)
          × (check_duplicate table note vault nearest exclude_paths
              ≡ after_files note nearest exclude_paths none))
        ⊎ ((m : DuplicateMatch) × (check_duplicate table note vault nearest exclude_paths
              ≡ ok (some m))
            × IsBest (candidates vault exclude_paths) m)
    unfolding check_duplicate scan_vault
    check_duplicate-cases =
        let entries = candidates vault exclude_paths in
        elim (pick_duplicate-cases table (match_entries table note entries)) [
          | inl empty ↦ inl (
            λ m h. Memᴰ.not-nil (subst (Memᴰ m) empty (mem-match_entries entries m h)),
            ap (λ o. after_files note nearest exclude_paths o)
                (ap (pick_duplicate table) empty ∙ pick_duplicate-nil table),
          )
          | inr (m, e, pick) ↦ inr (
            m,
            ap (λ o. after_files note nearest exclude_paths o) e,
            record {
              matching = match_entries-Memᴰ entries m pick.listed;
              session_first =
                  λ other h k. pick.session_first other (mem-match_entries entries other h) k;
              newest = λ other h k. pick.newest other (mem-match_entries entries other h) k;
            },
          )
        ]
