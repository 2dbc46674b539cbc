-- ===== src/Search/Rank/Feedback.antt =====
-- `net_feedback` and `tally_feedback` of src/ohmyboring/search/rank.py: how the edges of a note count.
use mathlib.Core.Path.{subst}
use ohmyboring.Prelude.{
  ℕ, ◌≤◌, ◌<◌, suc, ◌+◌, Bool, true, false, not, ◌&&◌, List, [], ◌∷◌, ◌≡◌, refl, sym, ap, ◌∙◌, inl,
  inr, arith, if◌then◌else◌, length, filter, Text, codes, text_eq, text_eq→eq, text_eq_sym,
  Bool-cases,
}
use ohmyboring.Prelude.Int.{ℤ, pos, negsuc}
use ohmyboring.Search.Rank.{
  Counts, Edge, CountMap, counts_at, change_at, is_shielded, count_kind, edge_path, net_feedback,
  tally_row, tally_loop, tally_feedback,
}

module _ (f : Counts → Counts) where
  at_key :
      (b : Bool) (here later : Counts)
      → (if b then f here else later)
        ≡ (if b then f (if b then here else later) else (if b then here else later))
  at_key true here later = refl
  at_key false here later = refl

  counts_at-change_at :
      (key path : Text) (m : CountMap)
      → counts_at path (change_at f key m)
        ≡ (if text_eq key path then f (counts_at path m) else counts_at path m)
  unfolding change_at
  counts_at-change_at key path [] = refl
  counts_at-change_at key path ((k, counts) ∷ m) = elim (Bool-cases (text_eq k key)) [
    | inl e ↦
        let same : text_eq key path ≡ text_eq k path =
          ap (λ x. text_eq x path) (sym (text_eq→eq k key e)) in
        rw (e, same) (at_key (text_eq k path) counts (counts_at path m))
    | inr e ↦ rw e (elim (Bool-cases (text_eq k path)) [
      | inl p ↦
          let other : text_eq key path ≡ false =
            ap (text_eq key) (sym (text_eq→eq k path p)) ∙ text_eq_sym key k ∙ e in
          rw (p, other) refl
      | inr p ↦ rw p (counts_at-change_at key path m)
    ])
  ]

module _ (path : Text) where
  abbrev pub is_use : Edge → Bool
  is_use row = text_eq row.kind (codes "used") && text_eq (edge_path row) path

  abbrev pub is_contest : Bool → Edge → Bool
  is_contest owner_only row =
      text_eq row.kind (codes "contested")
      && (text_eq (edge_path row) path && not (is_shielded owner_only row))

  abbrev one_if : Bool → ℕ
  one_if true = 1
  one_if false = 0

  tally_row-at :
      (owner_only : Bool) (m : CountMap) (row : Edge)
      → counts_at path (tally_row owner_only m row) ≡ (
          if is_shielded owner_only row
          then counts_at path m
          else if text_eq (edge_path row) path
          then count_kind row.kind (counts_at path m)
          else counts_at path m)
  unfolding tally_row
  tally_row-at owner_only m row = elim (Bool-cases (is_shielded owner_only row)) [
    | inl e ↦ rw e refl
    | inr e ↦ rw e (counts_at-change_at (count_kind row.kind) (edge_path row) path m)
  ]

  kinds_differ :
      (kind : Text) → text_eq kind (codes "used") ≡ true → text_eq kind (codes "contested") ≡ false
  kinds_differ kind e = ap (λ k. text_eq k (codes "contested")) (text_eq→eq kind (codes "used") e)

  shielded_kind :
      (owner_only : Bool) (row : Edge)
      → is_shielded owner_only row ≡ true
      → text_eq row.kind (codes "contested") ≡ true
  shielded_kind owner_only row e = ground arith

  decide :
      (shielded here used contest : Bool) (c : Counts)
      → (used ≡ true → contest ≡ false)
      → (shielded ≡ true → contest ≡ true)
      → let counted : Counts =
          (if used
            then record c { used = suc c.used }
            else if contest
            then record c { contested = suc c.contested }
            else c) in
        let r : Counts = (if shielded then c else if here then counted else c) in
        (r.used ≡ c.used + one_if (used && here))
        × (r.contested ≡ c.contested + one_if (contest && (here && not shielded)))
  decide shielded here used contest c differ shields = ground arith

  tally_row-counts :
      (owner_only : Bool) (m : CountMap) (row : Edge)
      → ((counts_at path (tally_row owner_only m row)).used
          ≡ (counts_at path m).used + one_if (is_use row))
        × ((counts_at path (tally_row owner_only m row)).contested
            ≡ (counts_at path m).contested + one_if (is_contest owner_only row))
  unfolding count_kind
  tally_row-counts owner_only m row =
      subst
        (λ r.
          (r.used ≡ (counts_at path m).used + one_if (is_use row))
          × (r.contested ≡ (counts_at path m).contested + one_if (is_contest owner_only row)))
        (sym (tally_row-at owner_only m row))
        (decide (is_shielded owner_only row) (text_eq (edge_path row) path)
          (text_eq row.kind (codes "used")) (text_eq row.kind (codes "contested"))
          (counts_at path m) (kinds_differ row.kind) (shielded_kind owner_only row))

  tally_loop-counts :
      (owner_only : Bool) (m : CountMap) (rows : List Edge)
      → ((counts_at path (tally_loop owner_only m rows)).used
          ≡ (counts_at path m).used + length (filter is_use rows))
        × ((counts_at path (tally_loop owner_only m rows)).contested
            ≡ (counts_at path m).contested + length (filter (is_contest owner_only) rows))
  unfolding tally_loop
  tally_loop-counts owner_only m [] = (omega arith, omega arith)
  tally_loop-counts owner_only m (row ∷ rows) =
      let (used, contested) = tally_row-counts owner_only m row in
      let (used_later, contested_later) =
        tally_loop-counts owner_only (tally_row owner_only m row) rows in
      (ground (arith, used, used_later), ground (arith, contested, contested_later))

  -- The tally of a note is the number of its edges that say it was used, and the number of those
  -- that contest it and do not fall under the protection of the notes of the owner.
  pub tally_feedback-counts :
      (rows : List Edge) (owner_only : Bool)
      → ((counts_at path (tally_feedback rows owner_only)).used ≡ length (filter is_use rows))
        × ((counts_at path (tally_feedback rows owner_only)).contested
            ≡ length (filter (is_contest owner_only) rows))
  unfolding tally_feedback
  tally_feedback-counts rows owner_only =
      let (used, contested) = tally_loop-counts owner_only [] rows in
      (omega (arith, used), omega (arith, contested))

-- `n` is `votes` less `contests`, cut to -3 and 3.
abbrev pub IsNet : ℕ → ℕ → ℤ → Type 0
IsNet votes contests n =
    ((k : ℕ) → k ≤ 3 → votes ≡ contests + k → n ≡ pos k)
    × ((k : ℕ) → k < 3 → contests ≡ votes + suc k → n ≡ negsuc k)
    × (contests + 3 ≤ votes → n ≡ pos 3)
    × (votes + 3 ≤ contests → n ≡ negsuc 2)

net_feedback-IsNet : (votes contests : ℕ) → IsNet votes contests (net_feedback votes contests)
unfolding net_feedback
net_feedback-IsNet votes contests =
    (λ k le e. ground arith, λ k lt e. ground arith, λ le. ground arith, λ le. ground arith)

-- The net feedback of a note is the number of its edges that say it was used less the number of
-- those that contest it and are not shielded, cut to -3 and 3.
pub tally_feedback-IsNet :
    (path : Text) (rows : List Edge) (owner_only : Bool)
    → let c = counts_at path (tally_feedback rows owner_only) in
      IsNet
        (length (filter (is_use path) rows))
        (length (filter (is_contest path owner_only) rows))
        (net_feedback c.used c.contested)
tally_feedback-IsNet path rows owner_only =
    let (votes, contests) = tally_feedback-counts path rows owner_only in
    rw (votes, contests)
      (net_feedback-IsNet (length (filter (is_use path) rows))
        (length (filter (is_contest path owner_only) rows)))
