-- ===== src/Search/Rank/Budget.antt =====
-- `within_budget` of src/ohmyboring/search/rank.py: the running budget never cuts more than the share
-- of one hit does.
use native.Mathlib.Nat.{le-div_iff_mul-le, div-mul-le_self}
use ohmyboring.Prelude.{
  ℕ, zero, suc, ◌+◌, ◌-◌, ◌*◌, ◌/◌, ◌≤◌, ◌<◌, min, Bool, false, not, some, List, [], ◌∷◌, ◌≡◌, refl,
  sym, ap, inl, inr, arith, leb, ◌==◌, length, length-take, take, filter, map, is_empty, Bool-cases,
  All,
}
use ohmyboring.Search.Rank.{Scored, with_content, budget_loop, within_budget}

share_pos : (n m : ℕ) → n < m → 1 ≤ m / suc n
share_pos n m h =
    let pos_n : 0 < suc n = omega arith in
    let below : 1 * suc n ≤ m = omega arith in (le-div_iff_mul-le pos_n).1 below

module _ {Score : Type 0} where
  abbrev pub shorten : ℕ → Scored Score → Scored Score
  shorten share item = with_content item (take share item.hit.content)

  abbrev pub has_content : Scored Score → Bool
  has_content item = not (is_empty item.hit.content)

  take_nil : (r : ℕ) → let none_given : List (Scored Score) = [] in take r none_given ≡ []
  take_nil zero = refl
  take_nil (suc r) = refl

  budget_loop-shares :
      (share m r n budget : ℕ) (merged : List (Scored Score))
      → m ≡ n + r
      → 1 ≤ share
      → share * r ≤ budget
      → budget_loop share m budget n merged
        ≡ take r (filter has_content (map (shorten share) merged))
  unfolding budget_loop
  budget_loop-shares share m r n budget [] e h k = sym (take_nil r)
  budget_loop-shares share m zero n budget (item ∷ merged) e h k = ground arith
  budget_loop-shares share m (suc r) n budget (item ∷ merged) e h k =
      let step : share * suc r ≡ share + share * r = omega arith in
      let room : min share budget ≡ share = omega (arith, step) in
      let more : leb m n ≡ false = ground arith in
      let some_room : (share == 0) ≡ false = ground arith in
      let cut = take share item.hit.content in
      rw (more, room, some_room)
        (elim (Bool-cases (is_empty cut)) [
          | inl none_left ↦ rw none_left (budget_loop-shares share m (suc r) n budget merged e h k)
          | inr cut_some ↦ rw cut_some (
              ap (λ rest. with_content item cut ∷ rest)
                (budget_loop-shares share m r (suc n) (budget - length cut) merged (omega arith) h
                  (omega (arith, step, length-take share item.hit.content))))
        ])

  -- When the answer may have at least one character for each hit allowed, it is the first hits, as
  -- many as are allowed, of those that keep some content when each is cut to its equal share: the
  -- running budget never cuts more than the share does.
  pub within_budget-shares :
      (merged : List (Scored Score)) (n max_chars : ℕ)
      → n < max_chars
      → within_budget merged (suc n) max_chars
        ≡ some (take (suc n) (filter has_content (map (shorten (max_chars / suc n)) merged)))
  unfolding within_budget
  within_budget-shares merged n max_chars h =
      let share = max_chars / suc n in
      let one : 1 ≤ share = share_pos n max_chars h in
      let fits : share * suc n ≤ max_chars = div-mul-le_self max_chars (suc n) in
      let same : suc n ≡ 0 + suc n = omega arith in
      ap (λ out. some out)
        (budget_loop-shares share (suc n) (suc n) 0 max_chars merged (omega arith) one fits)

  abbrev pub total_chars : List (Scored Score) → ℕ
  total_chars [] = 0
  total_chars (item ∷ out) = length item.hit.content + total_chars out

  budget_loop-bounds :
      (share max_results budget n : ℕ) (merged : List (Scored Score))
      → n ≤ max_results
      → let out = budget_loop share max_results budget n merged in
        (total_chars out ≤ budget)
        × (n + length out ≤ max_results)
        × All (λ item. (length item.hit.content ≤ share) × (is_empty item.hit.content ≡ false)) out
  unfolding budget_loop
  budget_loop-bounds share m budget n [] h = (omega arith, omega arith, tt)
  budget_loop-bounds share m budget n (item ∷ merged) h =
      let cut = take (min share budget) item.hit.content in
      elim (Bool-cases (leb m n)) [
        | inl e ↦ rw e (omega arith, omega arith, tt)
        | inr e ↦ rw e (elim (Bool-cases (min share budget == 0)) [
          | inl z ↦ rw z (omega arith, omega arith, tt)
          | inr z ↦ rw z (elim (Bool-cases (is_empty cut)) [
            | inl none_left ↦ rw none_left (budget_loop-bounds share m budget n merged h)
            | inr cut_some ↦
                let room = length-take (min share budget) item.hit.content in
                let (total, count, each) =
                  budget_loop-bounds share m (budget - length cut) (suc n) merged (ground arith) in
                rw cut_some
                  (omega (arith, room), omega arith, ((omega (arith, room), cut_some), each))
          ])
        ])
      ]

  -- An answer for at least one hit always comes, has at most the allowed characters in all and at
  -- most the allowed number of hits, and each hit has some content and at most its equal share of
  -- it.
  pub within_budget-bounds :
      (merged : List (Scored Score)) (n max_chars : ℕ)
      → (out : List (Scored Score)) × (within_budget merged (suc n) max_chars ≡ some out)
        × (total_chars out ≤ max_chars)
        × (length out ≤ suc n)
        × All
            (λ item.
              (length item.hit.content ≤ max_chars / suc n) × (is_empty item.hit.content ≡ false))
            out
  unfolding within_budget
  within_budget-bounds merged n max_chars =
      let share = max_chars / suc n in
      let (total, count, each) =
        budget_loop-bounds share (suc n) max_chars 0 merged (omega arith) in
      (budget_loop share (suc n) max_chars 0 merged, refl, total, omega arith, each)
