-- ===== src/Search/Rank.antt =====
-- src/ohmyboring/search/rank.py: the feedback on notes, and the cut of the ranked hits to the size of
-- an answer. A distance or a score is of a type that is an argument, since no function here
-- computes with it.
pub mod Budget
pub mod Feedback
use ohmyboring.Prelude.{
  ℕ, zero, suc, ◌+◌, ◌-◌, ◌*◌, ◌/◌, min, max, Bool, true, false, not, ◌&&◌, Option, none, some,
  List, [], ◌∷◌, if◌then◌else◌, leb, ◌==◌, length, take, drop, Text, codes, is_empty, starts_with,
  text_eq,
}
use ohmyboring.Prelude.Int.{ℤ, pos, negsuc, leb_ℤ, sub_ℕ}

pub record Hit (Score : Type 0) : Type 0 where
  pub id : Text
  pub content : Text
  pub origin : Text
  pub project : Text
  pub source_path : Text
  pub dist : Score
  pub dist_kind : Text

pub record Scored (Score : Type 0) : Type 0 where
  pub hit : Hit Score
  pub score : Score

pub record Counts : Type 0 where
  pub used : ℕ
  pub contested : ℕ

abbrev pub pool_size : ℕ → ℕ
pool_size max_results = max (max_results * 4) 20

abbrev min_ℤ : ℤ → ℤ → ℤ
min_ℤ a b = if leb_ℤ a b then a else b

abbrev max_ℤ : ℤ → ℤ → ℤ
max_ℤ a b = if leb_ℤ b a then a else b

abbrev pub feedback_net_max : ℕ
feedback_net_max = 3

unfoldable pub net_feedback : ℕ → ℕ → ℤ
net_feedback used contested =
    max_ℤ (sub_ℕ 0 feedback_net_max) (min_ℤ (pos feedback_net_max) (sub_ℕ used contested))

module _ {Score : Type 0} where
  abbrev pub with_content : Scored Score → Text → Scored Score
  with_content item cut = record item { hit = record item.hit { content = cut } }

  -- The loop of `within_budget`; `n` hits are out already.
  unfoldable pub budget_loop : ℕ → ℕ → ℕ → ℕ → List (Scored Score) → List (Scored Score)
  budget_loop per_hit_cap max_results budget n [] = []
  budget_loop per_hit_cap max_results budget n (item ∷ merged) =
      let room = min per_hit_cap budget in
      let cut = take room item.hit.content in
      let without = budget_loop per_hit_cap max_results budget n merged in
      let later = budget_loop per_hit_cap max_results (budget - length cut) (suc n) merged in
      if leb max_results n
      then []
      else if room == 0
      then []
      else if is_empty cut
      then without
      else with_content item cut ∷ later

  -- No result stands for the `ZeroDivisionError` of a limit of no hits.
  unfoldable pub within_budget : List (Scored Score) → ℕ → ℕ → Option (List (Scored Score))
  within_budget merged zero max_chars = none
  within_budget merged (suc n) max_chars =
      some (budget_loop (max_chars / suc n) (suc n) max_chars 0 merged)

-- A row of the edges: (dst, kind, judge, author).
pub record Edge : Type 0 where
  pub dst : Text
  pub kind : Text
  pub judge : Option Text
  pub author : Option Text

-- A dictionary is the list of its items in the order of insertion.
abbrev pub CountMap : Type 0
CountMap = List (Text × Counts)

abbrev pub no_counts : Counts
no_counts = record { used = 0; contested = 0 }

abbrev pub counts_at : Text → CountMap → Counts
counts_at path [] = no_counts
counts_at path ((key, counts) ∷ m) = if text_eq key path then counts else counts_at path m

-- `entry = m.setdefault(path, Counts())`, then `m[path] = f(entry)`.
unfoldable pub change_at : (Counts → Counts) → Text → CountMap → CountMap
change_at f path [] = (path, f no_counts) ∷ []
change_at f path ((key, counts) ∷ m) =
    let rest = change_at f path m in
    if text_eq key path then (key, f counts) ∷ m else (key, counts) ∷ rest

abbrev is_text : Text → Option Text → Bool
is_text t none = false
is_text t (some u) = text_eq u t

abbrev pub is_shielded : Bool → Edge → Bool
is_shielded owner_only row =
    owner_only
    && (text_eq row.kind (codes "contested")
        && (is_text (codes "owner") row.author && not (is_text (codes "owner") row.judge)))

abbrev pub removeprefix : Text → Text → Text
removeprefix prefix s = if starts_with prefix s then drop (length prefix) s else s

unfoldable pub count_kind : Text → Counts → Counts
count_kind kind counts =
    if text_eq kind (codes "used")
    then record counts { used = suc counts.used }
    else if text_eq kind (codes "contested")
    then record counts { contested = suc counts.contested }
    else counts

abbrev pub edge_path : Edge → Text
edge_path row = removeprefix (codes "doc:") row.dst

unfoldable pub tally_row : Bool → CountMap → Edge → CountMap
tally_row owner_only counts row =
    if is_shielded owner_only row
    then counts
    else change_at (count_kind row.kind) (edge_path row) counts

unfoldable pub tally_loop : Bool → CountMap → List Edge → CountMap
tally_loop owner_only counts [] = counts
tally_loop owner_only counts (row ∷ rows) =
    tally_loop owner_only (tally_row owner_only counts row) rows

unfoldable pub tally_feedback : List Edge → Bool → CountMap
tally_feedback rows owner_only = tally_loop owner_only [] rows
