-- ===== src/Search/Examples.antt =====
-- Tests of the ranking, and its theorems at concrete hits and edges.
use ohmyboring.Prelude.{
  ◌+◌, ℕ, ◌/◌, ◌≤◌, true, false, some, List, [], ◌∷◌, ◌≡◌, refl, arith, length, take, filter, map,
  is_empty, All, Text, codes,
}
use ohmyboring.Prelude.Int.{negsuc}
use ohmyboring.Search.Rank.{
  Scored, Edge, budget_loop, within_budget, net_feedback, tally_feedback, tally_loop, tally_row,
  change_at, count_kind, counts_at,
}
use ohmyboring.Search.Rank.Budget.{
  shorten, has_content, total_chars, within_budget-shares, within_budget-bounds,
}
use ohmyboring.Remember.Tokens.{is_member}
use ohmyboring.Search.Related.{RelatedMap, new_notes, extend_at, attach_loop, attach_related}
use ohmyboring.Search.Related.Once.{one_if, times_in, attach_related_once}
use ohmyboring.Search.Rank.Feedback.{
  is_use, is_contest, tally_feedback-counts, IsNet, tally_feedback-IsNet,
}

abbrev hit_of : Text → Scored ℕ
hit_of content = record {
  hit = record {
    id = codes "wiki-1#0";
    content = content;
    origin = codes "personal";
    project = codes "omb";
    source_path = codes "/vault/wiki/wiki-1.md";
    dist = 0;
    dist_kind = codes "vector_cosine";
  };
  score = 0;
}

abbrev hits : List (Scored ℕ)
hits = hit_of (codes "abcdef") ∷ hit_of [] ∷ hit_of (codes "xy") ∷ hit_of (codes "z") ∷ []

abbrev cut_hits : List (Scored ℕ)
cut_hits = hit_of (codes "abcd") ∷ hit_of (codes "xy") ∷ []

abbrev edge : Text → Text → Text → Edge
edge dst kind judge = record {
  dst = dst;
  kind = kind;
  judge = some judge;
  author = some (codes "owner");
}

abbrev edges : List Edge
edges =
    edge (codes "doc:a") (codes "used") (codes "agent")
    ∷ edge (codes "doc:a") (codes "contested") (codes "agent")
    ∷ edge (codes "a") (codes "contested") (codes "owner")
    ∷ []

-- Names that the tests below compute with.
program : Unit {0}
unfolding budget_loop within_budget net_feedback tally_feedback tally_loop tally_row change_at
    count_kind new_notes extend_at attach_loop attach_related
program = tt

cuts_hits : within_budget hits 2 8 ≡ some cut_hits
unfolding program
cuts_hits = refl

-- The other agent's verdict does not count against a note of the owner.
counts_edges :
    counts_at (codes "a") (tally_feedback edges true) ≡ record { used = 1; contested = 1 }
unfolding program
counts_edges = refl

net_of_seven : net_feedback 1 8 ≡ negsuc 2
unfolding program
net_of_seven = refl

within_budget-shares_example :
    within_budget hits 2 8 ≡ some (take 2 (filter has_content (map (shorten (8 / 2)) hits)))
within_budget-shares_example = within_budget-shares hits 1 8 (omega arith)

within_budget-bounds_example :
    (out : List (Scored ℕ)) × (within_budget hits 2 8 ≡ some out)
    × (total_chars out ≤ 8)
    × (length out ≤ 2)
    × All (λ item. (length item.hit.content ≤ 8 / 2) × (is_empty item.hit.content ≡ false)) out
within_budget-bounds_example = within_budget-bounds hits 1 8

abbrev heads : List (Text × Text)
heads = (codes "wiki-1#0", codes "wiki-1") ∷ (codes "wiki-2#0", codes "wiki-2") ∷ []

abbrev neighbours : List (List (Text × Text))
neighbours =
    ((codes "wiki-2", codes "text") ∷ (codes "wiki-3", codes "text") ∷ [])
    ∷ ((codes "wiki-3", codes "text") ∷ [])
    ∷ []

attaches_once :
    attach_related heads (codes "wiki-1" ∷ codes "wiki-2" ∷ []) neighbours 2
    ≡ some (
        (codes "wiki-1#0", (record { source_path = codes "wiki-3"; snippet = codes "te" }) ∷ [])
        ∷ (codes "wiki-2#0", [])
        ∷ [])
unfolding program
attaches_once = refl

attach_related_once_example :
    (out : RelatedMap) × (attach_related heads (codes "wiki-1" ∷ codes "wiki-2" ∷ []) neighbours 2
      ≡ some out)
    × ((t : Text)
        → one_if (is_member t (codes "wiki-1" ∷ codes "wiki-2" ∷ [])) + times_in t out ≤ 1)
attach_related_once_example =
    attach_related_once heads (codes "wiki-1" ∷ codes "wiki-2" ∷ []) neighbours 2 refl

tally_feedback-counts_example :
    ((counts_at (codes "a") (tally_feedback edges true)).used
      ≡ length (filter (is_use (codes "a")) edges))
    × ((counts_at (codes "a") (tally_feedback edges true)).contested
        ≡ length (filter (is_contest (codes "a") true) edges))
tally_feedback-counts_example = tally_feedback-counts (codes "a") edges true

tally_feedback-IsNet_example :
    IsNet
      (length (filter (is_use (codes "a")) edges))
      (length (filter (is_contest (codes "a") true) edges))
      (net_feedback
        (counts_at (codes "a") (tally_feedback edges true)).used
        (counts_at (codes "a") (tally_feedback edges true)).contested)
tally_feedback-IsNet_example = tally_feedback-IsNet (codes "a") edges true
