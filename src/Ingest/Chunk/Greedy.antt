-- ===== src/Ingest/Chunk/Greedy.antt =====
-- `_pack` of src/ohmyboring/ingest/chunk.py: a group of sections is closed only when the next section
-- does not fit.
use ohmyboring.Prelude.{
  ℕ, ◌≡◌, ◌≤◌, false, List, [], ◌∷◌, ◌++◌, arith, Text, if◌then◌else◌, is_empty, NonEmpty, newline,
  join_lines, join_lines-append, length, length-append,
}
use ohmyboring.Prelude.Int.{ℤ, pos, leb_ℤ}

-- The sections of `g` and the first one of `h` are above the budget together.
abbrev pub Overfull : ℤ → List Text → List Text → Type 0
Overfull budget g [] = ⊥
Overfull budget g (x ∷ h) = leb_ℤ (pos (length (join_lines (g ++ x ∷ [])))) budget ≡ false

-- No group has room for the section that comes after it.
abbrev pub IsGreedy : ℤ → List (List Text) → Type 0
IsGreedy budget [] = Unit
IsGreedy budget (g ∷ []) = Unit
IsGreedy budget (g ∷ h ∷ gs) = Overfull budget g h × IsGreedy budget (h ∷ gs)

-- The groups when the sections that wait are taken as one.
abbrev pub closed_groups : List (List Text) → List Text → List (List Text)
closed_groups gs current = if is_empty current then gs else gs ++ current ∷ []

module _ (budget : ℤ) where
  IsGreedy-init :
      (gs : List (List Text)) (g : List Text) → IsGreedy budget (gs ++ g ∷ []) → IsGreedy budget gs
  IsGreedy-init [] g h = tt
  IsGreedy-init (f ∷ []) g h = tt
  IsGreedy-init (f ∷ e ∷ gs) g h = (h.0, IsGreedy-init (e ∷ gs) g h.1)

  IsGreedy-snoc :
      (gs : List (List Text)) (g h : List Text)
      → IsGreedy budget (gs ++ g ∷ [])
      → Overfull budget g h
      → IsGreedy budget ((gs ++ g ∷ []) ++ h ∷ [])
  IsGreedy-snoc [] g h greedy over = (over, tt)
  IsGreedy-snoc (f ∷ []) g h greedy over = (greedy.0, (over, tt))
  IsGreedy-snoc (f ∷ e ∷ gs) g h greedy over = (greedy.0, IsGreedy-snoc (e ∷ gs) g h greedy.1 over)

  IsGreedy-longer :
      (gs : List (List Text)) (x : Text) (xs ys : List Text)
      → IsGreedy budget (gs ++ (x ∷ xs) ∷ [])
      → IsGreedy budget (gs ++ (x ∷ ys) ∷ [])
  IsGreedy-longer [] x xs ys h = tt
  IsGreedy-longer (f ∷ []) x xs ys h = (h.0, tt)
  IsGreedy-longer (f ∷ e ∷ gs) x xs ys h = (h.0, IsGreedy-longer (e ∷ gs) x xs ys h.1)

  -- The groups stay greedy, whatever section comes next, or with those that wait.
  abbrev pub Opens : List (List Text) → List Text → Type 0
  Opens gs [] = (x : Text) → IsGreedy budget (gs ++ (x ∷ []) ∷ [])
  Opens gs (c ∷ cs) = IsGreedy budget (gs ++ (c ∷ cs) ∷ [])

  pub Opens-closed :
      (gs : List (List Text)) (current : List Text)
      → Opens gs current
      → IsGreedy budget (closed_groups gs current)
  Opens-closed gs [] h = IsGreedy-init gs ([] ∷ []) (h [])
  Opens-closed gs (c ∷ cs) h = h

  pub Opens-next :
      (gs : List (List Text)) (current : List Text) (x : Text)
      → Opens gs current
      → (NonEmpty current → Overfull budget current (x ∷ []))
      → IsGreedy budget (closed_groups gs current ++ (x ∷ []) ∷ [])
  Opens-next gs [] x h over = h x
  Opens-next gs (c ∷ cs) x h over = IsGreedy-snoc gs (c ∷ cs) (x ∷ []) h (over tt)

  pub Opens-longer :
      (gs : List (List Text)) (current : List Text) (x : Text)
      → Opens gs current
      → Opens gs (current ++ x ∷ [])
  Opens-longer gs [] x h = h x
  Opens-longer gs (c ∷ cs) x h = IsGreedy-longer gs c cs (cs ++ x ∷ []) h

  above : (m n : ℕ) → m ≤ n → leb_ℤ (pos m) budget ≡ false → leb_ℤ (pos n) budget ≡ false
  above m n le h = ground arith

  length-join_lines_last :
      (xs : List Text) (x : Text) → length x ≤ length (join_lines (xs ++ x ∷ []))
  unfolding join_lines
  length-join_lines_last [] x = omega arith
  length-join_lines_last (y ∷ xs) x =
      rw (join_lines-append (y ∷ xs) (x ∷ []) tt tt)
        (omega (arith, length-append (join_lines (y ∷ xs)) (newline ∷ x)))

  -- A section above the budget fits behind no group, and nothing fits behind it.
  pub oversized-Overfull :
      (current : List Text) (x : Text)
      → leb_ℤ (pos (length x)) budget ≡ false
      → Overfull budget current (x ∷ [])
  oversized-Overfull current x big =
      above (length x) (length (join_lines (current ++ x ∷ []))) (length-join_lines_last current x)
        big

  pub oversized-Opens :
      (gs : List (List Text)) (x : Text)
      → leb_ℤ (pos (length x)) budget ≡ false
      → IsGreedy budget (gs ++ (x ∷ []) ∷ [])
      → Opens (gs ++ (x ∷ []) ∷ []) []
  unfolding join_lines
  oversized-Opens gs x big h = λ y. IsGreedy-snoc gs (x ∷ []) (y ∷ []) h (
      above (length x) (length (join_lines (x ∷ y ∷ [])))
        (omega (arith, length-append x (newline ∷ y))) big)
